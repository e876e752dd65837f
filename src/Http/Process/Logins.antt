-- ===== src/Http/Process/Logins.antt =====
-- A login, from the bytes of its request to the file that answers it.
use mathlib.Core.Path.{subst}
use cpp_server.Prelude.{
  ℕ, suc, ◌+◌, ◌<◌, ◌≤◌, ◌≡◌, sym, ap, ◌∙◌, Bool, true, false, none, some, List, ◌∷◌, ◌++◌, arith,
  ℤ, pos, length, length-append,
}
use cpp_server.CString.{c_str, find_last_char}
use cpp_server.CString.Buffers.{NoNul}
use cpp_server.Http.State.{Conn, Shared}
use cpp_server.Http.Request.{World, login, do_request}
use cpp_server.Http.Request.Form.{form_text, Without}
use cpp_server.Http.Request.Answer.{with_form, answered, do_request-login}
use cpp_server.Http.Process.{process_read}
use cpp_server.Http.Process.Text.{IsLine}
use cpp_server.Http.Process.RequestLine.{IsPath, request_text, http_1_1}
use cpp_server.Http.Process.Loop.{AllFields, read_fields, lines_len}
use cpp_server.Http.Process.Received.{arrived, request, Received, process_read-body}

-- A connection with these fields.
same_conn :
    (p : List ℕ) (fs : Bool × ℤ) (c d : Conn) (s : ℕ)
    → Received true p fs c d
    → d.string ≡ some s
    → d ≡ with_form d d.read_buf 5 s
same_conn p fs c d s v e =
    λ i. record d { url = v.url_at i; cgi = v.cgi_is i; string = e i; real_file = v.real_is i }

-- What a name and a password have to be for the form and its arrays.
pub record FitsForm (name password : List ℕ) : Type 0 where
  pub name_clean : NoNul name
  pub no_amp : Without b'&' name
  pub password_clean : NoNul password
  pub name_short : length name < 100
  pub password_short : length password < 100

-- The page that a login is sent to: "/2" with any ending that has no '/' and is not too long.
pub record IsFormPage (q : List ℕ) : Type 0 where
  pub line : IsLine (b'2' ∷ q)
  pub plain : IsPath (b'2' ∷ q)
  pub no_slash : find_last_char b'/' q ≡ none
  pub short : length q < 199

-- A login that has come as a whole, a POST to a page "/2…" with the form as its body, where the name
-- and the password are below 100 bytes each, with no NUL and no '&' in the name, the page has no
-- further '/' and less than 199 bytes behind its '2', the root is below 180 bytes and no header line
-- has exactly four bytes, is answered by the page that `login` gives for the name and the password:
-- it is the file that `stat` is asked for, below the root of the documents, and the map of users is
-- left as it is. Whether the connection stays is what the header lines say.
pub process_read-login :
    (w : World) (g : Shared) (c : Conn) (q name password more : List ℕ) (ls : List (List ℕ))
    (m n b : ℕ) (linger : Bool)
    → IsFormPage q
    → FitsForm name password
    → AllFields ls
    → read_fields ls (false, pos 0) ≡ (linger, pos (suc n))
    → length (form_text name password) ≡ suc n
    → length (request_text true (b'2' ∷ q)) + lines_len ls + 4 + suc n ≤ m
    → NoNul c.doc_root
    → length c.doc_root < 180
    → (d : Conn) × (process_read w g
          (arrived c (request true (b'2' ∷ q) ls (form_text name password ++ b ∷ more)) m)
        ≡ answered w g d)
      × (c_str d.real_file 0 ≡ c.doc_root ++ login g.users name password)
      × (d.linger ≡ linger)
process_read-login w g c q name password more ls m n b linger at who fields says size le clean
      short =
    let p = b'2' ∷ q in
    let (d, reads, v, s, string_at, body) =
      process_read-body w g true c p ls at.line at.plain fields m n b (form_text name password) more
        linger size says le in
    let (buf', real, asks, named) =
      do_request-login w g d d.read_buf q name password more 5 s v.url_is at.no_slash at.short body
        who.name_clean who.no_amp who.password_clean who.name_short who.password_short
        (subst NoNul (sym v.root_is) clean) (omega (arith, ap length v.root_is))
        (omega (arith, v.has_request, length-append q (b' ' ∷ http_1_1))) in
    (
      record (with_form d buf' 5 s) { real_file = real },
      reads ∙ ap (do_request w g) (same_conn p (linger, pos (suc n)) c d s v string_at) ∙ asks,
      named ∙ ap (λ r. r ++ login g.users name password) v.root_is,
      v.linger_is,
    )

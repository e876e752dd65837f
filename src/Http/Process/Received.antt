-- ===== src/Http/Process/Received.antt =====
-- `process_read` of a request that has come as a whole: what `do_request` is called with.
use mathlib.Core.List.{append_assoc}
use cpp_server.Prelude.{
  length-append, length-replicate, replicate, drop, drop-append, ℕ, suc, ◌+◌, ◌-◌, ◌≤◌, ◌≡◌, refl,
  ap, ◌∙◌, Bool, false, true, Option, some, List, [], ◌∷◌, ◌++◌, arith, ℤ, pos, length, pos_part,
  if◌then◌else◌,
}
use cpp_server.CString.{c_str}
use cpp_server.Http.State.{
  write_buffer_size, filename_len, Conn, Shared, get, post, line_ok, CheckState, content,
}
use cpp_server.Http.Line.{cr, lf, read_end}
use cpp_server.Http.Request.{World, do_request}
use cpp_server.Http.Process.{reset, read_lines, process_read}
use cpp_server.Http.Process.Text.{IsLine}
use cpp_server.Http.Process.RequestLine.{IsPath, page, verb_len, request_text, requested}
use cpp_server.Http.Process.Loop.{
  length-ended, at_header, ended, all_ended, length-all_ended, read_fields, lines_of, lines_len,
  AllFields, read_lines-blank,
}
use cpp_server.Http.Process.Body.{read_lines-body}
use cpp_server.Http.Process.Whole.{
  head_of, read_lines-head, c_str-page, length-le-lines_len, length-head_of, requested-read_idx,
}

-- The buffer with a request in it, of which `m` bytes have been read.
abbrev pub arrived : Conn → List ℕ → ℕ → Conn
arrived c text m = record (reset c) { read_buf = text; read_idx = pos m }

abbrev pub request : Bool → List ℕ → List (List ℕ) → List ℕ → List ℕ
request posts p ls rest = request_text posts p ++ cr ∷ lf ∷ lines_of ls (cr ∷ lf ∷ rest)

-- What the connection has taken from a request.
pub record Received (posts : Bool) (p : List ℕ) (fs : Bool × ℤ) (c d : Conn) : Type 0 where
  pub url_at : d.url ≡ some (verb_len posts)
  pub url_is : c_str d.read_buf (verb_len posts) ≡ page p
  pub by : d.method ≡ (if posts then post else get)
  pub cgi_is : d.cgi ≡ posts
  pub linger_is : d.linger ≡ fs.0
  pub length_is : d.content_length ≡ fs.1
  pub root_is : d.doc_root ≡ c.doc_root
  pub same_fd : d.sockfd ≡ c.sockfd
  pub real_is : d.real_file ≡ replicate filename_len 0
  pub same_mode : d.trig_mode ≡ c.trig_mode
  pub write_sized : length d.write_buf ≡ write_buffer_size
  pub write_empty : d.write_idx ≡ 0
  pub has_request : length (request_text posts p) + 4 ≤ length d.read_buf

url_behind :
    (posts : Bool) (p rest : List ℕ) (ls : List (List ℕ))
    → IsLine p
    → c_str (ended (all_ended (head_of posts p) ls) [] ++ rest) (verb_len posts) ≡ page p
url_behind posts p rest ls h =
    ap (λ z. c_str z (verb_len posts))
      (append_assoc (all_ended (head_of posts p) ls) (0 ∷ 0 ∷ []) rest)
    ∙ c_str-page posts p (0 ∷ 0 ∷ rest) ls h

holds_request :
    (posts : Bool) (p rest : List ℕ) (ls : List (List ℕ))
    → length (request_text posts p) + 4 ≤ length (ended (all_ended (head_of posts p) ls) [] ++ rest)
holds_request posts p rest ls =
    let pre = all_ended (head_of posts p) ls in
    omega (
      arith,
      length-append (ended pre []) rest,
      length-ended pre [],
      length-all_ended (head_of posts p) ls,
      length-head_of posts p,
    )

at_header-Received :
    (posts : Bool) (p rest : List ℕ) (ls : List (List ℕ)) (fs : Bool × ℤ) (m : ℕ) (c : Conn)
    → IsLine p
    → Received posts p fs c (
        at_header
          (requested posts p (record (reset c) { read_idx = pos m }))
          (ended (all_ended (head_of posts p) ls) [])
          rest
          fs)
unfolding reset
at_header-Received true p rest ls fs m c h = record {
  url_at = refl;
  url_is = url_behind true p rest ls h;
  by = refl;
  cgi_is = refl;
  linger_is = refl;
  length_is = refl;
  root_is = refl;
  same_fd = refl;
  real_is = refl;
  same_mode = refl;
  write_sized = length-replicate {A = ℕ} write_buffer_size 0;
  write_empty = refl;
  has_request = holds_request true p rest ls;
}
at_header-Received false p rest ls fs m c h = record {
  url_at = refl;
  url_is = url_behind false p rest ls h;
  by = refl;
  cgi_is = refl;
  linger_is = refl;
  length_is = refl;
  root_is = refl;
  same_fd = refl;
  real_is = refl;
  same_mode = refl;
  write_sized = length-replicate {A = ℕ} write_buffer_size 0;
  write_empty = refl;
  has_request = holds_request false p rest ls;
}

-- Where the body is has no part in this.
Received-string :
    (posts : Bool) (p : List ℕ) (fs : Bool × ℤ) (c d : Conn) (k : CheckState) (s : Option ℕ)
    → Received posts p fs c d
    → Received posts p fs c (record d { check_state = k; string = s })
Received-string posts p fs c d k s v = record {
  url_at = v.url_at;
  url_is = v.url_is;
  by = v.by;
  cgi_is = v.cgi_is;
  linger_is = v.linger_is;
  length_is = v.length_is;
  root_is = v.root_is;
  same_fd = v.same_fd;
  real_is = v.real_is;
  same_mode = v.same_mode;
  write_sized = v.write_sized;
  write_empty = v.write_empty;
  has_request = v.has_request;
}

module _ (w : World) (g : Shared) (posts : Bool) (c : Conn) (p : List ℕ) (ls : List (List ℕ))
    (line : IsLine p) (plain : IsPath p) (fields : AllFields ls) where
  -- A request with no body that has come as a whole, "GET" or "POST", a path that begins with '/',
  -- "HTTP/1.1", any header lines, none of exactly four bytes, and a blank line, is read in one call:
  -- `do_request` is called with the path as its URL ("/judge.html" for "/"), the method, and what the
  -- header lines say of the connection and of the length, which is none.
  pub process_read-request :
      (m : ℕ) (rest : List ℕ) (linger : Bool)
      → read_fields ls (false, pos 0) ≡ (linger, pos 0)
      → length (request_text posts p) + lines_len ls + 4 ≤ m
      → (d : Conn) × (process_read w g (arrived c (request posts p ls rest) m) ≡ do_request w g d)
        × Received posts p (linger, pos 0) c d
  unfolding process_read reset
  process_read-request m rest linger says le =
      let d0 = requested posts p (record (reset c) { read_idx = pos m }) in
      let f = m - length ls in
      let rounds : m - 0 + 2 ≡ suc (length ls + suc f) = omega (arith, length-le-lines_len ls) in
      let pre = all_ended (head_of posts p) ls in
      let room : length pre + 2 ≤ read_end d0 = omega (
        arith,
        length-all_ended (head_of posts p) ls,
        length-head_of posts p,
        ap pos_part (requested-read_idx posts m c p),
      ) in
      (
        at_header d0 (ended pre []) rest (linger, pos 0),
        ap (λ k. read_lines k w g line_ok (arrived c (request posts p ls rest) m)) rounds
            ∙ read_lines-head w g (suc f) m posts c p (cr ∷ lf ∷ rest) ls (linger, pos 0) line plain
                fields says (omega (arith, le))
            ∙ read_lines-blank w g d0 f pre rest linger room,
        at_header-Received posts p rest ls (linger, pos 0) m c line,
      )

  -- Likewise for a request with a body, as long as `Content-length:` says: `m_string` is the body,
  -- with a NUL in the place of the byte behind it.
  pub process_read-body :
      (m n b : ℕ) (body more : List ℕ) (linger : Bool)
      → length body ≡ suc n
      → read_fields ls (false, pos 0) ≡ (linger, pos (suc n))
      → length (request_text posts p) + lines_len ls + 4 + suc n ≤ m
      → (d : Conn) × (process_read w g (arrived c (request posts p ls (body ++ b ∷ more)) m)
          ≡ do_request w g d)
        × Received posts p (linger, pos (suc n)) c d
        × (s : ℕ) × (d.string ≡ some s)
        × (drop s d.read_buf ≡ body ++ 0 ∷ more)
  unfolding process_read reset
  process_read-body m n b body more linger size says le =
      let d0 = requested posts p (record (reset c) { read_idx = pos m }) in
      let f = m - length ls - 1 in
      let rounds : m - 0 + 2 ≡ suc (length ls + suc (suc f)) =
        omega (arith, length-le-lines_len ls, le) in
      let pre = all_ended (head_of posts p) ls in
      let room : length pre + 2 + suc n ≤ m =
        omega (arith, length-all_ended (head_of posts p) ls, length-head_of posts p) in
      let fs : Bool × ℤ = (linger, pos (suc n)) in
      let d = at_header d0 (ended pre []) (body ++ 0 ∷ more) fs in
      let text = request posts p ls (body ++ b ∷ more) in
      (
        record d { check_state = content; string = some (length (ended pre [])) },
        ap (λ k. read_lines k w g line_ok (arrived c text m)) rounds
            ∙ read_lines-head w g (suc (suc f)) m posts c p (cr ∷ lf ∷ (body ++ b ∷ more)) ls fs
                line plain fields says (omega (arith, le))
            ∙ read_lines-body w g d0 f pre body more b n m linger size
                (requested-read_idx posts m c p) room,
        Received-string posts p fs c d content _
            (at_header-Received posts p (body ++ 0 ∷ more) ls fs m c line),
        length (ended pre []),
        refl,
        drop-append (ended pre []) (body ++ 0 ∷ more) (length (ended pre [])) refl,
      )

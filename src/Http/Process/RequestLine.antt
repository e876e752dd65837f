-- ===== src/Http/Process/RequestLine.antt =====
-- The request line: "GET" or "POST", a blank, the path, a blank and the version.
use mathlib.Core.List.{append_assoc}
use cpp_server.Prelude.{
  ℕ, suc, ◌+◌, ◌≡◌, refl, sym, ap, ◌∙◌, Bool, false, true, some, List, [], ◌∷◌, ◌++◌, arith, length,
  length-append, set, set-append,
}
use cpp_server.CString.{
  codes, c_str, until_nul, find_blank, count_blanks, is_blank, case_eq, case_eq_n, strcpy_at,
  to_lower,
}
use cpp_server.CString.Buffers.{NoNul, NoNul-append, write_at-fits}
use cpp_server.Http.State.{Conn, get, post, header, no_request, ok}
use cpp_server.Http.Parse.{
  parse_request_line, parse_method, parse_version, strip_schemes, strip_scheme, accept_url,
  default_page,
}
use cpp_server.Http.Process.Text.{IsLine, IsLine-NoNul, c_str-at, byte_at-append}

-- What may stand behind the first '/' of a path.
abbrev pub IsPath : List ℕ → Type 0
IsPath [] = Unit
IsPath (b ∷ p) = (is_blank b ≡ false) × IsPath p

abbrev pub http_1_1 : List ℕ
http_1_1 = codes "HTTP/1.1"

find_blank-append : (p more : List ℕ) → IsPath p → find_blank (p ++ b' ' ∷ more) ≡ some (length p)
unfolding find_blank
find_blank-append [] more h = refl
find_blank-append (b ∷ p) more h = rw (h.0, find_blank) (rw (find_blank-append p more h.1) refl)

-- The page of a path: "/" stands for "/judge.html".
abbrev pub page : List ℕ → List ℕ
page [] = codes "/judge.html"
page (b ∷ p) = b'/' ∷ b ∷ p

-- What is left of the version behind it.
abbrev pub behind_page : List ℕ → List ℕ
behind_page [] = []
behind_page (b ∷ p) = http_1_1 ++ 0 ∷ 0 ∷ []

-- The line with a NUL behind the path.
abbrev cut : List ℕ → List ℕ → List ℕ → List ℕ
cut pre p rest = pre ++ ((b'/' ∷ p) ++ 0 ∷ (http_1_1 ++ 0 ∷ 0 ∷ rest))

module _ (pre p rest : List ℕ) (clean : IsLine p) where
  c_str-path : c_str (cut pre p rest) (length pre) ≡ b'/' ∷ p
  c_str-path =
      c_str-at pre (b'/' ∷ p) (http_1_1 ++ 0 ∷ 0 ∷ rest) (length pre) refl
        (omega arith, IsLine-NoNul p clean)

  c_str-version :
      (n : ℕ) → n ≡ length pre + suc (length p) + 1 → c_str (cut pre p rest) n ≡ http_1_1
  c_str-version n e =
      let same : cut pre p rest ≡ (pre ++ ((b'/' ∷ p) ++ 0 ∷ [])) ++ (http_1_1 ++ 0 ∷ 0 ∷ rest) =
        simp append_assoc in
      ap (λ b. c_str b n) same
      ∙ c_str-at (pre ++ ((b'/' ∷ p) ++ 0 ∷ [])) http_1_1 (0 ∷ rest) n
          (omega (arith, length-append pre ((b'/' ∷ p) ++ 0 ∷ []), length-append p (0 ∷ []), e))
          (omega arith)

  -- A path that begins with '/' has no scheme.
  strip_schemes-path : strip_schemes (cut pre p rest) (length pre) ≡ ok (some (length pre))
  unfolding strip_schemes strip_scheme case_eq_n case_eq to_lower
  strip_schemes-path = rw (c_str-path, strip_schemes) (rw c_str-path refl)

-- The buffer behind the request line.
abbrev pub paged : List ℕ → List ℕ → List ℕ → List ℕ
paged pre p rest = pre ++ (page p ++ 0 ∷ (behind_page p ++ rest))

default_page-path :
    (pre p rest : List ℕ)
    → IsLine p
    → default_page (cut pre p rest) (length pre) ≡ ok (paged pre p rest)
unfolding default_page strcpy_at
default_page-path pre [] rest h =
    let front = pre ++ b'/' ∷ [] in
    let behind = 0 ∷ (http_1_1 ++ 0 ∷ 0 ∷ rest) in
    let same : cut pre [] rest ≡ front ++ behind = sym (append_assoc pre (b'/' ∷ []) behind) in
    let written =
      write_at-fits front behind (codes "judge.html" ++ 0 ∷ []) (length pre + 1)
        (omega (arith, length-append pre (b'/' ∷ []))) (omega arith) in
    let moved : front ++ ((codes "judge.html" ++ 0 ∷ []) ++ rest) ≡ paged pre [] rest =
      append_assoc pre (b'/' ∷ []) ((codes "judge.html" ++ 0 ∷ []) ++ rest) in
    rw (c_str-path pre [] rest h, default_page) (rw same (rw written (ap ok moved)))
default_page-path pre (b ∷ p) rest h =
    rw (c_str-path pre (b ∷ p) rest h, default_page) (ground arith)

accept_url-path :
    (c : Conn) (pre p rest : List ℕ)
    → IsLine p
    → accept_url (record c { read_buf = cut pre p rest }) (some (length pre))
      ≡ ok (
        no_request,
        record c { read_buf = paged pre p rest; url = some (length pre); check_state = header },
      )
unfolding accept_url
accept_url-path c pre p rest h =
    let slash = byte_at-append pre b'/' (p ++ 0 ∷ (http_1_1 ++ 0 ∷ 0 ∷ rest)) (length pre) refl in
    rw (slash, accept_url) (rw (default_page-path pre p rest h) refl)

slash_not_blank : is_blank b'/' ≡ false
unfolding is_blank
slash_not_blank = refl

-- The rest of the line, from the path on.
parse_version-path :
    (c : Conn) (pre p rest : List ℕ)
    → IsLine p
    → IsPath p
    → parse_version
        (record c { read_buf = pre ++ ((b'/' ∷ p) ++ b' ' ∷ (http_1_1 ++ 0 ∷ 0 ∷ rest)) })
        (length pre)
      ≡ ok (
        no_request,
        record c {
          read_buf = paged pre p rest;
          url = some (length pre);
          version = some (length pre + length p + 2);
          check_state = header;
        },
      )
unfolding parse_version case_eq to_lower count_blanks is_blank
parse_version-path c pre p rest h s =
    let u = length pre in
    let k = suc (length p) in
    let buf = pre ++ ((b'/' ∷ p) ++ b' ' ∷ (http_1_1 ++ 0 ∷ 0 ∷ rest)) in
    let line = (b'/' ∷ p) ++ b' ' ∷ http_1_1 in
    let whole : buf ≡ pre ++ (line ++ 0 ∷ 0 ∷ rest) = simp append_assoc in
    let line_clean : NoNul line =
      (omega arith, NoNul-append p (b' ' ∷ http_1_1) (IsLine-NoNul p h) (omega arith)) in
    let str : c_str buf u ≡ line =
      ap (λ b. c_str b u) whole ∙ c_str-at pre line (0 ∷ rest) u refl line_clean in
    let blank : find_blank (c_str buf u) ≡ some k =
      ap find_blank str ∙ find_blank-append (b'/' ∷ p) http_1_1 (slash_not_blank, s) in
    let put_nul : set buf (u + k) 0 ≡ cut pre p rest =
      ap (λ b. set b (u + k) 0)
        (sym (append_assoc pre (b'/' ∷ p) (b' ' ∷ (http_1_1 ++ 0 ∷ 0 ∷ rest))))
      ∙ set-append (pre ++ b'/' ∷ p) b' ' 0 (http_1_1 ++ 0 ∷ 0 ∷ rest) (u + k)
          (omega (arith, length-append pre (b'/' ∷ p)))
      ∙ append_assoc pre (b'/' ∷ p) (0 ∷ (http_1_1 ++ 0 ∷ 0 ∷ rest)) in
    let v = u + length p + 2 in
    let at : (n : ℕ) → n ≡ u + suc (length p) + 1 → c_str (cut pre p rest) n ≡ http_1_1 =
      c_str-version pre p rest h in
    let no_more : count_blanks (c_str (cut pre p rest) (u + k + 1)) ≡ 0 =
      ap count_blanks (at (u + k + 1) (omega arith)) in
    let place : u + k + 1 + count_blanks (c_str (cut pre p rest) (u + k + 1)) ≡ v =
      omega (arith, no_more) in
    let c' = record c { url = some u; version = some v } in
    rw (blank, parse_version)
      (rw put_nul (
        rw place (
          rw (at v (omega arith))
            (rw (strip_schemes-path pre p rest h) (accept_url-path c' pre p rest h)))))

abbrev pub verb : Bool → List ℕ
verb true = codes "POST"
verb false = codes "GET"

abbrev pub verb_len : Bool → ℕ
verb_len true = 5
verb_len false = 4

-- The line as it comes, without its CR LF.
abbrev pub request_text : Bool → List ℕ → List ℕ
request_text posts p = verb posts ++ b' ' ∷ ((b'/' ∷ p) ++ b' ' ∷ http_1_1)

-- The connection behind the line.
abbrev pub requested : Bool → List ℕ → Conn → Conn
requested true p c = record c {
  method = post;
  cgi = true;
  url = some 5;
  version = some (5 + length p + 2);
  check_state = header;
}
requested false p c = record c {
  method = get;
  url = some 4;
  version = some (4 + length p + 2);
  check_state = header;
}

pub parse_request_line-request :
    (posts : Bool) (c : Conn) (p rest : List ℕ)
    → IsLine p
    → IsPath p
    → parse_request_line
        (record c {
          read_buf = verb posts ++ b' ' ∷ ((b'/' ∷ p) ++ b' ' ∷ (http_1_1 ++ 0 ∷ 0 ∷ rest));
        })
        0
      ≡ ok (
        no_request,
        requested posts p (record c { read_buf = paged (verb posts ++ 0 ∷ []) p rest }),
      )
unfolding parse_request_line parse_method find_blank is_blank c_str until_nul count_blanks case_eq
    to_lower
parse_request_line-request true c p rest h s =
    parse_version-path (record c { method = post; cgi = true; url = some 5 }) (verb true ++ 0 ∷ [])
      p rest h s
parse_request_line-request false c p rest h s =
    parse_version-path (record c { method = get; url = some 4 }) (verb false ++ 0 ∷ []) p rest h s

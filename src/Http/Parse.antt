-- ===== src/Http/Parse.antt =====
-- `parse_request_line`, `parse_headers` and `parse_content`: what a line of a request does to the
-- connection. `text` is the offset of the line, which `parse_line` has ended by NULs.
pub mod Place
pub mod Host
use cpp_server.Prelude.{
  ℕ, zero, suc, ◌+◌, Bool, true, false, Option, none, some, List, [], ◌∷◌, ◌++◌, ℤ, pos, negsuc,
  ◌+ℤ◌, ltb, leb_ℤ, ◌==◌, if◌then◌else◌, length, set,
}
use cpp_server.CString.{
  codes, c_str, case_eq, case_eq_n, find_blank, count_blanks, find_char, strcpy_at, atol,
}
use cpp_server.Http.State.{
  Conn, Method, get, post, CheckState, request_line, header, content, HttpCode, no_request,
  get_request, bad_request, Run, ok, undefined, ◌>>=◌, or_undefined,
}
use cpp_server.Http.Line.{byte_at}

-- The URL behind `scheme`, which begins at its first '/'; NULL where it has none.
unfoldable pub strip_scheme : List ℕ → List ℕ → ℕ → ℕ → Option ℕ
strip_scheme buf scheme n u =
    if case_eq_n (c_str buf u) scheme n
    then elim (find_char b'/' (c_str buf (u + n))) [ none ↦ none | some k ↦ some (u + n + k) ]
    else some u

-- The second test calls strncasecmp on what the first one left.
unfoldable pub strip_schemes : List ℕ → ℕ → Run (Option ℕ)
strip_schemes buf u = elim (strip_scheme buf (codes "http://") 7 u) [
  | none ↦ undefined
  | some w ↦ ok (strip_scheme buf (codes "https://") 8 w)
]

-- `strcat(m_url, "judge.html")` where the URL is "/".
unfoldable pub default_page : List ℕ → ℕ → Run (List ℕ)
default_page buf u =
    if length (c_str buf u) == 1
    then or_undefined (strcpy_at buf (u + 1) (codes "judge.html"))
    else ok buf

unfoldable pub accept_url : Conn → Option ℕ → Run (HttpCode × Conn)
accept_url c none = ok (bad_request, record c { url = none })
accept_url c (some u) =
    if byte_at c.read_buf u == b'/'
    then (do
      buf ← default_page c.read_buf u
      ok (no_request, record c { read_buf = buf; url = some u; check_state = header }))
    else ok (bad_request, record c { url = some u })

-- From the version on; `c` has the method, and its URL starts at `u`.
unfoldable pub parse_version : Conn → ℕ → Run (HttpCode × Conn)
parse_version c u = elim (find_blank (c_str c.read_buf u)) [
  | none ↦ ok (bad_request, record c { url = some u; version = none })
  | some k ↦
      let buf = set c.read_buf (u + k) 0 in
      let v = u + k + 1 + count_blanks (c_str buf (u + k + 1)) in
      let c' = record c { read_buf = buf; url = some u; version = some v } in
      if case_eq (c_str buf v) (codes "HTTP/1.1")
      then strip_schemes buf u >>= accept_url c'
      else ok (bad_request, c')
]

-- The method ends at the first blank, `k` bytes into the line.
unfoldable pub parse_method : Conn → ℕ → ℕ → Run (HttpCode × Conn)
parse_method c text k =
    let buf = set c.read_buf (text + k) 0 in
    let name = c_str buf text in
    let start = text + k + 1 in
    let u = start + count_blanks (c_str buf start) in
    let c' = record c { read_buf = buf; url = some start } in
    if case_eq name (codes "GET")
    then parse_version (record c' { method = get }) u
    else if case_eq name (codes "POST")
    then parse_version (record c' { method = post; cgi = true }) u
    else ok (bad_request, c')

unfoldable pub parse_request_line : Conn → ℕ → Run (HttpCode × Conn)
parse_request_line c text = elim (find_blank (c_str c.read_buf text)) [
  | none ↦ ok (bad_request, record c { url = none })
  | some k ↦ parse_method c text k
]

-- Behind a header's name, `n` bytes long, and the blanks that follow it.
unfoldable pub header_value : List ℕ → ℕ → ℕ → ℕ
header_value buf text n = text + n + count_blanks (c_str buf (text + n))

abbrev is_zero_ℤ : ℤ → Bool
is_zero_ℤ (pos zero) = true
is_zero_ℤ (pos (suc n)) = false
is_zero_ℤ (negsuc n) = false

unfoldable pub parse_headers : Conn → ℕ → HttpCode × Conn
parse_headers c text =
    let buf = c.read_buf in
    let line = c_str buf text in
    if byte_at buf text == 0
    then (if is_zero_ℤ c.content_length
        then (get_request, c)
        else (no_request, record c { check_state = content }))
    else if case_eq_n line (codes "Connection:") 11
    then (if case_eq (c_str buf (header_value buf text 11)) (codes "keep-alive")
        then (no_request, record c { linger = true })
        else (no_request, c))
    else if case_eq_n line (codes "Content-length:") 15
    then (no_request, record c { content_length = atol (c_str buf (header_value buf text 15)) })
    else if case_eq_n line (codes "Host") 5
    then (no_request, record c { host = some (header_value buf text 5) })
    else (no_request, c)

-- `buf[i] = '\0'`
unfoldable pub put_nul : List ℕ → ℤ → Option (List ℕ)
put_nul buf (negsuc k) = none
put_nul buf (pos i) = if ltb i (length buf) then some (set buf i 0) else none

-- There is no `return` behind the test.
unfoldable pub parse_content : Conn → ℕ → Run (HttpCode × Conn)
parse_content c text =
    if leb_ℤ (c.content_length +ℤ pos c.checked_idx) c.read_idx
    then (do
      buf ← or_undefined (put_nul c.read_buf (pos text +ℤ c.content_length))
      ok (get_request, record c { read_buf = buf; string = some text }))
    else undefined

-- ===== src/Http/Parse/Place.antt =====
-- Parsing a line leaves alone what the loop of `process_read` counts by.
use cpp_server.Prelude.{ℕ, ◌+◌, ◌≡◌, refl, Option, none, some, List, arith, set}
use cpp_server.CString.{codes, case_eq, find_blank, c_str}
use cpp_server.Http.State.{Conn, HttpCode, get_request, ok}
use cpp_server.Http.Ends.{
  Ends, value, undef, IsDone, and_then, option_elim-Ends, done, ends, or_undefined-Ends, if-Ends,
}
use cpp_server.Http.Parse.{
  parse_request_line, parse_method, parse_version, accept_url, default_page, strip_schemes,
  strip_scheme, parse_headers, parse_content,
}

-- What the loop's measure reads is left alone.
abbrev pub SamePlace : Conn → HttpCode × Conn → Type 0
SamePlace c (code, d) = (d.read_idx ≡ c.read_idx) × (d.checked_idx ≡ c.checked_idx)

kept : (c : Conn) (r : HttpCode × Conn) → SamePlace c r → Ends (SamePlace c) (ok r)
kept c r h = value h

default_page-Ends : (buf : List ℕ) (u : ℕ) → IsDone (default_page buf u)
unfolding default_page
default_page-Ends buf u = search ends

accept_url-SamePlace : (c : Conn) (u : Option ℕ) → Ends (SamePlace c) (accept_url c u)
unfolding accept_url
accept_url-SamePlace c none = value (refl, refl)
accept_url-SamePlace c (some u) =
    if-Ends _ (and_then (default_page-Ends c.read_buf u) λ buf. value (refl, refl))
      (value (refl, refl))

strip_schemes-Ends : (buf : List ℕ) (u : ℕ) → IsDone (strip_schemes buf u)
unfolding strip_schemes
strip_schemes-Ends buf u =
    option_elim-Ends (strip_scheme buf (codes "http://") 7 u) undef (λ w. done _)

parse_version-SamePlace : (c : Conn) (u : ℕ) → Ends (SamePlace c) (parse_version c u)
unfolding parse_version
parse_version-SamePlace c u =
    option_elim-Ends (find_blank (c_str c.read_buf u)) (kept c _ (refl, refl)) λ k.
      if-Ends _ (and_then (strip_schemes-Ends _ _) λ w. accept_url-SamePlace _ w)
        (kept c _ (refl, refl))

parse_method-SamePlace : (c : Conn) (text k : ℕ) → Ends (SamePlace c) (parse_method c text k)
unfolding parse_method
parse_method-SamePlace c text k =
    let buf = set c.read_buf (text + k) 0 in
    if-Ends (case_eq (c_str buf text) (codes "GET")) (parse_version-SamePlace _ _) (
      if-Ends (case_eq (c_str buf text) (codes "POST")) (parse_version-SamePlace _ _)
        (kept c _ (refl, refl)))

pub parse_request_line-SamePlace :
    (c : Conn) (text : ℕ) → Ends (SamePlace c) (parse_request_line c text)
unfolding parse_request_line
parse_request_line-SamePlace c text =
    option_elim-Ends (find_blank (c_str c.read_buf text)) (kept c _ (refl, refl))
      λ k. parse_method-SamePlace c text k

pub parse_headers-SamePlace : (c : Conn) (text : ℕ) → SamePlace c (parse_headers c text)
unfolding parse_headers
parse_headers-SamePlace c text = (ground arith, ground arith)

-- `parse_content` returns GET_REQUEST where it returns at all.
pub parse_content-get_request :
    (c : Conn) (text : ℕ) → Ends (λ (code, d). code ≡ get_request) (parse_content c text)
unfolding parse_content
parse_content-get_request c text =
    if-Ends _ (and_then (or_undefined-Ends _) λ buf. value refl) undef

-- ===== src/Http/Response/Pages.antt =====
-- The error pages of `process_write`: a status line, the headers and a text.
use mathlib.Core.Path.{subst}
use cpp_server.Prelude.{
  ℕ, ◌+◌, ◌<◌, ◌≡◌, sym, ap, Bool, List, ◌++◌, ℤ, pos, arith, length, length-append,
}
use cpp_server.Http.State.{Conn, write_buffer_size}
use cpp_server.Http.Response.{
  add_response, add_status_line, add_content, add_headers, add_content_length, add_linger,
  add_blank_line, status_line, content_length_line, linger_line, crlf, add_page,
}
use cpp_server.Http.Response.Append.{
  HasBuffer, Appended, Appends, add_response-Appends, after-Appends, and_then-Appends,
}

unfoldable pub headers : Bool → ℤ → List ℕ
headers keep n = (content_length_line n ++ linger_line keep) ++ crlf

-- An answer that is all in the buffer.
unfoldable pub page : ℕ → List ℕ → Bool → List ℕ → List ℕ
page status title keep form = status_line status title ++ (headers keep (pos (length form)) ++ form)

pub same_linger : {c d : Conn} {s : List ℕ} → Appended c s d → d.linger ≡ c.linger
same_linger a = ap (λ (x : Conn). x.linger) a.rest

pub add_headers-Appends :
    (c : Conn) (n : ℤ)
    → HasBuffer c
    → c.write_idx + length (headers c.linger n) + 1 < write_buffer_size
    → Appends (add_headers c n) c (headers c.linger n)
unfolding add_headers add_content_length add_linger add_blank_line headers
add_headers-Appends c n h lt =
    and_then-Appends _ add_blank_line c (first ++ second) crlf
      (and_then-Appends _ add_linger c first second
        (add_response-Appends c first h (omega (arith, both, all)))
        λ d a.
          subst (λ k. Appends (add_response d (linger_line k)) d second) (sym (same_linger a))
            (add_response-Appends d second a.buffer (omega (arith, a.index, both, all))))
      λ d a. add_response-Appends d crlf a.buffer (omega (arith, a.index, both, all))
  where
    first : List ℕ
    first = content_length_line n

    second : List ℕ
    second = linger_line c.linger

    both : length (first ++ second) ≡ length first + length second
    both = length-append first second

    all : length ((first ++ second) ++ crlf) ≡ length (first ++ second) + 2
    all = length-append (first ++ second) crlf

-- An error page that fits in the buffer is appended whole.
pub add_page-Appends :
    (c : Conn) (status : ℕ) (title form : List ℕ)
    → HasBuffer c
    → c.write_idx + length (page status title c.linger form) + 1 < write_buffer_size
    → Appends (add_page c status title form) c (page status title c.linger form)
unfolding add_page add_status_line add_content page
add_page-Appends c status title form h lt =
    after-Appends _ _ c first (second ++ form)
      (add_response-Appends c first h (omega (arith, all, rest)))
      λ d a.
        after-Appends _ _ d second form
          (subst
            (λ k. Appends (add_headers d (pos (length form))) d (headers k (pos (length form))))
            (same_linger a) (add_headers-Appends d (pos (length form)) a.buffer (fits d a)))
          λ e b. add_response-Appends e form b.buffer (omega (arith, a.index, b.index, all, rest))
  where
    first : List ℕ
    first = status_line status title

    second : List ℕ
    second = headers c.linger (pos (length form))

    all : length (first ++ (second ++ form)) ≡ length first + length (second ++ form)
    all = length-append first (second ++ form)

    rest : length (second ++ form) ≡ length second + length form
    rest = length-append second form

    fits :
        (d : Conn)
        → Appended c first d
        → d.write_idx + length (headers d.linger (pos (length form))) + 1 < write_buffer_size
    fits d a =
        subst (λ k. d.write_idx + length (headers k (pos (length form))) + 1 < write_buffer_size)
          (sym (same_linger a)) (omega (arith, a.index, all, rest))

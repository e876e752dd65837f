-- ===== src/Http/Response/Codes.antt =====
-- What `process_write` makes of each result of the parser.
use mathlib.Core.Path.{subst}
use mathlib.Core.Option.{some-injective}
use cpp_server.Prelude.{
  ℕ, ◌+◌, ◌^◌, ◌<◌, ◌≡◌, refl, ap, ◌∙◌, Bool, true, false, Option, none, some, List, [], ◌∷◌, ◌++◌,
  pos, arith, length, take,
}
use cpp_server.CString.{codes}
use cpp_server.CString.Decimal.{print_int}
use cpp_server.Http.State.{
  Conn, FileStat, HttpCode, bad_request, forbidden_request, file_request, internal_error,
  from_write_buf, write_buffer_size,
}
use cpp_server.Http.Response.{
  add_response, add_page, add_status_line, status_line, content_length_line, linger_line,
  process_write, write_file, error_403_form, error_404_form, error_500_form, to_int, send_buffer,
}
use cpp_server.Http.Response.Append.{response, HasBuffer, Appends}
use cpp_server.Http.Response.Pages.{page, headers, add_page-Appends}

-- The status, the title and the text that go out for a code. A bad request is answered with 404.
unfoldable pub error_page : HttpCode → Option (ℕ × List ℕ × List ℕ)
error_page internal_error = some (500, codes "Internal Error", error_500_form)
error_page bad_request = some (404, codes "Not Found", error_404_form)
error_page forbidden_request = some (403, codes "Forbidden", error_403_form)
error_page _ = none

pub to_int_small : (n : ℕ) → n < 2 ^ 31 → to_int n ≡ pos n
unfolding to_int
to_int_small n h = ground arith

-- The whole of `text` is in the buffer, and it alone is to be sent.
pub record Sends (text : List ℕ) (r : Bool × Conn) : Type 0 where
  pub success : r.0 ≡ true
  pub whole : response r.1 ≡ text
  pub parts : r.1.iv ≡ from_write_buf r.1.write_idx ∷ []
  pub counted : r.1.bytes_to_send ≡ pos (length text)

send_buffer-Sends :
    (c : Conn) (text : List ℕ) (r : Bool × Conn)
    → c.write_idx ≡ 0
    → length text < write_buffer_size
    → Appends r c text
    → Sends text (send_buffer r)
send_buffer-Sends c text (false, d) empty lt h = absurd (cc)
send_buffer-Sends c text (true, d) empty lt h = record {
  success = refl;
  whole = h.1.added ∙ ap (λ n. take n c.write_buf ++ text) empty;
  parts = refl;
  counted =
      let size : d.write_idx ≡ length text = omega (arith, h.1.index) in
      rw size (to_int_small (length text) (omega arith));
}

small_page :
    (keep : Bool)
    → (length (page 500 (codes "Internal Error") keep error_500_form) + 1 < write_buffer_size)
      × (length (page 404 (codes "Not Found") keep error_404_form) + 1 < write_buffer_size)
      × (length (page 403 (codes "Forbidden") keep error_403_form) + 1 < write_buffer_size)
unfolding page headers status_line content_length_line linger_line print_int
small_page true = omega arith
small_page false = omega arith

error_page-Sends :
    (c : Conn) (status : ℕ) (title form : List ℕ)
    → HasBuffer c
    → c.write_idx ≡ 0
    → length (page status title c.linger form) + 1 < write_buffer_size
    → Sends (page status title c.linger form) (send_buffer (add_page c status title form))
error_page-Sends c status title form h empty lt =
    send_buffer-Sends c (page status title c.linger form) (add_page c status title form) empty
      (omega arith) (add_page-Appends c status title form h (omega arith))

-- With an empty buffer of the right size, a code that has an error page is answered by exactly
-- this page: status line, content length, connection header, blank line and text.
pub process_write-error_page :
    (c : Conn) (code : HttpCode) (status : ℕ) (title form : List ℕ)
    → HasBuffer c
    → c.write_idx ≡ 0
    → error_page code ≡ some (status, title, form)
    → Sends (page status title c.linger form) (process_write c code)
unfolding process_write error_page
process_write-error_page c internal_error status title form h empty e =
    subst (λ t. Sends (page t.0 t.1 c.linger t.2) (process_write c internal_error))
      (some-injective _ _ e)
      (error_page-Sends c 500 (codes "Internal Error") error_500_form h empty
        (small_page c.linger).0)
process_write-error_page c bad_request status title form h empty e =
    subst (λ t. Sends (page t.0 t.1 c.linger t.2) (process_write c bad_request))
      (some-injective _ _ e)
      (error_page-Sends c 404 (codes "Not Found") error_404_form h empty (small_page c.linger).1)
process_write-error_page c forbidden_request status title form h empty e =
    subst (λ t. Sends (page t.0 t.1 c.linger t.2) (process_write c forbidden_request))
      (some-injective _ _ e)
      (error_page-Sends c 403 (codes "Forbidden") error_403_form h empty (small_page c.linger).2)
process_write-error_page c _ status title form h empty e = absurd (cc)

pub same_file : (c : Conn) (text : List ℕ) → (add_response c text).1.file_stat ≡ c.file_stat
unfolding add_response
same_file c text = ground arith

-- A code with no error page is not answered at all, except for a file that has bytes: the
-- connection of a client that asks for a missing file, or for an empty one, gets no response.
pub process_write-unanswered :
    (c : Conn) (code : HttpCode)
    → error_page code ≡ none
    → (code ≡ file_request → c.file_stat.st_size ≡ 0)
    → (process_write c code).0 ≡ false
unfolding process_write error_page write_file add_status_line
process_write-unanswered c internal_error e h = cc
process_write-unanswered c bad_request e h = cc
process_write-unanswered c forbidden_request e h = cc
process_write-unanswered c file_request e h =
    let empty : (add_response c (status_line 200 (codes "OK"))).1.file_stat.st_size ≡ 0 =
      ap (λ (x : FileStat). x.st_size) (same_file c _) ∙ h refl in
    rw empty refl
process_write-unanswered c _ e h = refl

-- ===== src/Http/Response.antt =====
-- `add_response` and its callers, and `process_write`: the response in the write buffer.
-- `m_write_idx` is at most 1023 on entry, so `WRITE_BUFFER_SIZE - 1 - m_write_idx` is not negative.
pub mod Append
pub mod Pages
pub mod Codes
pub mod Served
use cpp_server.Prelude.{
  ℕ, zero, suc, ◌+◌, ◌-◌, ◌/◌, ◌%◌, ◌^◌, Bool, true, false, Option, none, some, List, [], ◌∷◌, ◌++◌,
  ℤ, pos, negsuc, leb, ltb, ◌==◌, if◌then◌else◌, length, take, drop,
}
use cpp_server.CString.{codes}
use cpp_server.CString.Decimal.{print_int}
use cpp_server.Http.State.{
  Conn, HttpCode, no_request, get_request, bad_request, no_resource, forbidden_request,
  file_request, internal_error, closed_connection, IoVec, from_write_buf, from_file,
  write_buffer_size,
}

-- `vsnprintf(buf + i, n, …)` of the text: its first n - 1 bytes and a NUL; nothing where n is 0.
unfoldable pub print_at : List ℕ → ℕ → ℕ → List ℕ → List ℕ
print_at buf i zero text = buf
print_at buf i (suc n) text =
    let out = take n text ++ 0 ∷ [] in take i buf ++ (out ++ drop (i + length out) buf)

abbrev pub room : Conn → ℕ
room c = write_buffer_size - 1 - c.write_idx

-- `text` is what the format and its arguments come to.
unfoldable pub add_response : Conn → List ℕ → Bool × Conn
add_response c text =
    if leb write_buffer_size c.write_idx
    then (false, c)
    else let c' = record c { write_buf = print_at c.write_buf c.write_idx (room c) text } in
      if leb (room c) (length text)
      then (false, c')
      else (true, record c' { write_idx = c.write_idx + length text })

abbrev pub crlf : List ℕ
crlf = 13 ∷ 10 ∷ []

unfoldable pub status_line : ℕ → List ℕ → List ℕ
status_line status title = codes "HTTP/1.1 " ++ (print_int (pos status) ++ (b' ' ∷ (title ++ crlf)))

unfoldable pub content_length_line : ℤ → List ℕ
content_length_line n = codes "Content-Length:" ++ (print_int n ++ crlf)

unfoldable pub linger_line : Bool → List ℕ
linger_line keep =
    codes "Connection:" ++ ((if keep then codes "keep-alive" else codes "close") ++ crlf)

unfoldable pub add_content : Conn → List ℕ → Bool × Conn
add_content c text = add_response c text

unfoldable pub add_status_line : Conn → ℕ → List ℕ → Bool × Conn
add_status_line c status title = add_response c (status_line status title)

unfoldable pub add_content_type : Conn → Bool × Conn
add_content_type c = add_response c (codes "Content-Type:text/html" ++ crlf)

unfoldable pub add_content_length : Conn → ℤ → Bool × Conn
add_content_length c n = add_response c (content_length_line n)

unfoldable pub add_linger : Conn → Bool × Conn
add_linger c = add_response c (linger_line c.linger)

unfoldable pub add_blank_line : Conn → Bool × Conn
add_blank_line c = add_response c crlf

-- `&&` of calls that change the connection: the second is made only if the first succeeds.
abbrev pub and_then : Bool × Conn → (Conn → Bool × Conn) → Bool × Conn
and_then (true, c) f = f c
and_then (false, c) f = (false, c)

-- A call whose result is thrown away.
abbrev pub after : Bool × Conn → (Conn → Bool × Conn) → Bool × Conn
after (done, c) f = f c

unfoldable pub add_headers : Conn → ℤ → Bool × Conn
add_headers c n = and_then (and_then (add_content_length c n) add_linger) add_blank_line

abbrev pub error_400_form : List ℕ
error_400_form =
    codes "Your request has bad syntax or is inherently impossible to staisfy." ++ 10 ∷ []

abbrev pub error_403_form : List ℕ
error_403_form = codes "You do not have permission to get file form this server." ++ 10 ∷ []

abbrev pub error_404_form : List ℕ
error_404_form = codes "The requested file was not found on this server." ++ 10 ∷ []

abbrev pub error_500_form : List ℕ
error_500_form = codes "There was an unusual problem serving the request file." ++ 10 ∷ []

abbrev pub empty_page : List ℕ
empty_page = codes "<html><body></body></html>"

-- An error page: the status line, the headers and the text.
unfoldable pub add_page : Conn → ℕ → List ℕ → List ℕ → Bool × Conn
add_page c status title form =
    after (add_status_line c status title)
      λ c1. after (add_headers c1 (pos (length form))) λ c2. add_content c2 form

-- `(int)n` for a 64-bit size, as `add_headers` takes it.
unfoldable pub to_int : ℕ → ℤ
to_int n = if ltb (n % 2 ^ 32) (2 ^ 31) then pos (n % 2 ^ 32) else negsuc (2 ^ 32 - 1 - n % 2 ^ 32)

-- The last lines of `process_write`: the write buffer alone is sent.
abbrev pub send_buffer : Bool × Conn → Bool × Conn
send_buffer (false, c) = (false, c)
send_buffer (true, c) =
    (true, record c { iv = from_write_buf c.write_idx ∷ []; bytes_to_send = to_int c.write_idx })

-- A file with bytes: the headers in the buffer, and the mapped file behind them.
abbrev pub send_file : Conn → Bool × Conn
send_file c = (
  true,
  record c {
    iv = from_write_buf c.write_idx ∷ from_file c.file_stat.st_size ∷ [];
    bytes_to_send = to_int (c.write_idx + c.file_stat.st_size);
  },
)

-- The last function of the case FILE_REQUEST; a file with no bytes falls through to `default`.
unfoldable pub write_file : Conn → Bool × Conn
write_file c = after (add_status_line c 200 (codes "OK")) λ c1.
    if c1.file_stat.st_size == 0
    then (after (add_headers c1 (pos (length empty_page)))
        λ c2. after (add_content c2 empty_page) λ c3. (false, c3))
    else after (add_headers c1 (to_int c1.file_stat.st_size)) send_file

unfoldable pub process_write : Conn → HttpCode → Bool × Conn
process_write c internal_error =
    send_buffer (add_page c 500 (codes "Internal Error") error_500_form)
process_write c bad_request = send_buffer (add_page c 404 (codes "Not Found") error_404_form)
process_write c forbidden_request = send_buffer (add_page c 403 (codes "Forbidden") error_403_form)
process_write c file_request = write_file c
process_write c no_request = (false, c)
process_write c get_request = (false, c)
process_write c no_resource = (false, c)
process_write c closed_connection = (false, c)

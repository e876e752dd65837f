-- ===== src/Http/Response/Served.antt =====
-- `process_write` of a file that has bytes.
use mathlib.Core.Path.{subst}
use cpp_server.Prelude.{
  ℕ, ◌+◌, ◌^◌, ◌<◌, ◌≤◌, ◌≡◌, refl, ap, ◌∙◌, Bool, true, false, List, [], ◌∷◌, ◌++◌, pos, arith,
  length, take, length-append, ne→==,
}
use cpp_server.CString.{codes}
use cpp_server.CString.Decimal.{print_int}
use cpp_server.CString.Buffers.{length-print_nat}
use cpp_server.Http.State.{Conn, FileStat, file_request, from_write_buf, from_file}
use cpp_server.Http.Response.{
  crlf, add_response, add_status_line, status_line, content_length_line, linger_line, process_write,
  write_file, add_headers, send_file, after, to_int,
}
use cpp_server.Http.Response.Append.{
  response, HasBuffer, Appended, Appended-trans, Appends, add_response-Appends,
}
use cpp_server.Http.Response.Pages.{headers, add_headers-Appends, same_linger}
use cpp_server.Http.Response.Codes.{to_int_small, same_file}

-- What goes in front of a file of n bytes.
unfoldable pub head_of : Bool → ℕ → List ℕ
head_of keep n = status_line 200 (codes "OK") ++ headers keep (pos n)

-- The head is in the buffer, it and the n bytes of the mapped file are to be sent, and the rest of
-- the connection is left as it was.
pub record SendsFile (c : Conn) (head : List ℕ) (n : ℕ) (r : Bool × Conn) : Type 0 where
  pub success : r.0 ≡ true
  pub whole : response r.1 ≡ head
  pub parts : r.1.iv ≡ from_write_buf (length head) ∷ from_file n ∷ []
  pub counted : r.1.bytes_to_send ≡ pos (length head + n)
  pub rest : r.1 ≡ record c {
    write_buf = r.1.write_buf;
    write_idx = r.1.write_idx;
    iv = r.1.iv;
    bytes_to_send = r.1.bytes_to_send;
  }

small_length : (n : ℕ) → n < 2 ^ 31 → length (content_length_line (pos n)) ≤ 27
unfolding content_length_line print_int
small_length n lt =
    omega (arith, length-append (print_int (pos n)) crlf, length-print_nat 9 n (omega arith))

small_linger : (keep : Bool) → length (linger_line keep) ≤ 23
unfolding linger_line
small_linger true = omega arith
small_linger false = omega arith

small_headers : (keep : Bool) (n : ℕ) → n < 2 ^ 31 → length (headers keep (pos n)) ≤ 52
unfolding headers
small_headers keep n lt =
    let first = content_length_line (pos n) in
    omega (
      arith,
      length-append (first ++ linger_line keep) crlf,
      length-append first (linger_line keep),
      small_length n lt,
      small_linger keep,
    )

small_status : length (status_line 200 (codes "OK")) ≡ 17
unfolding status_line print_int
small_status = refl

-- The status line and the headers are appended, and `send_file` makes the rest.
write_file-after :
    (c : Conn) (n : ℕ)
    → c.file_stat.st_size ≡ n
    → 0 < n
    → write_file c
      ≡ after (add_status_line c 200 (codes "OK")) λ c1. after (add_headers c1 (to_int n)) send_file
unfolding write_file add_status_line
write_file-after c n size lt =
    let same : (add_response c (status_line 200 (codes "OK"))).1.file_stat.st_size ≡ n =
      ap (λ (x : FileStat). x.st_size) (same_file c _) ∙ size in
    rw (same, ne→== n 0 (omega arith)) refl

send_file-SendsFile :
    (c d : Conn) (head : List ℕ) (n : ℕ)
    → Appended c head d
    → c.write_idx ≡ 0
    → c.file_stat.st_size ≡ n
    → length head + n < 2 ^ 31
    → SendsFile c head n (send_file d)
send_file-SendsFile c d head n a empty size lt =
    let idx : d.write_idx ≡ length head = omega (arith, a.index) in
    let same : d.file_stat.st_size ≡ n = ap (λ (x : Conn). x.file_stat.st_size) a.rest ∙ size in
    record {
      success = refl;
      whole = a.added ∙ ap (λ k. take k c.write_buf ++ head) empty;
      parts = rw (idx, same) refl;
      counted = rw (idx, same) (to_int_small (length head + n) lt);
      rest =
          ap
            (λ (x : Conn). record x {
              iv = (send_file d).1.iv;
              bytes_to_send = (send_file d).1.bytes_to_send;
            })
            a.rest;
    }

-- With an empty buffer of the right size, a file that has bytes is answered by the status line 200,
-- its length, the connection header and a blank line from the buffer, and behind them the mapped
-- file, all of it counted; the file and the head are together below 2^31 bytes.
pub process_write-file_request :
    (c : Conn) (n : ℕ)
    → HasBuffer c
    → c.write_idx ≡ 0
    → c.file_stat.st_size ≡ n
    → 0 < n
    → n + 69 < 2 ^ 31
    → SendsFile c (head_of c.linger n) n (process_write c file_request)
unfolding process_write head_of add_status_line
process_write-file_request c n h empty size some_bytes lt =
    let first = status_line 200 (codes "OK") in
    let (_, a) = add_response-Appends c first h (omega (arith, small_status)) in
    let c1 = (add_response c first).1 in
    let second = headers c.linger (pos n) in
    let (_, b) : Appends (add_headers c1 (pos n)) c1 second =
      subst (λ k. Appends (add_headers c1 (pos n)) c1 (headers k (pos n))) (same_linger a)
        (add_headers-Appends c1 (pos n) a.buffer
          (omega (arith, a.index, small_status, small_headers c1.linger n (omega arith)))) in
    let d = (add_headers c1 (pos n)).1 in
    rw (write_file-after c n size some_bytes, to_int_small n (omega arith))
      (send_file-SendsFile c d (first ++ second) n (Appended-trans first second a b) empty size (
        omega (
          arith,
          length-append first second,
          small_status,
          small_headers c.linger n (omega arith),
        )))

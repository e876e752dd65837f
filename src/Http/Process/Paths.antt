-- ===== src/Http/Process/Paths.antt =====
-- A GET, from the bytes of its request to the file that answers it.
use mathlib.Core.Path.{subst}
use cpp_server.Prelude.{
  ℕ, ◌+◌, ◌<◌, ◌≤◌, ◌≡◌, sym, ap, ◌∙◌, Bool, false, some, List, ◌++◌, arith, ℤ, pos, length,
}
use cpp_server.CString.{c_str, find_last_char}
use cpp_server.CString.Buffers.{NoNul}
use cpp_server.Http.State.{Conn, Shared, filename_len}
use cpp_server.Http.Request.{World, do_request}
use cpp_server.Http.Request.Answer.{answered}
use cpp_server.Http.Request.Files.{asking, file_of, do_request-file}
use cpp_server.Http.Process.{process_read}
use cpp_server.Http.Process.Text.{IsLine}
use cpp_server.Http.Process.RequestLine.{IsPath, page, request_text}
use cpp_server.Http.Process.Loop.{AllFields, read_fields, lines_len}
use cpp_server.Http.Process.Received.{arrived, request, Received, process_read-request}

pub same_asking :
    (p : List ℕ) (fs : Bool × ℤ) (c d : Conn) → Received false p fs c d → d ≡ asking d d.read_buf 4
same_asking p fs c d v =
    λ i. record d { url = v.url_at i; cgi = v.cgi_is i; real_file = v.real_is i }

-- A GET that has come as a whole, with any header lines that name no body, is answered by the file
-- that its path asks for, below the root of the documents: the page of the digit when a digit
-- "0", "1", "5", "6" or "7" stands behind the last '/', else the path itself, "/judge.html" for "/".
-- That is the name that `stat` is asked for; the map of users is left as it is, and whether the
-- connection stays is what the header lines say. The root is below 180 bytes and, with the path and
-- a NUL, below 200; no header line has exactly four bytes.
pub process_read-file :
    (w : World) (g : Shared) (c : Conn) (p : List ℕ) (ls : List (List ℕ)) (rest : List ℕ) (m k : ℕ)
    (linger : Bool)
    → IsLine p
    → IsPath p
    → AllFields ls
    → read_fields ls (false, pos 0) ≡ (linger, pos 0)
    → length (request_text false p) + lines_len ls + 4 ≤ m
    → find_last_char b'/' (page p) ≡ some k
    → NoNul c.doc_root
    → length c.doc_root < 180
    → length (page p) + length c.doc_root + 1 < filename_len
    → (d : Conn) × (process_read w g (arrived c (request false p ls rest) m) ≡ answered w g d)
      × (c_str d.real_file 0 ≡ c.doc_root ++ file_of (page p) k)
      × (d.linger ≡ linger)
process_read-file w g c p ls rest m k linger line plain fields says le last clean short fits =
    let (d, reads, v) =
      process_read-request w g false c p ls line plain fields m rest linger says le in
    let (real, asks, named) =
      do_request-file w g d d.read_buf (page p) 4 k v.url_is last
        (subst NoNul (sym v.root_is) clean) (omega (arith, ap length v.root_is))
        (omega (arith, ap length v.root_is)) in
    (
      record (asking d d.read_buf 4) { real_file = real },
      reads ∙ ap (do_request w g) (same_asking p (linger, pos 0) c d v) ∙ asks,
      named ∙ ap (λ r. r ++ file_of (page p) k) v.root_is,
      v.linger_is,
    )

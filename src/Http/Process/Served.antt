-- ===== src/Http/Process/Served.antt =====
-- `process` of a GET of a file that is there: from the bytes of the request to the vectors that
-- `writev` is called with.
use mathlib.Core.Path.{subst}
use cpp_server.Prelude.{
  ℕ, ◌+◌, ◌^◌, ◌<◌, ◌≤◌, ◌≡◌, refl, sym, ap, ◌∙◌, Bool, true, false, some, none, List, [], ◌∷◌,
  negsuc, ◌+ℤ◌, ◌++◌, arith, pos, length,
}
use cpp_server.CString.{c_str, find_last_char}
use cpp_server.CString.Buffers.{NoNul}
use cpp_server.Http.State.{
  Conn, Shared, FileStat, HttpCode, file_request, no_resource, deletes, closes, modifies,
  filename_len, event_out, modfd, ok,
}
use cpp_server.Http.Request.{World, do_request, open_file}
use cpp_server.Http.Request.Files.{asking, file_of, do_request-file}
use cpp_server.Http.Response.{process_write}
use cpp_server.Http.Response.Append.{HasBuffer}
use cpp_server.Http.Response.Served.{head_of, SendsFile, process_write-file_request}
use cpp_server.Http.Process.{process_read, process, answer, is_open, close_conn}
use cpp_server.Http.Process.Closed.{answer-no_resource}
use cpp_server.Http.Process.Text.{IsLine}
use cpp_server.Http.Process.RequestLine.{IsPath, page, request_text}
use cpp_server.Http.Process.Loop.{AllFields, read_fields, lines_len}
use cpp_server.Http.Process.Received.{arrived, request, process_read-request}
use cpp_server.Http.Process.Paths.{same_asking}

-- A file that everyone may read and that has bytes, few enough for the counter.
pub record IsServed (st : FileStat) : Type 0 where
  pub may_read : st.others_may_read ≡ true
  pub no_dir : st.is_dir ≡ false
  pub some_bytes : 0 < st.st_size
  pub few_bytes : st.st_size + 69 < 2 ^ 31

abbrev opened : World → FileStat → Conn → Conn
opened w st c = record c { file_stat = st; file_address = some (w.contents (c_str c.real_file 0)) }

open_file-there :
    (w : World) (c : Conn) (st : FileStat)
    → w.stat (c_str c.real_file 0) ≡ some st
    → IsServed st
    → open_file w c ≡ (file_request, opened w st c)
unfolding open_file
open_file-there w c st there v = rw (there, open_file) (rw v.may_read (rw v.no_dir refl))

answer-file :
    (c : Conn) (g : Shared) (n : ℕ)
    → SendsFile c (head_of c.linger n) n (process_write c file_request)
    → (d : Conn) × (answer (file_request, c, g) ≡ (d, modfd c.sockfd event_out c.trig_mode g))
      × SendsFile c (head_of c.linger n) n (true, d)
unfolding answer
answer-file c g n v =
    let d = (process_write c file_request).1 in
    let fd : d.sockfd ≡ c.sockfd = ap (λ (x : Conn). x.sockfd) v.rest in
    let mode : d.trig_mode ≡ c.trig_mode = ap (λ (x : Conn). x.trig_mode) v.rest in
    (
      d,
      rw v.success (ap (λ z. (d, z)) (λ i. modfd (fd i) event_out (mode i) g)),
      record {
        success = refl;
        whole = v.whole;
        parts = v.parts;
        counted = v.counted;
        rest = v.rest;
      },
    )

open_file-missing :
    (w : World) (c : Conn) → w.stat (c_str c.real_file 0) ≡ none → open_file w c ≡ (no_resource, c)
unfolding open_file
open_file-missing w c e = rw (e, open_file) refl

answer-missing :
    (c : Conn) (g : Shared)
    → is_open c.sockfd ≡ true
    → (d : Conn) × (h : Shared) × (answer (no_resource, c, g) ≡ (d, h))
      × (d.sockfd ≡ negsuc 0)
      × (d.write_idx ≡ c.write_idx)
      × (h.user_count ≡ g.user_count +ℤ negsuc 0)
      × (h.effects
          ≡ g.effects
            ++ (deletes c.sockfd
                ∷ closes c.sockfd
                ∷ modifies (negsuc 0) event_out c.trig_mode
                ∷ []))
unfolding answer close_conn process_write
answer-missing c g open_fd =
    let (gone, count, did) = answer-no_resource c g open_fd in
    let r = answer (no_resource, c, g) in
    let same : r.0.write_idx ≡ c.write_idx = rw (open_fd, close_conn) refl in
    (r.0, r.1, refl, gone, same, count, did)

process-ok :
    (w : World) (g : Shared) (c : Conn) (r : HttpCode × Conn × Shared)
    → process_read w g c ≡ ok r
    → process w g c ≡ ok (answer r)
unfolding process
process-ok w g c r e = rw e refl

module _ (w : World) (g : Shared) (c : Conn) (p : List ℕ) (ls : List (List ℕ)) (rest : List ℕ)
    (m k : ℕ) (linger : Bool) (st : FileStat) (line : IsLine p) (plain : IsPath p)
    (fields : AllFields ls) (says : read_fields ls (false, pos 0) ≡ (linger, pos 0))
    (size : length (request_text false p) + lines_len ls + 4 ≤ m)
    (last : find_last_char b'/' (page p) ≡ some k) (clean : NoNul c.doc_root)
    (short : length c.doc_root < 180)
    (fits : length (page p) + length c.doc_root + 1 < filename_len) where
  -- A GET that has come as a whole, with any header lines that name no body, for a file that `stat`
  -- finds under the name that the path stands for below the root, that everyone may read and that
  -- has bytes: `process` arms the descriptor for writing and prepares the status line 200, the
  -- length, the connection header that the request asks for and a blank line in the write buffer,
  -- with the file, mapped from that name, behind them; nothing else that is shared changes. This is
  -- for a file below 2^31 - 69 bytes, so that `(int)` of its size and the count of the bytes to send
  -- do not wrap; for a root below 180 bytes that, with the path and a NUL, is below 200, so that the
  -- name is not cut off; and for header lines that are not of exactly four bytes.
  pub process-served :
      w.stat (c.doc_root ++ file_of (page p) k) ≡ some st
      → IsServed st
      → (d e : Conn) × (process w g (arrived c (request false p ls rest) m)
          ≡ ok (e, modfd c.sockfd event_out c.trig_mode g))
        × SendsFile d (head_of linger st.st_size) st.st_size (true, e)
        × (d.file_address ≡ some (w.contents (c.doc_root ++ file_of (page p) k)))
  process-served there served =
      let (d, reads, v) =
        process_read-request w g false c p ls line plain fields m rest linger says size in
      let (real, asks, named) =
        do_request-file w g d d.read_buf (page p) 4 k v.url_is last
          (subst NoNul (sym v.root_is) clean) (omega (arith, ap length v.root_is))
          (omega (arith, ap length v.root_is)) in
      let a = record (asking d d.read_buf 4) { real_file = real } in
      let name : c_str real 0 ≡ c.doc_root ++ file_of (page p) k =
        named ∙ ap (λ r. r ++ file_of (page p) k) v.root_is in
      let opens = open_file-there w a st (ap w.stat name ∙ there) served in
      let b = opened w st a in
      let buffer : HasBuffer b = record {
        sized = v.write_sized;
        index_in = omega (arith, v.write_empty);
      } in
      let (e, answers, sends) = answer-file b g st.st_size (
        process_write-file_request b st.st_size buffer v.write_empty refl served.some_bytes
          served.few_bytes) in
      (
        b,
        e,
        process-ok w g _ (file_request, b, g)
              (reads
                ∙ ap (do_request w g) (same_asking p (linger, pos 0) c d v)
                ∙ asks
                ∙ ap (λ o. ok (o.0, o.1, g)) opens)
            ∙ ap ok answers
            ∙ (λ i. ok (e, modfd (v.same_fd i) event_out (v.same_mode i) g)),
        subst (λ l. SendsFile b (head_of l st.st_size) st.st_size (true, e)) v.linger_is sends,
        ap (λ x. some (w.contents x)) name,
      )

  -- A GET that has come as a whole, with any header lines that name no body, none of exactly four
  -- bytes, a root below 180 bytes that with the path and a NUL is below 200, on an open connection,
  -- for a path whose file `stat` does not find below the root: no answer is prepared; the descriptor is taken from epoll and closed, the user is
  -- counted down, and then descriptor -1 is armed for writing.
  pub process-missing :
      w.stat (c.doc_root ++ file_of (page p) k) ≡ none
      → is_open c.sockfd ≡ true
      → (e : Conn) × (h : Shared) × (process w g (arrived c (request false p ls rest) m)
          ≡ ok (e, h))
        × (e.sockfd ≡ negsuc 0)
        × (e.write_idx ≡ 0)
        × (h.user_count ≡ g.user_count +ℤ negsuc 0)
        × (h.effects
            ≡ g.effects
              ++ (deletes c.sockfd
                  ∷ closes c.sockfd
                  ∷ modifies (negsuc 0) event_out c.trig_mode
                  ∷ []))
  process-missing absent open_fd =
      let (d, reads, v) =
        process_read-request w g false c p ls line plain fields m rest linger says size in
      let (real, asks, named) =
        do_request-file w g d d.read_buf (page p) 4 k v.url_is last
          (subst NoNul (sym v.root_is) clean) (omega (arith, ap length v.root_is))
          (omega (arith, ap length v.root_is)) in
      let a = record (asking d d.read_buf 4) { real_file = real } in
      let name : c_str real 0 ≡ c.doc_root ++ file_of (page p) k =
        named ∙ ap (λ r. r ++ file_of (page p) k) v.root_is in
      let none_there = open_file-missing w a (ap w.stat name ∙ absent) in
      let (e, h, answers, gone, empty, count, did) =
        answer-missing a g (ap is_open v.same_fd ∙ open_fd) in
      (
        e,
        h,
        process-ok w g _ (no_resource, a, g)
              (reads
                ∙ ap (do_request w g) (same_asking p (linger, pos 0) c d v)
                ∙ asks
                ∙ ap (λ o. ok (o.0, o.1, g)) none_there)
            ∙ ap ok answers,
        gone,
        empty ∙ v.write_empty,
        count,
        did ∙ (λ i.
            g.effects
            ++ (deletes (v.same_fd i)
                ∷ closes (v.same_fd i)
                ∷ modifies (negsuc 0) event_out (v.same_mode i)
                ∷ [])),
      )

-- ===== src/Http/Process.antt =====
-- The calls from outside: `init`, `close_conn`, `read_once`, `write`, `process` and, behind it,
-- `process_read`. What `recv` returns is an argument, one entry for each call.
pub mod Total
pub mod Closed
pub mod Bounds
pub mod Text
pub mod RequestLine
pub mod Fields
pub mod Loop
pub mod Body
pub mod Whole
pub mod Received
pub mod Logins
pub mod Paths
pub mod Served
use cpp_server.Prelude.{
  ℕ, zero, suc, ◌+◌, ◌-◌, Bool, true, false, ◌&&◌, not, Option, none, some, List, [], ◌∷◌, ◌++◌, ℤ,
  pos, negsuc, ◌+ℤ◌, leb, leb_ℤ, ltb, ◌==◌, if◌then◌else◌, length, take, drop, replicate, pos_part,
}
use cpp_server.Http.State.{
  Conn, Shared, Method, get, CheckState, request_line, header, content, HttpCode, no_request,
  get_request, bad_request, LineStatus, line_ok, line_bad, line_open, filename_len,
  read_buffer_size, write_buffer_size, event_in, event_out, addfd, removefd, modfd, Run, ok,
  undefined, out_of_fuel, ◌>>=◌, ◌>>◌, require,
}
use cpp_server.Http.Line.{parse_line, get_line, read_end}
use cpp_server.Http.Parse.{parse_request_line, parse_headers, parse_content}
use cpp_server.Http.Request.{World, do_request}
use cpp_server.Http.Response.{process_write}

-- The private `init`: what it leaves alone keeps the value of the connection before.
unfoldable pub reset : Conn → Conn
reset c = record c {
  bytes_to_send = pos 0;
  bytes_have_send = 0;
  check_state = request_line;
  linger = false;
  method = get;
  url = none;
  version = none;
  content_length = pos 0;
  host = none;
  start_line = 0;
  checked_idx = 0;
  read_idx = pos 0;
  write_idx = 0;
  cgi = false;
  state = 0;
  timer_flag = 0;
  improv = 0;
  mysql = none;
  read_buf = replicate read_buffer_size 0;
  write_buf = replicate write_buffer_size 0;
  real_file = replicate filename_len 0;
}

-- What `init` is called with.
pub record Setup : Type 0 where
  pub root : List ℕ
  pub trig_mode : ℕ
  pub user : List ℕ
  pub passwd : List ℕ
  pub sqlname : List ℕ

-- The three names are copied into arrays of 100, which nothing reads.
unfoldable pub init : ℤ → Setup → Shared → Conn → Run (Conn × Shared)
init sockfd s g c = do
  let g1 = addfd sockfd true c.trig_mode g
  require (ltb (length s.user) 100 && (ltb (length s.passwd) 100 && ltb (length s.sqlname) 100))
  ok (
    reset (record c { sockfd = sockfd; doc_root = s.root; trig_mode = s.trig_mode }),
    record g1 { user_count = g1.user_count +ℤ pos 1 },
  )

abbrev pub is_open : ℤ → Bool
is_open (pos n) = true
is_open (negsuc zero) = false
is_open (negsuc (suc k)) = true

unfoldable pub close_conn : Bool → Conn → Shared → Conn × Shared
close_conn real_close c g =
    if real_close && is_open c.sockfd
    then (
      record c { sockfd = negsuc 0 },
      let g1 = removefd c.sockfd g in record g1 { user_count = g1.user_count +ℤ negsuc 0 },
    )
    else (c, g)

-- What one call of `recv` finds: some bytes, the end of the stream, no data yet, or an error.
pub data Recv : Type 0 where
  bytes : List ℕ → Recv
  closed : Recv
  would_block : Recv
  failed : Recv

abbrev pub read_room : Conn → ℕ
read_room c = read_buffer_size - pos_part c.read_idx

-- `recv` into the buffer behind what has been read, where `m_read_idx` is not negative.
unfoldable pub store_bytes : Conn → List ℕ → Conn
store_bytes c bs =
    let i = pos_part c.read_idx in
    let new = take (read_room c) bs in
    record c {
      read_buf = take i c.read_buf ++ (new ++ drop (i + length new) c.read_buf);
      read_idx = c.read_idx +ℤ pos (length new);
    }

-- The ET loop: until there is no data; a full buffer makes `recv` return 0.
unfoldable pub read_all : List Recv → Conn → Bool × Conn
read_all [] c = (true, c)
read_all (would_block ∷ rs) c = (true, c)
read_all (failed ∷ rs) c = (false, c)
read_all (closed ∷ rs) c = (false, c)
read_all (bytes bs ∷ rs) c = elim (length (take (read_room c) bs) == 0) [
  | true ↦ (false, c)
  | false ↦ read_all rs (store_bytes c bs)
]

-- The LT branch: one call, and its result is added to `m_read_idx` whatever it is.
unfoldable pub read_some : List Recv → Conn → Bool × Conn
read_some [] c = (false, record c { read_idx = c.read_idx +ℤ negsuc 0 })
read_some (would_block ∷ rs) c = (false, record c { read_idx = c.read_idx +ℤ negsuc 0 })
read_some (failed ∷ rs) c = (false, record c { read_idx = c.read_idx +ℤ negsuc 0 })
read_some (closed ∷ rs) c = (false, c)
read_some (bytes bs ∷ rs) c = (not (length (take (read_room c) bs) == 0), store_bytes c bs)

-- Where `m_read_idx` is negative, `recv` is given a place in front of the buffer.
unfoldable pub read_once : List Recv → Conn → Run (Bool × Conn)
read_once rs c =
    if leb_ℤ (pos read_buffer_size) c.read_idx
    then ok (false, c)
    else if leb_ℤ (pos 0) c.read_idx
    then ok (if c.trig_mode == 0 then read_some rs c else read_all rs c)
    else undefined

-- `write()` has an empty body and no `return`.
unfoldable pub write : Conn → Run (Bool × Conn)
write c = undefined

-- `munmap` of the file that was sent.
unfoldable pub unmap : Conn → Conn
unmap c = record c { file_address = none }

abbrev pub Reading : Type 0
Reading = Run (HttpCode × Conn × Shared)

-- The line that the loop works on, and where the next one begins.
abbrev begin_line : Conn → Conn
begin_line c = record c { start_line = c.checked_idx }

abbrev pub next_line : HttpCode × Conn → (Conn → Reading) → Shared → Reading
next_line (bad_request, c) more g = ok (bad_request, c, g)
next_line (_, c) more g = more c

abbrev pub after_header : World → Shared → HttpCode × Conn → (Conn → Reading) → Reading
after_header w g (bad_request, c) more = ok (bad_request, c, g)
after_header w g (get_request, c) more = do_request w g c
after_header w g (_, c) more = more c

abbrev pub after_content : World → Shared → HttpCode × Conn → (Conn → Reading) → Reading
after_content w g (get_request, c) more = do_request w g c
after_content w g (_, c) more = more c

-- The body of the loop; `more s` goes on with line status `s`.
unfoldable pub handle_in :
    CheckState → World → Shared → (LineStatus → Conn → Reading) → Conn → Reading
handle_in request_line w g more c = do
  r ← parse_request_line (begin_line c) (get_line c)
  next_line r (more line_ok) g
handle_in header w g more c =
    after_header w g (parse_headers (begin_line c) (get_line c)) (more line_ok)
handle_in content w g more c = do
  r ← parse_content (begin_line c) (get_line c)
  after_content w g r (more line_open)

unfoldable pub handle_line : World → Shared → (LineStatus → Conn → Reading) → Conn → Reading
handle_line w g more c = handle_in c.check_state w g more c

abbrev pub is_content : CheckState → LineStatus → Bool
is_content content line_ok = true
is_content _ _ = false

abbrev pub on_line : LineStatus × Conn → (Conn → Reading) → Shared → Reading
on_line (line_ok, c) body g = body c
on_line (line_bad, c) body g = ok (no_request, c, g)
on_line (line_open, c) body g = ok (no_request, c, g)

-- The `while` loop of `process_read`.
unfoldable pub read_lines : ℕ → World → Shared → LineStatus → Conn → Reading
read_lines zero w g s c = out_of_fuel
read_lines (suc f) w g s c = elim (is_content c.check_state s) [
  | true ↦ handle_line w g (read_lines f w g) c
  | false ↦ on_line (parse_line c) (handle_line w g (read_lines f w g)) g
]

-- Each round but the last two ends a line, which has a byte at least.
unfoldable pub process_read : World → Shared → Conn → Reading
process_read w g c = read_lines (read_end c - c.checked_idx + 2) w g line_ok c

abbrev pub is_no_request : HttpCode → Bool
is_no_request no_request = true
is_no_request _ = false

-- `process` once the request is read: the answer is prepared, or the connection is closed, and in
-- both cases the descriptor of the connection is armed for writing.
unfoldable pub answer : HttpCode × Conn × Shared → Conn × Shared
answer (code, c, g) = elim (is_no_request code) [
  | true ↦ (c, modfd c.sockfd event_in c.trig_mode g)
  | false ↦
      let (done, c1) = process_write c code in
      let (c2, g2) = if done then (c1, g) else close_conn true c1 g in
      (c2, modfd c2.sockfd event_out c2.trig_mode g2)
]

unfoldable pub process : World → Shared → Conn → Run (Conn × Shared)
process w g c = do r ← process_read w g c; ok (answer r)

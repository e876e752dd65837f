-- ===== src/Http/Tests.antt =====
-- A connection at concrete inputs.
use cpp_server.Prelude.{
  ℕ, zero, suc, ◌≤◌, ◌<◌, ◌≡◌, refl, ◌≢◌, true, false, none, some, List, [], ◌∷◌, ◌++◌, pos, arith,
  length, replicate, none, some,
}
use cpp_server.CString.{bytes_eq, codes}
use cpp_server.Http.State.{Conn, Shared, get, request_line, bad_request, out_of_fuel, ok}
use cpp_server.Http.Line.{parse_line, byte_at, scan}
use cpp_server.Http.Line.Scan.{parse_line-resume}
use cpp_server.Http.Request.{World, Users, register, login, find_user, load_users}
use cpp_server.Http.Request.Login.{register-login, load_users-login}
use cpp_server.Http.Process.Bounds.{HasRead, read_all-HasRead}
use cpp_server.Http.Process.{process_read, bytes, would_block, read_all}
use cpp_server.Http.Process.Total.{process_read-ends}
use cpp_server.Http.Response.{process_write, error_404_form}
use cpp_server.Http.Response.Append.{HasBuffer}
use cpp_server.Http.Response.Pages.{page}
use cpp_server.Http.Response.Codes.{error_page, Sends, process_write-error_page}

abbrev crlf : List ℕ
crlf = 13 ∷ 10 ∷ []

-- A connection whose read buffer begins with `input`.
abbrev pub conn : List ℕ → Conn
conn input = record {
  sockfd = pos 7;
  read_buf = input ++ replicate 20 0;
  read_idx = pos (length input);
  checked_idx = 0;
  start_line = 0;
  write_buf = replicate 1024 0;
  write_idx = 0;
  check_state = request_line;
  method = get;
  real_file = replicate 200 0;
  url = none;
  version = none;
  host = none;
  content_length = pos 0;
  linger = false;
  file_address = none;
  file_stat = record { st_size = 0; others_may_read = false; is_dir = false };
  iv = [];
  cgi = false;
  string = none;
  bytes_to_send = pos 0;
  bytes_have_send = 0;
  doc_root = codes "/srv";
  trig_mode = 0;
  mysql = none;
  state = 0;
  timer_flag = 0;
  improv = 0;
}

abbrev pub shared : Shared
shared = record { user_count = pos 1; users = []; effects = [] }

abbrev pub world : World
world = record {
  stat = λ p. some (record { st_size = 12; others_may_read = true; is_dir = false });
  contents = λ p. codes "<html></html>";
  query_fails = λ db sql. false;
}

abbrev request : List ℕ
request = codes "GET /a HTTP/1.1" ++ (crlf ++ crlf)

-- The bytes of a first `recv` are those of the whole request.
same_front :
    (j : ℕ) → j < 3 → byte_at (conn request).read_buf j ≡ byte_at (conn (codes "GET")).read_buf j
unfolding byte_at
same_front zero lt = refl
same_front (suc zero) lt = refl
same_front (suc (suc zero)) lt = refl
same_front (suc (suc (suc j))) lt = absurd (omega arith)

parse_line-resume_example :
    parse_line (record (conn request) { checked_idx = 3 }) ≡ parse_line (conn request)
unfolding byte_at parse_line scan
parse_line-resume_example =
    parse_line-resume (conn (codes "GET")) (record (conn (codes "GET")) { checked_idx = 3 })
      (conn request).read_buf 19 (omega arith) refl same_front (omega arith)

process_read-ends_example : process_read world shared (conn request) ≢ out_of_fuel
process_read-ends_example = process_read-ends world shared (conn request) (omega arith)

conn-HasBuffer : HasBuffer (conn request)
conn-HasBuffer = record { sized = refl; index_in = omega arith }

process_write-error_page_example :
    Sends
      (page 404 (codes "Not Found") false error_404_form)
      (process_write (conn request) bad_request)
unfolding error_page
process_write-error_page_example =
    process_write-error_page (conn request) bad_request 404 (codes "Not Found") error_404_form
      conn-HasBuffer refl refl

register-login_example :
    (page : List ℕ) × (us : Users) × (register world (some 1) [] (codes "ann") (codes "x")
      ≡ ok (page, us))
    × (login us (codes "ann") (codes "x") ≡ codes "/welcome.html")
    × ((other : List ℕ) → other ≢ codes "ann" → find_user other us ≡ find_user other [])
unfolding find_user
register-login_example = register-login world 1 [] (codes "ann") (codes "x") refl (omega arith)

-- A connection that has read a header with a host.
abbrev host_conn : Conn
host_conn = conn (codes "Host: a")

-- A connection that has read nothing.
abbrev fresh_conn : Conn
fresh_conn = record (conn []) { read_buf = replicate 2048 0 }

fresh_conn-HasRead : HasRead fresh_conn 0
fresh_conn-HasRead = record { sized = refl; at = refl; inside = omega arith }

read_all-HasRead_example :
    (m : ℕ) × (0 ≤ m)
    × HasRead
        (read_all (bytes (codes "GET") ∷ bytes (codes " /") ∷ would_block ∷ []) fresh_conn).1
        m
read_all-HasRead_example =
    read_all-HasRead (bytes (codes "GET") ∷ bytes (codes " /") ∷ would_block ∷ []) fresh_conn 0
      fresh_conn-HasRead

load_users-login_example :
    login
      (load_users
        ((codes "ann", codes "old") ∷ (codes "ann", codes "new") ∷ (codes "bob", codes "b") ∷ [])
        [])
      (codes "ann")
      (codes "new")
    ≡ codes "/welcome.html"
unfolding find_user bytes_eq
load_users-login_example =
    load_users-login ((codes "ann", codes "old") ∷ []) ((codes "bob", codes "b") ∷ []) []
      (codes "ann") (codes "new") refl

-- ===== src/Webserver/Tests.antt =====
-- A server with one connection, and a second one that arrives.
use cpp_server.Prelude.{
  ℕ, zero, suc, ◌≡◌, refl, Bool, false, Option, none, some, List, [], ◌∷◌, pos, arith,
}
use cpp_server.CString.{codes}
use cpp_server.Http.State.{Conn, Shared, get, request_line, ok}
use cpp_server.Timers.{Timer, TimerList}
use cpp_server.Timers.Chain.{Entry, timer_of}
use cpp_server.ThreadPool.{ThreadPool}
use cpp_server.Webserver.{Server, dealclientdata}
use cpp_server.Webserver.Valid.{IsValid}
use cpp_server.Webserver.Accept.{InBound, dealclientdata-IsValid}

abbrev pub conn : Conn
conn = record {
  sockfd = pos 7;
  read_buf = [];
  read_idx = pos 0;
  checked_idx = 0;
  start_line = 0;
  write_buf = [];
  write_idx = 0;
  check_state = request_line;
  method = get;
  real_file = [];
  url = none;
  version = none;
  host = none;
  content_length = pos 0;
  linger = false;
  file_address = none;
  file_stat = record { st_size = 0; others_may_read = false; is_dir = false };
  iv = [];
  cgi = false;
  string = none;
  bytes_to_send = pos 0;
  bytes_have_send = 0;
  doc_root = codes "/srv";
  trig_mode = 0;
  mysql = none;
  state = 0;
  timer_flag = 0;
  improv = 0;
}

abbrev shared : Shared
shared = record { user_count = pos 1; users = []; effects = [] }

abbrev pub entry : Entry
entry = record { id = 0; expire = 15; user_data = 8 }

abbrev heap : ℕ → Option Timer
heap zero = some (timer_of entry none none)
heap (suc n) = none

abbrev timers : TimerList
timers = record { heap = heap; head = some 0; tail = some 0 }

abbrev pool : ThreadPool
pool = record {
  thread_number = pos 8;
  max_requests = pos 10000;
  actor_model = pos 0;
  conn_pool = some 0;
  workqueue = [];
  queuestat = 0;
}

abbrev pub server : Server
server = record {
  trig_mode = 2;
  listen_trig = 1;
  conn_trig = 0;
  actor_model = 0;
  setup = record {
    root = codes "/srv";
    trig_mode = 0;
    user = codes "u";
    passwd = codes "p";
    sqlname = codes "d";
  };
  users = λ i. conn;
  clients = λ i. record { sockfd = pos 8; timer = some 0 };
  timers = timers;
  fresh = 1;
  pool = pool;
  shared = shared;
}

pub server-IsValid : IsValid server (entry ∷ [])
server-IsValid = record {
  listed = record { from_head = refl; to_tail = refl; chain = (refl, tt); distinct = (tt, tt) };
  sorted = (tt, tt);
  given_out = (omega arith, tt);
  names = (omega arith, omega arith, omega arith);
}

dealclientdata-IsValid_example :
    (done : Bool) × (s : Server) × (es : List Entry) × (dealclientdata 3 100 server (9 ∷ 10 ∷ [])
      ≡ ok (done, s))
    × IsValid s es
    × InBound s
dealclientdata-IsValid_example =
    dealclientdata-IsValid 3 100 server (9 ∷ 10 ∷ []) (entry ∷ []) server-IsValid
      (1, refl, omega arith) (omega arith, (omega arith, tt)) (omega arith)

-- A second connection, whose timer is behind the first.
abbrev second : Entry
second = record { id = 1; expire = 20; user_data = 9 }

abbrev busy_heap : ℕ → Option Timer
busy_heap zero = some (timer_of entry none (some 1))
busy_heap (suc zero) = some (timer_of second (some 0) none)
busy_heap (suc (suc n)) = none

abbrev busy : Server
busy = record server {
  timers = record { heap = busy_heap; head = some 0; tail = some 1 };
  fresh = 2;
}

busy-IsValid : IsValid busy (entry ∷ second ∷ [])
busy-IsValid = record {
  listed = record {
    from_head = refl;
    to_tail = refl;
    chain = (refl, (refl, tt));
    distinct = ((omega arith, tt), (tt, tt));
  };
  sorted = ((omega arith, tt), (tt, tt));
  given_out = (omega arith, (omega arith, tt));
  names = (omega arith, omega arith, omega arith);
}

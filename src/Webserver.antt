-- ===== src/Webserver.antt =====
-- ocean_http/webserver.cpp: the event loop of the server, the timers of its connections, and
-- cb_func of ocean_http/timer/lst_timer.cpp, which closes a connection that has expired.
-- Descriptors, the current time, what `accept` and `recv` return and what the workers make of a
-- connection are arguments. A new timer gets the next address of the heap.
pub mod Valid
pub mod Accept
pub mod Loop
pub mod Signals
pub mod Close
pub mod Keeps
pub mod Renew
pub mod Owned
pub mod Waiting
pub mod Handlers
pub mod Events
pub mod Rounds
pub mod Reuse
pub mod Listen
pub mod Wired
mod Tests
mod LoopTests
use cpp_server.Prelude.{
  ℕ, zero, suc, ◌+◌, ◌*◌, Bool, true, false, Option, none, some, List, [], ◌∷◌, ◌++◌, ℤ, pos,
  negsuc, ltb, leb_ℤ, ◌+ℤ◌, ◌==◌, if◌then◌else◌, ◌||◌, ◌&&◌,
}
use cpp_server.CString.{codes}
use cpp_server.Http.State.{
  Conn, Shared, emit, closes, sends, removefd, Run, ok, undefined, ◌>>=◌, ◌>>◌, or_undefined,
  require,
}
use cpp_server.Http.Process.{Setup, init, Recv, read_once, write}
use cpp_server.Timers.{Timer, TimerList, store, add_timer, adjust_timer, del_timer, tick}
use cpp_server.ThreadPool.{ThreadPool, append, append_p}

abbrev pub max_fd : ℕ
max_fd = 65536

abbrev pub timeslot : ℕ
timeslot = 5

-- client_data, without the address.
pub record Client : Type 0 where
  pub sockfd : ℤ
  pub timer : Option ℕ

pub record Server : Type 0 where
  pub trig_mode : ℕ
  pub listen_trig : ℕ
  pub conn_trig : ℕ
  pub actor_model : ℕ
  pub setup : Setup
  pub users : ℕ → Conn
  pub clients : ℕ → Client
  pub timers : TimerList
  pub fresh : ℕ
  pub pool : ThreadPool
  pub shared : Shared

-- Level-triggered is 0, edge-triggered 1; another mode leaves both as they are.
unfoldable pub set_trig_mode : Server → Server
set_trig_mode s =
    if s.trig_mode == 0
    then record s { listen_trig = 0; conn_trig = 0 }
    else if s.trig_mode == 1
    then record s { listen_trig = 0; conn_trig = 1 }
    else if s.trig_mode == 2
    then record s { listen_trig = 1; conn_trig = 0 }
    else if s.trig_mode == 3
    then record s { listen_trig = 1; conn_trig = 1 }
    else s

abbrev pub updated {ℓ} : {A : Type ℓ} → (ℕ → A) → ℕ → A → ℕ → A
updated t i x = λ j. if j == i then x else t j

-- `timer(connfd, client_address)`; `users` and `users_timer` are arrays of MAX_FD.
unfoldable pub set_timer : ℕ → ℕ → Server → ℕ → Run Server
set_timer f now s connfd = do
  require (ltb connfd max_fd)
  (c, g) ← init (pos connfd) (record s.setup { trig_mode = s.conn_trig }) s.shared (s.users connfd)
  l ←
      add_timer f
        (record s.timers {
          heap = store s.timers.heap s.fresh (record {
            expire = now + 3 * timeslot;
            user_data = connfd;
            prev = none;
            next = none;
          });
        })
        (some s.fresh)
  ok (record s {
    users = updated s.users connfd c;
    clients = updated s.clients connfd (record { sockfd = pos connfd; timer = some s.fresh });
    timers = l;
    fresh = s.fresh + 1;
    shared = g;
  })

unfoldable pub set_expire : ℕ → TimerList → ℕ → Run TimerList
set_expire now l i = do
  t ← or_undefined (l.heap i)
  ok (record l { heap = store l.heap i (record t { expire = now + 3 * timeslot }) })

-- The server's `adjust_timer`.
unfoldable pub renew_timer : ℕ → ℕ → Server → ℕ → Run Server
renew_timer f now s i = do
  l ← set_expire now s.timers i
  l' ← adjust_timer f l (some i)
  ok (record s { timers = l' })

-- `close` and the count are those of `removefd` and of `close_conn`.
unfoldable pub cb_func : Client → Shared → Shared
cb_func c g = let g1 = removefd c.sockfd g in record g1 { user_count = g1.user_count +ℤ negsuc 0 }

-- `timer->cb_func` comes before the test of `timer`.
unfoldable pub deal_timer : Server → Option ℕ → ℕ → Run Server
deal_timer s none sockfd = undefined
deal_timer s (some i) sockfd = do
  t ← or_undefined (s.timers.heap i)
  l ← del_timer s.timers (some i)
  ok (record s { timers = l; shared = cb_func (s.clients sockfd) s.shared })

unfoldable pub show_error : ℕ → List ℕ → Shared → Shared
show_error connfd info = emit (sends (pos connfd) info ∷ closes (pos connfd) ∷ [])

abbrev pub is_busy : Shared → Bool
is_busy g = leb_ℤ (pos max_fd) g.user_count

abbrev pub turn_away : Server → ℕ → Server
turn_away s connfd = record s { shared = show_error connfd (codes "Internal server busy") s.shared }

-- One `accept`; `none` is a negative result.
unfoldable pub accept_one : ℕ → ℕ → Server → Option ℕ → Run (Bool × Server)
accept_one f now s none = ok (false, s)
accept_one f now s (some connfd) =
    if is_busy s.shared
    then ok (false, turn_away s connfd)
    else (do s' ← set_timer f now s connfd; ok (true, s'))

-- The ET loop, until an `accept` fails.
unfoldable pub accept_all : ℕ → ℕ → Server → List ℕ → Run Server
accept_all f now s [] = ok s
accept_all f now s (connfd ∷ fds) = elim (is_busy s.shared) [
  | true ↦ ok (turn_away s connfd)
  | false ↦ set_timer f now s connfd >>= λ s'. accept_all f now s' fds
]

abbrev pub next_fd : List ℕ → Option ℕ
next_fd [] = none
next_fd (fd ∷ fds) = some fd

-- `fds` are the connections that wait.
unfoldable pub dealclientdata : ℕ → ℕ → Server → List ℕ → Run (Bool × Server)
dealclientdata f now s fds =
    if s.listen_trig == 0
    then accept_one f now s (next_fd fds)
    else (do s' ← accept_all f now s fds; ok (false, s'))

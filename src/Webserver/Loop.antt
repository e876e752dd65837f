-- ===== src/Webserver/Loop.antt =====
-- The signals, the handlers of readable and writable connections, and the event loop.
use cpp_server.Prelude.{
  ℕ, Bool, true, false, Option, none, some, List, [], ◌∷◌, ◌==◌, if◌then◌else◌, ◌&&◌,
}
use cpp_server.Http.State.{Conn, Shared, Run, ok, ◌>>=◌}
use cpp_server.Http.Process.{Recv, read_once, write}
use cpp_server.Timers.{tick}
use cpp_server.ThreadPool.{ThreadPool, append, append_p}
use cpp_server.Webserver.{Server, updated, renew_timer, deal_timer, cb_func, dealclientdata}

-- `timeout` and `stop_server`.
pub record Flags : Type 0 where
  pub timeout : Bool
  pub stop_server : Bool

unfoldable pub take_signals : List ℕ → Flags → Flags
take_signals [] fl = fl
take_signals (sig ∷ sigs) fl = take_signals sigs (
    if sig == 14
    then record fl { timeout = true }
    else if sig == 15
    then record fl { stop_server = true }
    else fl)

-- SIGALRM is 14, SIGTERM 15. `recv` of no bytes is the end of the stream.
unfoldable pub dealwithsignal : Recv → Flags → Bool × Flags
dealwithsignal (Recv.bytes []) fl = (false, fl)
dealwithsignal (Recv.bytes (b ∷ bs)) fl = (true, take_signals (b ∷ bs) fl)
dealwithsignal Recv.closed fl = (false, fl)
dealwithsignal Recv.would_block fl = (false, fl)
dealwithsignal Recv.failed fl = (false, fl)

abbrev pub renew_if : ℕ → ℕ → Server → Option ℕ → Run Server
renew_if f now s none = ok s
renew_if f now s (some i) = renew_timer f now s i

-- The reactor's loop that waits for the worker: the states of the connection that it sees in turn.
-- `none` is a wait that has not ended.
unfoldable pub wait_for_worker : List Conn → Option Conn
wait_for_worker [] = none
wait_for_worker (c ∷ cs) = let later = wait_for_worker cs in if c.improv == 1 then some c else later

abbrev pub after_worker : Server → Option ℕ → ℕ → Option Conn → Run (Option Server)
after_worker s timer sockfd none = ok none
after_worker s timer sockfd (some c) =
    if c.timer_flag == 1
    then (do
      s' ← deal_timer s timer sockfd
      ok (
          some (record s' {
            users = updated s'.users sockfd (record c { improv = 0; timer_flag = 0 });
          })))
    else ok (some (record s { users = updated s.users sockfd (record c { improv = 0 }) }))

-- The reactor's branch of `dealwithread` (state 0) and of `dealwithwrite` (state 1).
unfoldable pub hand_over : ℕ → ℕ → Server → ℕ → ℕ → List Conn → Run (Option Server)
hand_over f now s sockfd state seen = do
  let timer = (s.clients sockfd).timer
  s1 ← renew_if f now s timer
  let (done, pool, users) = append s1.pool s1.users sockfd state
  after_worker (record s1 { pool = pool; users = users }) timer sockfd (wait_for_worker seen)

abbrev pub after_read : ℕ → ℕ → Server → ℕ → Bool × Conn → Run Server
after_read f now s sockfd (true, c) =
    renew_if f now
      (record s { users = updated s.users sockfd c; pool = (append_p s.pool sockfd).1 })
      (s.clients sockfd).timer
after_read f now s sockfd (false, c) =
    deal_timer (record s { users = updated s.users sockfd c }) (s.clients sockfd).timer sockfd

unfoldable pub dealwithread : ℕ → ℕ → Server → ℕ → List Recv → List Conn → Run (Option Server)
dealwithread f now s sockfd recvs seen =
    if s.actor_model == 1
    then hand_over f now s sockfd 0 seen
    else (do r ← read_once recvs (s.users sockfd); s' ← after_read f now s sockfd r; ok (some s'))

abbrev pub after_write : ℕ → ℕ → Server → ℕ → Bool × Conn → Run Server
after_write f now s sockfd (true, c) =
    renew_if f now (record s { users = updated s.users sockfd c }) (s.clients sockfd).timer
after_write f now s sockfd (false, c) =
    deal_timer (record s { users = updated s.users sockfd c }) (s.clients sockfd).timer sockfd

unfoldable pub dealwithwrite : ℕ → ℕ → Server → ℕ → List Conn → Run (Option Server)
dealwithwrite f now s sockfd seen =
    if s.actor_model == 1
    then hand_over f now s sockfd 1 seen
    else (do r ← write (s.users sockfd); s' ← after_write f now s sockfd r; ok (some s'))

unfoldable pub call_back : Server → List ℕ → Shared
call_back s [] = s.shared
call_back s (i ∷ is) = call_back (record s { shared = cb_func (s.clients i) s.shared }) is

-- `utils::timer_handler`, without the alarm that it sets again.
unfoldable pub timer_handler : ℕ → ℕ → Server → Run Server
timer_handler f now s = do
  (l, called) ← tick f now s.timers
  ok (record s { timers = l; shared = call_back s called })

-- What the workers change while the loop runs: the connections, the queue and the static members.
pub record Work : Type 0 where
  pub users : ℕ → Conn
  pub pool : ThreadPool
  pub shared : Shared

abbrev pub after_work : (Work → Work) → Server → Server
after_work work s =
    let w = work (record { users = s.users; pool = s.pool; shared = s.shared }) in
    record s { users = w.users; pool = w.pool; shared = w.shared }

-- One entry of `events`, with what the workers do before it is handled and what its handler finds.
pub record Event : Type 0 where
  pub work : Work → Work
  pub fd : ℕ
  pub hangs_up : Bool
  pub readable : Bool
  pub writable : Bool
  pub fds : List ℕ
  pub signals : Recv
  pub recvs : List Recv
  pub seen : List Conn

abbrev pub keep_flags : Flags → Option Server → Option (Server × Flags)
keep_flags fl none = none
keep_flags fl (some s) = some (s, fl)

-- The body of the `for` loop; `listenfd` and `pipefd` are the two descriptors of the server's own.
unfoldable pub handle_event : ℕ → ℕ → ℕ → ℕ → Server → Flags → Event → Run (Option (Server × Flags))
handle_event f now listenfd pipefd s fl e =
    if e.fd == listenfd
    then (do (done, s') ← dealclientdata f now s e.fds; ok (some (s', fl)))
    else if e.hangs_up
    then (do s' ← deal_timer s (s.clients e.fd).timer e.fd; ok (some (s', fl)))
    else if (e.fd == pipefd) && e.readable
    then ok (some (s, (dealwithsignal e.signals fl).1))
    else if e.readable
    then (do r ← dealwithread f now s e.fd e.recvs e.seen; ok (keep_flags fl r))
    else if e.writable
    then (do r ← dealwithwrite f now s e.fd e.seen; ok (keep_flags fl r))
    else ok (some (s, fl))

unfoldable pub handle_events :
    ℕ → ℕ → ℕ → ℕ → Server → Flags → List Event → Run (Option (Server × Flags))
handle_events f now listenfd pipefd s fl [] = ok (some (s, fl))
handle_events f now listenfd pipefd s fl (e ∷ es) = do
  r ← handle_event f now listenfd pipefd (after_work e.work s) fl e
  elim r [ none ↦ ok none | some (s', fl') ↦ handle_events f now listenfd pipefd s' fl' es ]

-- The end of a round: an alarm that has come ticks the timers.
unfoldable pub end_round : ℕ → ℕ → Server → Flags → Run (Server × Flags)
end_round f now s fl =
    if fl.timeout
    then (do s' ← timer_handler f now s; ok (s', record fl { timeout = false }))
    else ok (s, fl)

-- `eventLoop`: what each `epoll_wait` returns, with the time; `none` is a failure other than EINTR,
-- and the list ends where the program is looked at. The result is `none` where a reactor still waits.
unfoldable pub event_loop :
    ℕ → ℕ → ℕ → Server → Flags → List (Option (ℕ × List Event)) → Run (Option (Server × Flags))
event_loop f listenfd pipefd s fl [] = ok (some (s, fl))
event_loop f listenfd pipefd s fl (none ∷ rounds) = ok (some (s, fl))
event_loop f listenfd pipefd s fl (some (now, es) ∷ rounds) =
    if fl.stop_server then ok (some (s, fl)) else (do
      r ← handle_events f now listenfd pipefd s fl es
      elim r [
        | none ↦ ok none
        | some (s', fl') ↦ do
          (s2, fl2) ← end_round f now s' fl'
          event_loop f listenfd pipefd s2 fl2 rounds
      ])

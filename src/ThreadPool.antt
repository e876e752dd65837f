-- ===== src/ThreadPool.antt =====
-- ocean_http/threadpool/threadpool.h: the queue of requests between the event loop and the workers.
-- A request is the index of a connection; the queue's lock makes each locked part one step. Fields
-- that no code has written hold an arbitrary value, which is an argument.
pub mod Workers
pub mod Queue
mod Tests
use cpp_server.Prelude.{
  ℕ, zero, suc, ◌+◌, ◌-◌, ◌^◌, Bool, true, false, Option, none, some, List, [], ◌∷◌, ◌++◌, ℤ, pos,
  negsuc, leb, leb_ℤ, ◌==◌, if◌then◌else◌, length, ◌||◌,
}
use cpp_server.Http.State.{Conn, Shared, Run, ok, ◌>>=◌}
use cpp_server.Http.Request.{World}
use cpp_server.Http.Process.{Recv, read_once, write, process}

pub record ThreadPool : Type 0 where
  pub thread_number : ℤ
  pub max_requests : ℤ
  pub actor_model : ℤ
  pub conn_pool : Option ℕ
  pub workqueue : List ℕ
  pub queuestat : ℕ

-- The fields as the memory has them before the constructor runs.
pub record Memory : Type 0 where
  pub number : ℤ
  pub requests : ℤ
  pub model : ℤ
  pub pool : Option ℕ

-- The constructor; `none` is an exception. `starts i` tells whether thread `i` is made and detached.
-- It assigns none of the fields that its parameters are for.
unfoldable pub all_start : (ℕ → Bool) → ℕ → ℕ → Bool
all_start starts i zero = true
all_start starts i (suc n) =
    let rest = all_start starts (i + 1) n in if starts i then rest else false

abbrev to_count : ℤ → ℕ
to_count (pos n) = n
to_count (negsuc n) = 0

unfoldable pub construct : (ℕ → Bool) → Memory → ℤ → Option ℕ → ℤ → ℤ → Option ThreadPool
construct starts m actor_model conn_pool thread_number max_requests =
    if leb_ℤ thread_number (pos 0) || leb_ℤ max_requests (pos 0)
    then none
    else if all_start starts 0 (to_count thread_number)
    then some (record {
      thread_number = m.number;
      max_requests = m.requests;
      actor_model = m.model;
      conn_pool = m.pool;
      workqueue = [];
      queuestat = 0;
    })
    else none

-- An int that is compared with a `size_t`.
unfoldable pub to_size : ℤ → ℕ
to_size (pos n) = n
to_size (negsuc k) = 2 ^ 64 - 1 - k

-- The locked part of `append_p`.
unfoldable pub push_request : ThreadPool → ℕ → Bool × ThreadPool
push_request p request =
    if leb (to_size p.max_requests) (length p.workqueue)
    then (false, p)
    else (true, record p { workqueue = p.workqueue ++ request ∷ [] })

unfoldable pub post : ThreadPool → ThreadPool
post p = record p { queuestat = p.queuestat + 1 }

abbrev then_post : Bool × ThreadPool → Bool × ThreadPool
then_post (true, p) = (true, post p)
then_post (false, p) = (false, p)

unfoldable pub append_p : ThreadPool → ℕ → Bool × ThreadPool
append_p p request = then_post (push_request p request)

-- `append` marks the request for reading or writing first.
unfoldable pub append : ThreadPool → (ℕ → Conn) → ℕ → ℕ → Bool × ThreadPool × (ℕ → Conn)
append p users request state =
    if leb (to_size p.max_requests) (length p.workqueue) then (false, p, users) else (
      true,
      record p { workqueue = p.workqueue ++ request ∷ []; queuestat = p.queuestat + 1 },
      λ j. if j == request then record (users j) { state = state } else users j,
    )

-- The locked part of a round of `run`: the queue is empty, or its oldest request is taken.
unfoldable pub take_request : ThreadPool → Option ℕ × ThreadPool
take_request p = elim p.workqueue [
  | [] ↦ (none, p)
  | r ∷ rs ↦ (some r, record p { workqueue = rs })
]

abbrev mark_failed : Conn → Conn
mark_failed c = record c { improv = 1; timer_flag = 1 }

-- A connectionRAII around `process`: `con` is what `GetConnection` returns, and it is given back.
abbrev pub with_connection : World → Option ℕ → Shared → Conn → Run (Conn × Shared)
with_connection w con g c = process w g (record c { mysql = con })

abbrev after_read : World → Option ℕ → Shared → Bool × Conn → Run (Conn × Shared)
after_read w con g (true, c) = with_connection w con g (record c { improv = 1 })
after_read w con g (false, c) = ok (mark_failed c, g)

abbrev after_write : Shared → Bool × Conn → Run (Conn × Shared)
after_write g (true, c) = ok (record c { improv = 1 }, g)
after_write g (false, c) = ok (mark_failed c, g)

-- What a worker does with the request.
unfoldable pub serve : ℤ → World → List Recv → Option ℕ → Shared → Conn → Run (Conn × Shared)
serve (pos (suc zero)) w rs con g c =
    if c.state == 0
    then (do r ← read_once rs c; after_read w con g r)
    else (do r ← write c; after_write g r)
serve _ w rs con g c = with_connection w con g c

-- ===== src/ThreadPool/Workers.antt =====
-- ocean_http/threadpool/threadpool.h: the threads that put requests into the queue, and the workers.
-- A locked part, a post and a wait are steps of their own, in any order.
use cpp_server.Prelude.{
  ℕ, zero, suc, ◌+◌, Bool, true, false, Option, none, some, List, [], ◌∷◌, ◌++◌, get_elem?, set,
}
use cpp_server.ThreadPool.{ThreadPool, push_request, post, take_request}

-- A worker is before the wait of its round, or behind it.
pub data Stage : Type 0 where
  waiting woken : Stage

-- The pool, the threads of `append_p` that have yet to post, the workers, the requests that were put
-- into the queue and those that were taken, in their order.
pub record Shop : Type 0 where
  pub pool : ThreadPool
  pub posting : ℕ
  pub workers : List Stage
  pub accepted : List ℕ
  pub served : List ℕ

-- A thread offers a request or posts; a worker takes its next step, in which a wait may fail, as
-- `sem_wait` does when a signal interrupts it.
pub data Turn : Type 0 where
  offers : ℕ → Turn
  posts : Turn
  works : ℕ → Bool → Turn

abbrev offered : Shop → ℕ → Bool × ThreadPool → Shop
offered s r (true, p) = record s {
  pool = p;
  posting = s.posting + 1;
  accepted = s.accepted ++ r ∷ [];
}
offered s r (false, p) = record s { pool = p }

abbrev pub wake : Shop → ℕ → ThreadPool → Shop
wake s i p = record s { pool = p; workers = set s.workers i woken }

abbrev pub taken : Shop → ℕ → Option ℕ × ThreadPool → Shop
taken s i (none, p) = record s { pool = p; workers = set s.workers i waiting }
taken s i (some r, p) = record s {
  pool = p;
  workers = set s.workers i waiting;
  served = s.served ++ r ∷ [];
}

-- The wait, whose result is ignored, and then the locked part.
unfoldable pub work : Bool → Shop → ℕ → Stage → Shop
work true s i waiting = wake s i s.pool
work false s i waiting = elim s.pool.queuestat [
  | zero ↦ s
  | suc n ↦ wake s i (record s.pool { queuestat = n })
]
work fails s i woken = taken s i (take_request s.pool)

unfoldable pub turn : Shop → Turn → Shop
turn s (offers r) = offered s r (push_request s.pool r)
turn s posts = elim s.posting [ zero ↦ s | suc n ↦ record s { pool = post s.pool; posting = n } ]
turn s (works i fails) = elim (get_elem? s.workers i) [ none ↦ s | some st ↦ work fails s i st ]

unfoldable pub run : Shop → List Turn → Shop
run s [] = s
run s (t ∷ ts) = run (turn s t) ts

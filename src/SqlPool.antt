-- ===== src/SqlPool.antt =====
-- ocean_http/cgimysql/sql_connection_pool.cpp: the pool of MySQL connections, with its list, its
-- counters and the semaphore `reserve`, and the threads that use it.
-- A connection is a number. `lock` makes the code between `lock()` and `unlock()` one step; the test
-- of the size, `reserve.wait()` and `reserve.post()` are steps of their own, as in the code, and any
-- number of threads take their steps in any order.
pub mod Inv
pub mod Threads
pub mod Init
pub mod Frees
pub mod Progress
mod Tests
use cpp_server.Prelude.{
  ℕ, zero, suc, ◌+◌, ◌-◌, Bool, true, false, Option, none, some, List, [], ◌∷◌, ◌++◌, ℤ, pos,
  negsuc, ◌+ℤ◌, ◌==◌, if◌then◌else◌, length, get_elem?, set,
}

pub record SqlPool : Type 0 where
  pub max_conn : ℤ
  pub cur_conn : ℤ
  pub free_conn : ℤ
  pub conn_list : List ℕ
  pub reserve : ℕ

abbrev pub new_pool : SqlPool
new_pool = record {
  max_conn = pos 0;
  cur_conn = pos 0;
  free_conn = pos 0;
  conn_list = [];
  reserve = 0;
}

-- The loop of `init`: `connect i` is the connection that round `i` opens; `none` is `exit(1)`.
unfoldable pub open_connections : (ℕ → Option ℕ) → ℕ → ℕ → SqlPool → Option SqlPool
open_connections connect i zero p = some p
open_connections connect i (suc n) p = elim (connect i) [
  | none ↦ none
  | some c ↦
      open_connections connect (i + 1) n
        (record p { conn_list = p.conn_list ++ c ∷ []; free_conn = p.free_conn +ℤ pos 1 })
]

abbrev to_sem : ℤ → ℕ
to_sem (pos n) = n
to_sem (negsuc n) = 0

-- The rest of `init`.
abbrev pub set_reserve : Option SqlPool → Option SqlPool
set_reserve none = none
set_reserve (some p) = some (record p { reserve = to_sem p.free_conn; max_conn = p.free_conn })

unfoldable pub init : (ℕ → Option ℕ) → ℕ → SqlPool → Option SqlPool
init connect max_conn p = set_reserve (open_connections connect 0 max_conn p)

-- The locked part of `GetConnection`; `front()` of an empty list is `none`.
unfoldable pub take_connection : SqlPool → Option (ℕ × SqlPool)
take_connection p = elim p.conn_list [
  | [] ↦ none
  | c ∷ cs ↦ some (
    c,
    record p {
      conn_list = cs;
      free_conn = p.free_conn +ℤ negsuc 0;
      cur_conn = p.cur_conn +ℤ pos 1;
    },
  )
]

-- The locked part of `ReleaseConnection`.
unfoldable pub give_back : SqlPool → ℕ → SqlPool
give_back p c = record p {
  conn_list = p.conn_list ++ c ∷ [];
  free_conn = p.free_conn +ℤ pos 1;
  cur_conn = p.cur_conn +ℤ negsuc 0;
}

-- The connections that `DestroyPool` closes, and the pool it leaves.
unfoldable pub destroy_pool : SqlPool → List ℕ × SqlPool
destroy_pool p = elim p.conn_list [
  | [] ↦ ([], p)
  | c ∷ cs ↦ (c ∷ cs, record p { conn_list = []; cur_conn = pos 0; free_conn = pos 0 })
]

-- Where a thread that uses a connectionRAII stands: outside; behind the test of the size; behind
-- `reserve.wait()`; with what `GetConnection` returned; and before `reserve.post()`.
pub data Phase : Type 0 where
  idle checked granted returning : Phase
  holding : Option ℕ → Phase

pub record System : Type 0 where
  pub pool : SqlPool
  pub threads : List Phase

-- What a step of a thread comes to; `faults` is `front()` of an empty list.
pub data Move : Type 0 where
  moves : SqlPool → Phase → Move
  blocks : Move
  faults : Move

abbrev took : Option (ℕ × SqlPool) → Move
took none = faults
took (some (c, p)) = moves p (holding (some c))

-- The next step of a thread: `GetConnection`, then `ReleaseConnection` of what it returned. `fails`
-- tells that `reserve.wait()` comes back without the semaphore, as `sem_wait` does when a signal
-- interrupts it; its result is ignored.
unfoldable pub next_move : Bool → SqlPool → Phase → Move
next_move fails p idle = if 0 == length p.conn_list then moves p (holding none) else moves p checked
next_move true p checked = moves p granted
next_move false p checked = elim p.reserve [
  | zero ↦ blocks
  | suc n ↦ moves (record p { reserve = n }) granted
]
next_move fails p granted = took (take_connection p)
next_move fails p (holding none) = moves p idle
next_move fails p (holding (some c)) = moves (give_back p c) returning
next_move fails p returning = moves (record p { reserve = p.reserve + 1 }) idle

abbrev pub moved : System → ℕ → Move → Option System
moved s i blocks = some s
moved s i faults = none
moved s i (moves p ph) = some (record { pool = p; threads = set s.threads i ph })

-- A turn of a thread, and whether a wait of it fails.
abbrev pub Turn : Type 0
Turn = ℕ × Bool

-- A step of thread `i`; one that blocks, or is not there, changes nothing.
unfoldable pub step : System → Turn → Option System
step s (i, fails) = elim (get_elem? s.threads i) [
  | none ↦ some s
  | some ph ↦ moved s i (next_move fails s.pool ph)
]

-- Turns in which no wait fails.
abbrev pub calm : List ℕ → List Turn
calm [] = []
calm (i ∷ is) = (i, false) ∷ calm is

unfoldable pub run : System → List Turn → Option System
run s [] = some s
run s (t ∷ ts) = elim (step s t) [ none ↦ none | some s' ↦ run s' ts ]

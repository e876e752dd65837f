-- ===== src/Timers.antt =====
-- ocean_http/timer/lst_timer.cpp: the doubly linked list of timers, in ascending order of `expire`,
-- and the callback that closes an idle connection.
-- Timers live on a heap: an address is a number, NULL is `none`, and an access through NULL or to
-- a timer that was deleted is `undefined`. `user_data` is the index of the client in the server's
-- table. The loops run on fuel, which the theorems bound by the length of the list.
pub mod Chain
pub mod Insert
pub mod Add
pub mod Order
pub mod Remove
pub mod Bridge
pub mod Unlink
pub mod Adjust
mod Tests
use cpp_server.Prelude.{
  ℕ, zero, suc, Bool, true, false, Option, none, some, List, [], ◌∷◌, ltb, ◌==◌, if◌then◌else◌,
}
use cpp_server.Http.State.{Run, ok, undefined, out_of_fuel, ◌>>=◌, or_undefined}

pub record Timer : Type 0 where
  pub expire : ℕ
  pub user_data : ℕ
  pub prev : Option ℕ
  pub next : Option ℕ

abbrev pub Heap : Type 0
Heap = ℕ → Option Timer

pub record TimerList : Type 0 where
  pub heap : Heap
  pub head : Option ℕ
  pub tail : Option ℕ

unfoldable pub store : Heap → ℕ → Timer → Heap
store h i t = λ j. if j == i then some t else h j

-- `delete`
unfoldable pub free : Heap → ℕ → Heap
free h i = λ j. if j == i then none else h j

abbrev pub load : Heap → Option ℕ → Run Timer
load h none = undefined
load h (some i) = or_undefined (h i)

-- `p->next = n`
unfoldable pub set_next : Heap → Option ℕ → Option ℕ → Run Heap
set_next h none n = undefined
set_next h (some i) n = do t ← or_undefined (h i); ok (store h i (record t { next = n }))

-- `p->prev = n`
unfoldable pub set_prev : Heap → Option ℕ → Option ℕ → Run Heap
set_prev h none n = undefined
set_prev h (some i) n = do t ← or_undefined (h i); ok (store h i (record t { prev = n }))

-- The four writes that link `i` in between `p` and `j`.
unfoldable pub link_before : TimerList → ℕ → Option ℕ → ℕ → Run TimerList
link_before l i p j = do
  h1 ← set_next l.heap p (some i)
  h2 ← set_next h1 (some i) (some j)
  h3 ← set_prev h2 (some j) (some i)
  h4 ← set_prev h3 (some i) p
  ok (record l { heap = h4 })

-- `i` behind `p`, the last timer.
unfoldable pub link_last : TimerList → ℕ → Option ℕ → Run TimerList
link_last l i p = do
  h1 ← set_next l.heap p (some i)
  h2 ← set_prev h1 (some i) p
  h3 ← set_next h2 (some i) none
  ok (record l { heap = h3; tail = some i })

-- The private `add_timer`: its loop, at `prev` and `tmp`.
unfoldable pub insert_behind : ℕ → TimerList → ℕ → Option ℕ → Option ℕ → Run TimerList
insert_behind zero l i p tmp = out_of_fuel
insert_behind (suc f) l i p none = link_last l i p
insert_behind (suc f) l i p (some j) = elim (l.heap i) [
  | none ↦ undefined
  | some t ↦ elim (l.heap j) [
    | none ↦ undefined
    | some u ↦ elim (ltb t.expire u.expire) [
      | true ↦ link_before l i p j
      | false ↦ insert_behind f l i (some j) u.next
    ]
  ]
]

-- The private `add_timer`.
unfoldable pub add_timer_from : ℕ → TimerList → ℕ → Option ℕ → Run TimerList
add_timer_from f l i lst_head = do t ← load l.heap lst_head; insert_behind f l i lst_head t.next

-- `i` before `k`, the first timer.
unfoldable pub link_first : TimerList → ℕ → ℕ → Run TimerList
link_first l i k = do
  h1 ← set_next l.heap (some i) (some k)
  h2 ← set_prev h1 (some k) (some i)
  ok (record l { heap = h2; head = some i })

-- `add_timer` of `i` where `head` is the third argument.
unfoldable pub add_timer_at : ℕ → TimerList → ℕ → Option ℕ → Run TimerList
add_timer_at f l i none = ok (record l { head = some i; tail = some i })
add_timer_at f l i (some k) = elim (l.heap i) [
  | none ↦ undefined
  | some t ↦ elim (l.heap k) [
    | none ↦ undefined
    | some u ↦ elim (ltb t.expire u.expire) [
      | true ↦ link_first l i k
      | false ↦ add_timer_from f l i (some k)
    ]
  ]
]

unfoldable pub add_timer : ℕ → TimerList → Option ℕ → Run TimerList
add_timer f l none = ok l
add_timer f l (some i) = add_timer_at f l i l.head

abbrev pub points_to : Option ℕ → ℕ → Bool
points_to none i = false
points_to (some k) i = k == i

-- `adjust_timer` where the timer is to move behind `n`, its next one; it is or is not the head.
unfoldable pub move_timer : Bool → ℕ → TimerList → ℕ → Timer → Option ℕ → Run TimerList
move_timer true f l i t n = do
  h1 ← set_prev l.heap n none
  h2 ← set_next h1 (some i) none
  add_timer_from f (record l { heap = h2; head = n }) i n
move_timer false f l i t n = do
  h1 ← set_next l.heap t.prev n
  h2 ← set_prev h1 n t.prev
  add_timer_from f (record l { heap = h2 }) i n

unfoldable pub adjust_before : ℕ → TimerList → ℕ → Timer → Option ℕ → Run TimerList
adjust_before f l i t none = ok l
adjust_before f l i t (some j) = elim (l.heap j) [
  | none ↦ undefined
  | some u ↦ elim (ltb t.expire u.expire) [
    | true ↦ ok l
    | false ↦ move_timer (points_to l.head i) f l i t (some j)
  ]
]

unfoldable pub adjust_timer : ℕ → TimerList → Option ℕ → Run TimerList
adjust_timer f l none = ok l
adjust_timer f l (some i) = elim (l.heap i) [
  | none ↦ undefined
  | some t ↦ adjust_before f l i t t.next
]

-- `del_timer` of `i`, which is or is not the head and the tail.
unfoldable pub del_timer_at : Bool → Bool → TimerList → ℕ → Run TimerList
del_timer_at true true l i = elim (l.heap i) [
  | none ↦ undefined
  | some t ↦ ok (record { heap = free l.heap i; head = none; tail = none })
]
del_timer_at true false l i = elim (l.heap i) [
  | none ↦ undefined
  | some t ↦ do h1 ← set_prev l.heap t.next none; ok (record l { heap = free h1 i; head = t.next })
]
del_timer_at false true l i = elim (l.heap i) [
  | none ↦ undefined
  | some t ↦ do h1 ← set_next l.heap t.prev none; ok (record l { heap = free h1 i; tail = t.prev })
]
del_timer_at false false l i = elim (l.heap i) [
  | none ↦ undefined
  | some t ↦ do
    h1 ← set_next l.heap t.prev t.next
    h2 ← set_prev h1 t.next t.prev
    ok (record l { heap = free h2 i })
]

unfoldable pub del_timer : TimerList → Option ℕ → Run TimerList
del_timer l none = ok l
del_timer l (some i) = del_timer_at (points_to l.head i) (points_to l.tail i) l i

-- `if (head) head->prev = NULL`
abbrev pub unlink_front : Heap → Option ℕ → Run Heap
unlink_front h none = ok h
unlink_front h (some j) = set_prev h (some j) none

abbrev pub calling : ℕ → Run (TimerList × List ℕ) → Run (TimerList × List ℕ)
calling user_data rest = do (l, called) ← rest; ok (l, user_data ∷ called)

-- The loop of `tick` at `tmp`, with the clients whose callback is called, in order.
unfoldable pub tick_from : ℕ → ℕ → TimerList → Option ℕ → Run (TimerList × List ℕ)
tick_from zero cur l tmp = out_of_fuel
tick_from (suc f) cur l none = ok (l, [])
tick_from (suc f) cur l (some i) = elim (l.heap i) [
  | none ↦ undefined
  | some t ↦ elim (ltb cur t.expire) [
    | true ↦ ok (l, [])
    | false ↦ calling t.user_data (do
      h1 ← unlink_front l.heap t.next
      tick_from f cur (record l { heap = free h1 i; head = t.next }) t.next)
  ]
]

-- `cur` is the time that `time(NULL)` gives.
unfoldable pub tick : ℕ → ℕ → TimerList → Run (TimerList × List ℕ)
tick f cur l = tick_from f cur l l.head

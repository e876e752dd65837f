-- ===== src/Timers/Order.antt =====
-- Lists of timers in ascending order of `expire`.
use cpp_server.Prelude.{
  ℕ, ◌≤◌, inl, inr, true, false, List, [], ◌∷◌, ◌++◌, arith, ltb, Bool-cases, ltb→lt, ltb→le, ◌≡◌,
  refl, ap, ◌+◌, some, none, length,
}
use cpp_server.Http.State.{ok}
use cpp_server.Timers.{TimerList, add_timer}
use cpp_server.Timers.Chain.{Entry, Lists, NotIn, timer_of}
use cpp_server.Timers.Add.{add_timer-Lists}
use cpp_server.Timers.Insert.{insert, insert_alone, insert_before, insert_after}

-- Every timer expires at `b` or later.
abbrev pub AllFrom : ℕ → List Entry → Type 0
AllFrom b [] = Unit
AllFrom b (e ∷ es) = (b ≤ e.expire) × AllFrom b es

abbrev pub Sorted : List Entry → Type 0
Sorted [] = Unit
Sorted (e ∷ es) = AllFrom e.expire es × Sorted es

abbrev pub AllUpTo : ℕ → List Entry → Type 0
AllUpTo b [] = Unit
AllUpTo b (e ∷ es) = (e.expire ≤ b) × AllUpTo b es

pub AllFrom-le : (a b : ℕ) (es : List Entry) → a ≤ b → AllFrom b es → AllFrom a es
AllFrom-le a b [] le h = tt
AllFrom-le a b (e ∷ es) le h = (omega (arith, h.0), AllFrom-le a b es le h.1)

pub AllFrom-insert :
    (b : ℕ) (x : Entry) (es : List Entry) → b ≤ x.expire → AllFrom b es → AllFrom b (insert x es)
AllFrom-insert b x [] le h = rw (insert_alone x) (le, tt)
AllFrom-insert b x (e ∷ es) le h = elim (Bool-cases (ltb x.expire e.expire)) [
  | inl less ↦ rw (insert_before x e es less) (le, h)
  | inr more ↦ rw (insert_after x e es more) (h.0, AllFrom-insert b x es le h.1)
]

-- `insert` keeps the order.
pub insert-Sorted : (x : Entry) (es : List Entry) → Sorted es → Sorted (insert x es)
insert-Sorted x [] h = rw (insert_alone x) (tt, tt)
insert-Sorted x (e ∷ es) h = elim (Bool-cases (ltb x.expire e.expire)) [
  | inl less ↦
      let le : x.expire ≤ e.expire = omega (arith, ltb→lt _ _ less) in
      rw (insert_before x e es less) ((le, AllFrom-le x.expire e.expire es le h.0), h)
  | inr more ↦
      rw (insert_after x e es more)
        (AllFrom-insert e.expire x es (ltb→le _ _ more) h.0, insert-Sorted x es h.1)
]

-- The timers at the front that have expired at `cur`, and the rest.
unfoldable pub due : ℕ → List Entry → List Entry
due cur [] = []
due cur (e ∷ es) = elim (ltb cur e.expire) [ true ↦ [] | false ↦ e ∷ due cur es ]

unfoldable pub live : ℕ → List Entry → List Entry
live cur [] = []
live cur (e ∷ es) = elim (ltb cur e.expire) [ true ↦ e ∷ es | false ↦ live cur es ]

-- In an ordered list these are all the timers that have expired.
pub due-live :
    (cur : ℕ) (es : List Entry)
    → Sorted es
    → (es ≡ due cur es ++ live cur es) × AllUpTo cur (due cur es) × AllFrom (cur + 1) (live cur es)
unfolding due live
due-live cur [] h = (refl, tt, tt)
due-live cur (e ∷ es) h = elim (Bool-cases (ltb cur e.expire)) [
  | inl less ↦
      let lt : cur + 1 ≤ e.expire = omega (arith, ltb→lt _ _ less) in
      rw (less, due, live) (refl, tt, (lt, AllFrom-le (cur + 1) e.expire es lt h.0))
  | inr more ↦
      let (same, before, behind) = due-live cur es h.1 in
      rw (more, due, live) (ap (λ xs. e ∷ xs) same, (ltb→le _ _ more, before), behind)
]

pub live-Sorted : (cur : ℕ) (es : List Entry) → Sorted es → Sorted (live cur es)
unfolding live
live-Sorted cur [] h = tt
live-Sorted cur (e ∷ es) h = elim (Bool-cases (ltb cur e.expire)) [
  | inl less ↦ rw (less, live) h
  | inr more ↦ rw (more, live) (live-Sorted cur es h.1)
]

-- A list in ascending order is one after `add_timer` too, with the new timer behind every timer
-- that does not expire later.
pub add_timer-Sorted :
    (f : ℕ) (l : TimerList) (x : Entry) (es : List Entry)
    → Lists l es
    → Sorted es
    → NotIn x.id es
    → l.heap x.id ≡ some (timer_of x none none)
    → length es ≤ f
    → (k : TimerList) × (add_timer f l (some x.id) ≡ ok k)
      × Lists k (insert x es)
      × Sorted (insert x es)
add_timer-Sorted f l x es h s out fresh le =
    let (k, run, left) = add_timer-Lists f l x es h out fresh le in
    (k, run, left, insert-Sorted x es s)

-- ===== src/Webserver/Valid.antt =====
-- A server whose timers are in order.
use cpp_server.Prelude.{
  ℕ, suc, ◌+◌, ◌<◌, ◌≡◌, refl, ap, inl, inr, none, List, [], ◌∷◌, ltb, arith, length, Bool-cases,
}
use cpp_server.Http.Process.{Setup}
use cpp_server.Timers.{Timer, TimerList, store}
use cpp_server.Timers.Chain.{Entry, NotIn, Lists, Chain-store}
use cpp_server.Timers.Insert.{insert, insert_alone, insert_before, insert_after}
use cpp_server.Timers.Order.{Sorted}
use cpp_server.Webserver.{Server}

-- The addresses of the timers have all been given out.
abbrev pub AllBelow : ℕ → List Entry → Type 0
AllBelow n [] = Unit
AllBelow n (e ∷ es) = (e.id < n) × AllBelow n es

pub AllBelow-NotIn : (n : ℕ) (es : List Entry) → AllBelow n es → NotIn n es
AllBelow-NotIn n [] h = tt
AllBelow-NotIn n (e ∷ es) h = (λ eq. absurd (omega (arith, h.0, eq)), AllBelow-NotIn n es h.1)

pub AllBelow-more : (n : ℕ) (es : List Entry) → AllBelow n es → AllBelow (n + 1) es
AllBelow-more n [] h = tt
AllBelow-more n (e ∷ es) h = (omega (arith, h.0), AllBelow-more n es h.1)

pub AllBelow-insert :
    (n : ℕ) (x : Entry) (es : List Entry) → x.id < n → AllBelow n es → AllBelow n (insert x es)
AllBelow-insert n x [] lt h = rw (insert_alone x) (lt, tt)
AllBelow-insert n x (e ∷ es) lt h = elim (Bool-cases (ltb x.expire e.expire)) [
  | inl less ↦ rw (insert_before x e es less) (lt, h)
  | inr more ↦ rw (insert_after x e es more) (h.0, AllBelow-insert n x es lt h.1)
]

pub length-insert : (x : Entry) (es : List Entry) → length (insert x es) ≡ suc (length es)
length-insert x [] = rw (insert_alone x) refl
length-insert x (e ∷ es) = elim (Bool-cases (ltb x.expire e.expire)) [
  | inl less ↦ rw (insert_before x e es less) refl
  | inr more ↦ rw (insert_after x e es more) (ap suc (length-insert x es))
]

-- The three names fit into their arrays of 100.
abbrev pub ShortNames : Setup → Type 0
ShortNames s = (length s.user < 100) × (length s.passwd < 100) × (length s.sqlname < 100)

pub record IsValid (s : Server) (es : List Entry) : Type 0 where
  pub listed : Lists s.timers es
  pub sorted : Sorted es
  pub given_out : AllBelow s.fresh es
  pub names : ShortNames s.setup

pub Lists-store :
    (l : TimerList) (i : ℕ) (t : Timer) (es : List Entry)
    → NotIn i es
    → Lists l es
    → Lists (record l { heap = store l.heap i t }) es
Lists-store l i t [] out h = record {
  from_head = h.from_head;
  to_tail = tt;
  chain = tt;
  distinct = tt;
}
Lists-store l i t (e ∷ es) out h = record {
  from_head = h.from_head;
  to_tail = h.to_tail;
  chain = Chain-store l.heap none (e ∷ es) none i t out h.chain;
  distinct = h.distinct;
}

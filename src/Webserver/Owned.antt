-- ===== src/Webserver/Owned.antt =====
-- The timers of the clients are those of the list.
use mathlib.Core.Path.{subst}
use mathlib.Core.Option.{some-injective}
use cpp_server.Prelude.{
  ℕ, ◌+◌, ◌*◌, ◌≤◌, ◌≡◌, ◌≢◌, refl, sym, ap, ap₂, ◌∙◌, inl, inr, Option, none, some, List, [], ◌∷◌,
  ◌++◌, ltb, arith, Bool-cases, ne→==,
}
use cpp_server.Timers.{Heap, TimerList}
use cpp_server.Timers.Chain.{Entry, Lists, Chain, first, timer_of}
use cpp_server.Timers.Insert.{insert, insert_alone, insert_before, insert_after}
use cpp_server.Webserver.{Server, Client, timeslot, updated}
use cpp_server.Webserver.Valid.{IsValid}
use cpp_server.Webserver.Renew.{renewed}

-- The entry is the timer of its client, and was set at `clock` at the latest.
abbrev pub OwnedAt : (ℕ → Client) → ℕ → Entry → Type 0
OwnedAt clients clock e =
    ((clients e.user_data).timer ≡ some e.id) × (e.expire ≤ clock + 3 * timeslot)

abbrev pub AllOwned : (ℕ → Client) → ℕ → List Entry → Type 0
AllOwned clients clock [] = Unit
AllOwned clients clock (e ∷ es) = OwnedAt clients clock e × AllOwned clients clock es

-- No timer in the list is that of the connection.
abbrev pub NoFd : ℕ → List Entry → Type 0
NoFd fd [] = Unit
NoFd fd (e ∷ es) = (e.user_data ≢ fd) × NoFd fd es

pub record Owns (s : Server) (clock : ℕ) (es : List Entry) : Type 0 where
  pub valid : IsValid s es
  pub owned : AllOwned s.clients clock es

-- Induction over `insert`.
pub NoFd-insert :
    (fd : ℕ) (x : Entry) (es : List Entry) → x.user_data ≢ fd → NoFd fd es → NoFd fd (insert x es)
NoFd-insert fd x [] ne h = rw (insert_alone x) (ne, tt)
NoFd-insert fd x (e ∷ es) ne h = elim (Bool-cases (ltb x.expire e.expire)) [
  | inl less ↦ rw (insert_before x e es less) (ne, h)
  | inr more ↦ rw (insert_after x e es more) (h.0, NoFd-insert fd x es ne h.1)
]

module _ (clients : ℕ → Client) (clock : ℕ) where
  pub AllOwned-later :
      (now : ℕ) (es : List Entry)
      → clock ≤ now
      → AllOwned clients clock es
      → AllOwned clients now es
  AllOwned-later now [] le h = tt
  AllOwned-later now (e ∷ es) le h = ((h.0.0, omega (arith, h.0.1)), AllOwned-later now es le h.1)

  pub AllOwned-insert :
      (x : Entry) (es : List Entry)
      → OwnedAt clients clock x
      → AllOwned clients clock es
      → AllOwned clients clock (insert x es)
  AllOwned-insert x [] o h = rw (insert_alone x) (o, tt)
  AllOwned-insert x (e ∷ es) o h = elim (Bool-cases (ltb x.expire e.expire)) [
    | inl less ↦ rw (insert_before x e es less) (o, h)
    | inr more ↦ rw (insert_after x e es more) (h.0, AllOwned-insert x es o h.1)
  ]

  pub AllOwned-here :
      (us : List Entry) (x : Entry) (bs : List Entry)
      → AllOwned clients clock (us ++ x ∷ bs)
      → OwnedAt clients clock x
  AllOwned-here [] x bs h = h.0
  AllOwned-here (u ∷ us) x bs h = AllOwned-here us x bs h.1

  pub AllOwned-without :
      (us : List Entry) (x : Entry) (bs : List Entry)
      → AllOwned clients clock (us ++ x ∷ bs)
      → AllOwned clients clock (us ++ bs)
  AllOwned-without [] x bs h = h.1
  AllOwned-without (u ∷ us) x bs h = (h.0, AllOwned-without us x bs h.1)

  pub AllOwned-behind :
      (us bs : List Entry) → AllOwned clients clock (us ++ bs) → AllOwned clients clock bs
  AllOwned-behind [] bs h = h
  AllOwned-behind (u ∷ us) bs h = AllOwned-behind us bs h.1

  pub AllOwned-renewed :
      (us : List Entry) (x : Entry) (bs : List Entry)
      → AllOwned clients clock (us ++ x ∷ bs)
      → AllOwned clients clock (us ++ insert (renewed clock x) bs)
  AllOwned-renewed [] x bs h = AllOwned-insert (renewed clock x) bs (h.0.0, omega arith) h.1
  AllOwned-renewed (u ∷ us) x bs h = (h.0, AllOwned-renewed us x bs h.1)

  -- A client that has no timer in the list may change.
  pub AllOwned-updated :
      (fd : ℕ) (c : Client) (es : List Entry)
      → NoFd fd es
      → AllOwned clients clock es
      → AllOwned (updated clients fd c) clock es
  AllOwned-updated fd c [] out h = tt
  AllOwned-updated fd c (e ∷ es) out h =
      ((rw (ne→== e.user_data fd out.0) h.0.0, h.0.1), AllOwned-updated fd c es out.1 h.1)

-- A heap and a head have one list at most.
Chain-same :
    (h : Heap) (p : Option ℕ) (es fs : List Entry)
    → Chain h p es none
    → Chain h p fs none
    → first es none ≡ first fs none
    → es ≡ fs
Chain-same h p [] [] c d e = refl
Chain-same h p [] (y ∷ fs) c d e = absurd (cc)
Chain-same h p (x ∷ es) [] c d e = absurd (cc)
Chain-same h p (x ∷ es) (y ∷ fs) c d e =
    let id : x.id ≡ y.id = some-injective _ _ e in
    let there : h x.id ≡ some (timer_of y p (first fs none)) = ap h id ∙ d.0 in
    let same = some-injective _ _ (sym c.0 ∙ there) in
    let d1 = subst (λ z. Chain h (some z) fs none) (sym id) d.1 in
    ap₂ ◌∷◌ (λ i. record { id = id i; expire = (same i).expire; user_data = (same i).user_data })
      (Chain-same h (some x.id) es fs c.1 d1 (ap (λ t. t.next) same))

pub Lists-same : (l : TimerList) (es fs : List Entry) → Lists l es → Lists l fs → es ≡ fs
Lists-same l es fs h k =
    Chain-same l.heap none es fs h.chain k.chain (sym h.from_head ∙ k.from_head)

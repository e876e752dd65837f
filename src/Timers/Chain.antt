-- ===== src/Timers/Chain.antt =====
-- What a list of timers stands for: its entries from the head on.
use cpp_server.Prelude.{
  ℕ, ◌≡◌, refl, sym, ◌∙◌, ◌≢◌, Option, none, some, List, [], ◌∷◌, ==_refl, ne→==,
}
use cpp_server.Http.State.{ok}
use cpp_server.Timers.{Timer, Heap, TimerList, store, free, set_next, set_prev}

pub record Entry : Type 0 where
  pub id : ℕ
  pub expire : ℕ
  pub user_data : ℕ

abbrev pub first : List Entry → Option ℕ → Option ℕ
first [] n = n
first (e ∷ es) n = some e.id

abbrev pub last : Option ℕ → List Entry → Option ℕ
last p [] = p
last p (e ∷ es) = last (some e.id) es

abbrev pub timer_of : Entry → Option ℕ → Option ℕ → Timer
timer_of e p n = record { expire = e.expire; user_data = e.user_data; prev = p; next = n }

-- From behind `p` up to before `n` the heap links the entries in both directions.
abbrev pub Chain : Heap → Option ℕ → List Entry → Option ℕ → Type 0
Chain h p [] n = Unit
Chain h p (e ∷ es) n = (h e.id ≡ some (timer_of e p (first es n))) × Chain h (some e.id) es n

abbrev pub NotIn : ℕ → List Entry → Type 0
NotIn i [] = Unit
NotIn i (e ∷ es) = (i ≢ e.id) × NotIn i es

abbrev pub Distinct : List Entry → Type 0
Distinct [] = Unit
Distinct (e ∷ es) = NotIn e.id es × Distinct es

-- `tail` counts only where there is a timer.
abbrev pub TailIs : TimerList → List Entry → Type 0
TailIs l [] = Unit
TailIs l (e ∷ es) = l.tail ≡ last (some e.id) es

pub record Lists (l : TimerList) (es : List Entry) : Type 0 where
  pub from_head : l.head ≡ first es none
  pub to_tail : TailIs l es
  pub chain : Chain l.heap none es none
  pub distinct : Distinct es

pub free_self : (h : Heap) (i : ℕ) → free h i i ≡ none
unfolding free
free_self h i = rw (==_refl i) refl

pub store_self : (h : Heap) (i : ℕ) (t : Timer) → store h i t i ≡ some t
unfolding store
store_self h i t = rw (==_refl i) refl

pub store_other : (h : Heap) (i j : ℕ) (t : Timer) → j ≢ i → store h i t j ≡ h j
unfolding store
store_other h i j t ne = rw (ne→== j i ne) refl

pub free_other : (h : Heap) (i j : ℕ) → j ≢ i → free h i j ≡ h j
unfolding free
free_other h i j ne = rw (ne→== j i ne) refl

pub set_next_at :
    (h : Heap) (i : ℕ) (n : Option ℕ) (t : Timer)
    → h i ≡ some t
    → set_next h (some i) n ≡ ok (store h i (record t { next = n }))
unfolding set_next
set_next_at h i n t e = rw e refl

pub set_prev_at :
    (h : Heap) (i : ℕ) (n : Option ℕ) (t : Timer)
    → h i ≡ some t
    → set_prev h (some i) n ≡ ok (store h i (record t { prev = n }))
unfolding set_prev
set_prev_at h i n t e = rw e refl

pub Chain-store :
    (h : Heap) (p : Option ℕ) (es : List Entry) (n : Option ℕ) (i : ℕ) (t : Timer)
    → NotIn i es
    → Chain h p es n
    → Chain (store h i t) p es n
Chain-store h p [] n i t out c = tt
Chain-store h p (e ∷ es) n i t out c = (
  store_other h i e.id t (λ eq. out.0 (sym eq)) ∙ c.0,
  Chain-store h (some e.id) es n i t out.1 c.1,
)

pub Chain-free :
    (h : Heap) (p : Option ℕ) (es : List Entry) (n : Option ℕ) (i : ℕ)
    → NotIn i es
    → Chain h p es n
    → Chain (free h i) p es n
Chain-free h p [] n i out c = tt
Chain-free h p (e ∷ es) n i out c =
    (free_other h i e.id (λ eq. out.0 (sym eq)) ∙ c.0, Chain-free h (some e.id) es n i out.1 c.1)

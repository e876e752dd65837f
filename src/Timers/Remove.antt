-- ===== src/Timers/Remove.antt =====
-- `tick` takes the timers that have expired off the front of the list.
use mathlib.Core.Path.{subst}
use cpp_server.Prelude.{
  ℕ, zero, suc, ◌+◌, ◌<◌, ◌≡◌, refl, sym, inl, inr, Option, none, some, List, [], ◌∷◌, ◌++◌, map,
  arith, ◌==◌, ==→eq, ltb, length, Bool-cases,
}
use cpp_server.Http.State.{ok}
use cpp_server.Timers.{Heap, Timer, TimerList, store, free, unlink_front, tick_from, tick}
use cpp_server.Timers.Chain.{
  Entry, first, timer_of, Chain, NotIn, Distinct, TailIs, Lists, store_self, free_self, set_prev_at,
  Chain-store, Chain-free,
}
use cpp_server.Timers.Order.{Sorted, AllUpTo, AllFrom, due, live, due-live}

stored_none : (h : Heap) (i j : ℕ) (t u : Timer) → h i ≡ some u → h j ≡ none → store h i t j ≡ none
unfolding store
stored_none h i j t u there e = elim (Bool-cases (j == i)) [
  | inl same ↦ let at : j ≡ i = ==→eq j i same in absurd (cc)
  | inr other ↦ rw other e
]

free-none : (h : Heap) (i j : ℕ) → h j ≡ none → free h i j ≡ none
unfolding free
free-none h i j e = elim (Bool-cases (j == i)) [ inl same ↦ rw same refl | inr other ↦ rw other e ]

-- The objects of these timers are freed.
abbrev pub AllFreed : Heap → List Entry → Type 0
AllFreed h [] = Unit
AllFreed h (e ∷ es) = (h e.id ≡ none) × AllFreed h es

-- Without its first timer a chain is one again.
pub unlink_first :
    (h : Heap) (e : Entry) (es : List Entry)
    → Chain h none (e ∷ es) none
    → NotIn e.id es
    → Distinct es
    → (h1 : Heap) × (unlink_front h (first es none) ≡ ok h1)
      × Chain (free h1 e.id) none es none
      × ((j : ℕ) → h j ≡ none → h1 j ≡ none)
unlink_first h e [] c out d = (h, refl, tt, λ j e. e)
unlink_first h e (r ∷ es) c out d =
    let h1 = store h r.id (timer_of r none (first es none)) in
    (
      h1,
      set_prev_at h r.id none _ c.1.0,
      Chain-free h1 none (r ∷ es) none e.id out
          (store_self h r.id _, Chain-store h (some r.id) es none r.id _ d.0 c.1.1),
      λ j e. stored_none h r.id j _ _ c.1.0 e,
    )

pub TailIs-tail :
    (t : Option ℕ) (e : Entry) (es : List Entry) (h k : Heap) (a b : Option ℕ)
    → TailIs (record { heap = h; head = a; tail = t }) (e ∷ es)
    → TailIs (record { heap = k; head = b; tail = t }) es
TailIs-tail t e [] h k a b at = tt
TailIs-tail t e (r ∷ es) h k a b at = at

-- The loop of `tick` at the head.
tick_from-Lists :
    (f cur : ℕ) (l : TimerList) (es : List Entry)
    → Lists l es
    → length es < f
    → (k : TimerList) × (tick_from f cur l (first es none)
        ≡ ok (k, map (λ (e : Entry). e.user_data) (due cur es)))
      × Lists k (live cur es)
      × AllFreed k.heap (due cur es)
      × ((j : ℕ) → l.heap j ≡ none → k.heap j ≡ none)
unfolding tick_from due live
tick_from-Lists zero cur l es h lt = absurd (omega arith)
tick_from-Lists (suc f) cur l [] h lt = (l, refl, h, tt, λ j e. e)
tick_from-Lists (suc f) cur l (e ∷ es) h lt = elim (Bool-cases (ltb cur e.expire)) [
  | inl less ↦ (
    l,
    rw (h.chain.0, tick_from) (rw (less, due) refl),
    rw (less, live) h,
    rw (less, due) tt,
    λ j e. e,
  )
  | inr more ↦
      let (h1, unlinked, c, kept) = unlink_first l.heap e es h.chain h.distinct.0 h.distinct.1 in
      let l1 : TimerList = record { heap = free h1 e.id; head = first es none; tail = l.tail } in
      let rest : Lists l1 es = record {
        from_head = refl;
        to_tail = TailIs-tail l.tail e es l.heap (free h1 e.id) l.head (first es none) h.to_tail;
        chain = c;
        distinct = h.distinct.1;
      } in
      let (k, run, left, freed, kept') = tick_from-Lists f cur l1 es rest (omega arith) in
      (
        k,
        rw (h.chain.0, tick_from) (rw (more, due) (rw (unlinked) (rw run refl))),
        rw (more, live) left,
        rw (more, due) (kept' e.id (free_self h1 e.id), freed),
        λ j none_at. kept' j (free-none h1 e.id j (kept j none_at)),
      )
]

-- `tick` on a list in ascending order calls the clients of exactly the timers that have expired, in
-- their order, frees the objects of these timers, and leaves a list of the others; the fuel that the loop needs is
-- one more than the length of the list.
pub tick-Lists :
    (f cur : ℕ) (l : TimerList) (es : List Entry)
    → Lists l es
    → Sorted es
    → length es < f
    → (gone left : List Entry) × (k : TimerList) × (tick f cur l
        ≡ ok (k, map (λ (e : Entry). e.user_data) gone))
      × Lists k left
      × (es ≡ gone ++ left)
      × AllUpTo cur gone
      × AllFrom (cur + 1) left
      × AllFreed k.heap gone
unfolding tick
tick-Lists f cur l es h s lt =
    let (k, run, left, freed, _) = tick_from-Lists f cur l es h lt in
    let (same, before, behind) = due-live cur es s in
    (
      due cur es,
      live cur es,
      k,
      subst (λ hd. tick_from f cur l hd ≡ ok (k, map (λ (e : Entry). e.user_data) (due cur es)))
          (sym h.from_head) run,
      left,
      same,
      before,
      behind,
      freed,
    )

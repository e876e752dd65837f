-- ===== src/Timers/Unlink.antt =====
-- `del_timer` takes one timer out of the list.
use mathlib.Core.Path.{subst}
use cpp_server.Prelude.{
  ℕ, ◌≡◌, refl, sym, ap, ◌∙◌, ◌≢◌, true, false, Option, none, some, List, [], ◌∷◌, ◌++◌, ==_refl,
}
use cpp_server.Http.State.{ok}
use cpp_server.Timers.{TimerList, store, free, del_timer, del_timer_at, points_to}
use cpp_server.Timers.Chain.{
  Entry, first, last, timer_of, Distinct, Lists, store_other, free_self, set_next_at, set_prev_at,
  Chain-free,
}
use cpp_server.Timers.Remove.{unlink_first}
use cpp_server.Timers.Bridge.{
  NotIn-parts, bridge, first_same, NotIn-last, Distinct-drop, not_first, to_last, from_last, around,
  snoc_view,
}

-- The heap that `del_timer` leaves.
del_inner_at :
    (l : TimerList) (us : List Entry) (a x : Entry) (bs : List Entry)
    → Lists l (us ++ a ∷ x ∷ bs)
    → (t : Option ℕ) × (del_timer_at false (points_to (last (some x.id) bs) x.id) l x.id
        ≡ ok (record {
          heap = free (bridge l.heap (last none us) a bs) x.id;
          head = l.head;
          tail = t;
        }))
      × (t ≡ last (some a.id) bs)
unfolding del_timer_at
del_inner_at l us a x [] h =
    let r = around l.heap none us a x [] h.chain h.distinct in
    (
      some a.id,
      rw (==_refl x.id, del_timer_at)
          (rw (r.here) (rw (set_next_at l.heap a.id none _ r.before) refl)),
      refl,
    )
del_inner_at l us a x (b ∷ bs) h =
    let r = around l.heap none us a x (b ∷ bs) h.chain h.distinct in
    let (ou, ox) = Distinct-drop us a x (b ∷ bs) h.distinct in
    let (_, xa) = NotIn-parts x.id us (a ∷ b ∷ bs) ou in
    let e : store l.heap a.id (timer_of a (last none us) (some b.id)) b.id
        ≡ some (timer_of b (some x.id) (first bs none)) =
      store_other l.heap a.id b.id _ (λ eq. (apart us h.distinct) (sym eq)) ∙ r.behind.0 in
    (
      l.tail,
      rw (NotIn-last x b bs xa.1, del_timer_at)
          (rw (r.here) (
            rw (set_next_at l.heap a.id (some b.id) _ r.before, set_prev_at _ b.id (some a.id) _ e)
              refl)),
      to_last l us a (x ∷ b ∷ bs) h.to_tail,
    )
  where
    apart : (vs : List Entry) → Distinct (vs ++ a ∷ x ∷ b ∷ bs) → a.id ≢ b.id
    apart [] d = d.0.1.0
    apart (v ∷ vs) d = apart vs d.1

-- Any timer but the first.
del_inner :
    (l : TimerList) (us : List Entry) (a x : Entry) (bs : List Entry)
    → Lists l (us ++ a ∷ x ∷ bs)
    → (k : TimerList) × (del_timer l (some x.id) ≡ ok k)
      × Lists k (us ++ a ∷ bs)
      × (k.heap x.id ≡ none)
unfolding del_timer del_timer_at
del_inner l us a x bs h =
    let (out, rest) = Distinct-drop us a x bs h.distinct in
    let (t, run, at) = del_inner_at l us a x bs h in
    let r = around l.heap none us a x bs h.chain h.distinct in
    let is_head : points_to l.head x.id ≡ false =
      ap (λ p. points_to p x.id) h.from_head ∙ not_first us a x bs (x ∷ bs) out in
    let is_tail : points_to l.tail x.id ≡ points_to (last (some x.id) bs) x.id =
      ap (λ p. points_to p x.id) (to_last l us a (x ∷ bs) h.to_tail) in
    let k : TimerList = record {
      heap = free (bridge l.heap (last none us) a bs) x.id;
      head = l.head;
      tail = t;
    } in
    (
      k,
      rw (is_head, is_tail) run,
      record {
        from_head = h.from_head ∙ first_same us a (x ∷ bs) bs;
        to_tail = from_last k us a bs at;
        chain =
            Chain-free (bridge l.heap (last none us) a bs) none (us ++ a ∷ bs) none x.id out
              r.bridged;
        distinct = rest;
      },
      free_self (bridge l.heap (last none us) a bs) x.id,
    )

-- `del_timer` of a timer in the list deletes it: its object is freed, and the list of the others is
-- left, with its links in both directions, its head and its tail.
pub del_timer-Lists :
    (l : TimerList) (us : List Entry) (x : Entry) (bs : List Entry)
    → Lists l (us ++ x ∷ bs)
    → (k : TimerList) × (del_timer l (some x.id) ≡ ok k) × Lists k (us ++ bs) × (k.heap x.id ≡ none)
unfolding del_timer del_timer_at
del_timer-Lists l [] x [] h =
    let is_head : points_to l.head x.id ≡ true =
      ap (λ p. points_to p x.id) h.from_head ∙ ==_refl x.id in
    let is_tail : points_to l.tail x.id ≡ true =
      ap (λ p. points_to p x.id) h.to_tail ∙ ==_refl x.id in
    (
      record { heap = free l.heap x.id; head = none; tail = none },
      rw (is_head, is_tail) (rw (h.chain.0, del_timer_at) refl),
      record { from_head = refl; to_tail = tt; chain = tt; distinct = tt },
      free_self l.heap x.id,
    )
del_timer-Lists l [] x (b ∷ bs) h =
    let is_head : points_to l.head x.id ≡ true =
      ap (λ p. points_to p x.id) h.from_head ∙ ==_refl x.id in
    let is_tail : points_to l.tail x.id ≡ false =
      ap (λ p. points_to p x.id) h.to_tail ∙ NotIn-last x b bs h.distinct.0 in
    let (h1, unlinked, c, _) = unlink_first l.heap x (b ∷ bs) h.chain h.distinct.0 h.distinct.1 in
    (
      record { heap = free h1 x.id; head = some b.id; tail = l.tail },
      rw (is_head, is_tail) (rw (h.chain.0, del_timer_at) (rw unlinked refl)),
      record { from_head = refl; to_tail = h.to_tail; chain = c; distinct = h.distinct.1 },
      free_self h1 x.id,
    )
del_timer-Lists l (u ∷ us) x bs h =
    let (vs, a, e) = snoc_view u us in
    let (k, run, left, gone) = del_inner l vs a x bs (subst (λ es. Lists l es) (e (x ∷ bs)) h) in
    (k, run, subst (λ es. Lists k es) (sym (e bs)) left, gone)

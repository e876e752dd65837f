-- ===== src/Timers/Adjust.antt =====
-- `adjust_timer` moves a timer whose time has been put off.
use mathlib.Core.Path.{subst}
use cpp_server.Prelude.{
  ℕ, ◌≤◌, ◌<◌, ◌≡◌, refl, sym, ap, ◌∙◌, ◌≢◌, inl, inr, true, false, Option, none, some, List, [],
  ◌∷◌, ◌++◌, arith, ltb, length, Bool-cases, ==_refl, append_nil,
}
use cpp_server.Http.State.{ok}
use cpp_server.Timers.{
  Heap, TimerList, store, add_timer_from, move_timer, adjust_before, adjust_timer, points_to,
}
use cpp_server.Timers.Chain.{
  Entry, first, last, timer_of, Chain, NotIn, Distinct, Lists, store_self, store_other, set_next_at,
  set_prev_at, Chain-store,
}
use cpp_server.Timers.Insert.{insert, insert_alone, insert_before, insert_after, walk}
use cpp_server.Timers.Add.{NotIn-insert, Distinct-insert}
use cpp_server.Timers.Bridge.{
  NotIn-parts, NotIn-join, bridge, bridge_other, first_same, last_same, Distinct-drop, not_first,
  to_last, from_last, around, snoc_view,
}

-- The timer of an entry in the middle of a list.
pub here_at :
    (h : Heap) (p : Option ℕ) (us : List Entry) (x : Entry) (bs : List Entry)
    → Chain h p (us ++ x ∷ bs) none
    → (h x.id ≡ some (timer_of x (last p us) (first bs none))) × Chain h (some x.id) bs none
here_at h p [] x bs c = c
here_at h p (u ∷ us) x bs c = here_at h (some u.id) us x bs c.1

suffix :
    (h : Heap) (p : Option ℕ) (us : List Entry) (a : Entry) (es : List Entry)
    → Chain h p (us ++ a ∷ es) none
    → Chain h (some a.id) es none
suffix h p us a es c = (here_at h p us a es c).1

Distinct-suffix : (us : List Entry) (es : List Entry) → Distinct (us ++ es) → Distinct es
Distinct-suffix [] es d = d
Distinct-suffix (u ∷ us) es d = Distinct-suffix us es d.1

Distinct-moved :
    (us : List Entry) (x : Entry) (bs : List Entry)
    → Distinct (us ++ x ∷ bs)
    → Distinct (us ++ insert x bs)
Distinct-moved [] x bs d = Distinct-insert x bs d.0 d.1
Distinct-moved (u ∷ us) x bs d =
    let (ou, ox) = NotIn-parts u.id us (x ∷ bs) d.0 in
    (
      NotIn-join u.id us (insert x bs) ou (NotIn-insert u.id x bs ox.0 ox.1),
      Distinct-moved us x bs d.1,
    )

Distinct-behind :
    (us : List Entry) (a x : Entry) (bs : List Entry)
    → Distinct (us ++ a ∷ x ∷ bs)
    → Distinct (us ++ a ∷ insert x bs)
Distinct-behind [] a x bs d = Distinct-moved (a ∷ []) x bs d
Distinct-behind (u ∷ us) a x bs d =
    let (ou, ox) = NotIn-parts u.id us (a ∷ x ∷ bs) d.0 in
    (
      NotIn-join u.id us (a ∷ insert x bs) ou (ox.0, NotIn-insert u.id x bs ox.1.0 ox.1.1),
      Distinct-behind us a x bs d.1,
    )

-- A chain whose end is another one.
graft :
    (h k : Heap) (p : Option ℕ) (us : List Entry) (a x b : Entry) (bs cs : List Entry)
    → Chain h p (us ++ a ∷ b ∷ bs) none
    → Distinct (us ++ a ∷ x ∷ b ∷ bs)
    → ((j : ℕ) → NotIn j (b ∷ bs) → j ≢ x.id → k j ≡ h j)
    → Chain k (some a.id) (b ∷ cs) none
    → Chain k p (us ++ a ∷ b ∷ cs) none
graft h k p [] a x b bs cs c d same ck = (same a.id d.0.1 d.0.0 ∙ c.0, ck)
graft h k p (u ∷ us) a x b bs cs c d same ck =
    let (ou, ox) = NotIn-parts u.id us (a ∷ x ∷ b ∷ bs) d.0 in
    (
      same u.id ox.1.1 ox.1.0
          ∙ c.0
          ∙ ap (λ n. some (timer_of u p n)) (first_same us a (b ∷ bs) (b ∷ cs)),
      graft h k (some u.id) us a x b bs cs c.1 d.1 same ck,
    )

-- The first timer moves behind the second or further.
move_head :
    (f : ℕ) (l : TimerList) (x b : Entry) (bs : List Entry)
    → Lists l (x ∷ b ∷ bs)
    → length bs < f
    → (k : TimerList) × (move_timer true f l x.id (timer_of x none (some b.id)) (some b.id) ≡ ok k)
      × Lists k (b ∷ insert x bs)
unfolding move_timer add_timer_from
move_head f l x b bs h lt =
    let h1 = store l.heap b.id (timer_of b none (first bs none)) in
    let h2 = store h1 x.id (timer_of x none none) in
    let xb : x.id ≢ b.id = h.distinct.0.0 in
    let e1 : h1 x.id ≡ some (timer_of x none (some b.id)) =
      store_other l.heap b.id x.id _ xb ∙ h.chain.0 in
    let e2 : h2 b.id ≡ some (timer_of b none (first bs none)) =
      store_other h1 x.id b.id _ (λ eq. xb (sym eq)) ∙ store_self l.heap b.id _ in
    let l2 : TimerList = record { heap = h2; head = some b.id; tail = l.tail } in
    let c2 : Chain h2 none (b ∷ bs) none = (
      e2,
      Chain-store h1 (some b.id) bs none x.id _ h.distinct.0.1
          (Chain-store l.heap (some b.id) bs none b.id _ h.distinct.1.0 h.chain.1.1),
    ) in
    let (k, run, i) =
      walk f l2 x none none none b bs c2 (store_self h1 x.id _) h.distinct.0 h.distinct.1 h.to_tail
        lt in
    (
      k,
      rw (set_prev_at l.heap b.id none _ h.chain.1.0, set_next_at h1 x.id none _ e1) (rw e2 run),
      record {
        from_head = i.same_head;
        to_tail = i.at_tail;
        chain = i.chained;
        distinct = (
          NotIn-insert b.id x bs (λ eq. xb (sym eq)) h.distinct.1.0,
          Distinct-insert x bs h.distinct.0.1 h.distinct.1.1,
        );
      },
    )

-- A timer behind `a` moves behind `b` or further.
move_inner :
    (f : ℕ) (l : TimerList) (vs : List Entry) (a x b : Entry) (bs : List Entry)
    → Lists l (vs ++ a ∷ x ∷ b ∷ bs)
    → ltb x.expire b.expire ≡ false
    → length bs < f
    → (k : TimerList) × (move_timer false f l x.id (timer_of x (some a.id) (some b.id)) (some b.id)
        ≡ ok k)
      × Lists k (vs ++ a ∷ insert x (b ∷ bs))
unfolding move_timer add_timer_from
move_inner f l vs a x b bs h more lt =
    let r = around l.heap none vs a x (b ∷ bs) h.chain h.distinct in
    let ds = Distinct-suffix vs (a ∷ x ∷ b ∷ bs) h.distinct in
    let q = last none vs in
    let h1 = store l.heap a.id (timer_of a q (some b.id)) in
    let h2 = bridge l.heap q a (b ∷ bs) in
    let e1 : h1 b.id ≡ some (timer_of b (some x.id) (first bs none)) =
      store_other l.heap a.id b.id _ (λ eq. ds.0.1.0 (sym eq)) ∙ r.behind.0 in
    let l2 : TimerList = record { heap = h2; head = l.head; tail = l.tail } in
    let c2 : Chain h2 (some a.id) (b ∷ bs) none = suffix h2 none vs a (b ∷ bs) r.bridged in
    let ex : h2 x.id ≡ some (timer_of x (some a.id) (some b.id)) =
      bridge_other l.heap q a (b ∷ bs) x.id (λ eq. ds.0.0 (sym eq)) ds.1.0 ∙ r.here in
    let (k, run, i) =
      walk f l2 x (some a.id) (some b.id) (some a.id) b bs c2 ex ds.1.0 ds.1.1
        (to_last l vs a (x ∷ b ∷ bs) h.to_tail) lt in
    (
      k,
      rw (set_next_at l.heap a.id (some b.id) _ r.before, set_prev_at h1 b.id (some a.id) _ e1)
          (rw c2.0 run),
      rw (insert_after x b bs more) (record {
        from_head = i.same_head ∙ h.from_head ∙ first_same vs a (x ∷ b ∷ bs) (b ∷ insert x bs);
        to_tail = from_last k vs a (b ∷ insert x bs) i.at_tail;
        chain =
            graft h2 k.heap none vs a x b bs (insert x bs) r.bridged h.distinct i.frame i.chained;
        distinct = rw⁻¹ (insert_after x b bs more) (Distinct-behind vs a x (b ∷ bs) h.distinct);
      }),
    )

stays :
    (l : TimerList) (us : List Entry) (x : Entry) (bs cs : List Entry)
    → cs ≡ x ∷ bs
    → Lists l (us ++ x ∷ bs)
    → Lists l (us ++ cs)
stays l us x bs cs e h = subst (λ es. Lists l (us ++ es)) (sym e) h

moves_on :
    (f : ℕ) (l : TimerList) (us : List Entry) (x b : Entry) (bs : List Entry)
    → Lists l (us ++ x ∷ b ∷ bs)
    → ltb x.expire b.expire ≡ false
    → length bs < f
    → (k : TimerList) × (move_timer
          (points_to l.head x.id)
          f
          l
          x.id
          (timer_of x (last none us) (some b.id))
          (some b.id)
        ≡ ok k)
      × Lists k (us ++ insert x (b ∷ bs))
moves_on f l [] x b bs h more lt =
    let (k, run, left) = move_head f l x b bs h lt in
    let is_head : points_to l.head x.id ≡ true =
      ap (λ p. points_to p x.id) h.from_head ∙ ==_refl x.id in
    (k, rw is_head run, rw (insert_after x b bs more) left)
moves_on f l (u ∷ us) x b bs h more lt =
    let (vs, a, e) = snoc_view u us in
    let h' = subst (λ es. Lists l es) (e (x ∷ b ∷ bs)) h in
    let (k, run, left) = move_inner f l vs a x b bs h' more lt in
    let out = (Distinct-drop vs a x (b ∷ bs) h'.distinct).0 in
    let is_head : points_to l.head x.id ≡ false =
      ap (λ p. points_to p x.id) h'.from_head ∙ not_first vs a x (b ∷ bs) (x ∷ b ∷ bs) out in
    let before : last none (u ∷ us) ≡ some a.id =
      ap (λ es. last none es) (sym (append_nil (u ∷ us)) ∙ e []) ∙ last_same none vs a [] in
    (k, rw (is_head, before) run, subst (λ es. Lists k es) (sym (e (insert x (b ∷ bs)))) left)

-- `adjust_timer` of a timer in the list, whose `expire` may have grown, leaves the timers before it
-- alone and puts it, among those behind it, in front of the first one that expires later, or at the
-- end if none does; the links, the head and the tail are those of the new order. The fuel that the
-- loop needs is the number of timers behind it.
pub adjust_timer-Lists :
    (f : ℕ) (l : TimerList) (us : List Entry) (x : Entry) (bs : List Entry)
    → Lists l (us ++ x ∷ bs)
    → length bs ≤ f
    → (k : TimerList) × (adjust_timer f l (some x.id) ≡ ok k) × Lists k (us ++ insert x bs)
unfolding adjust_timer adjust_before
adjust_timer-Lists f l us x [] h le = (
  l,
  rw ((here_at l.heap none us x [] h.chain).0, adjust_timer) refl,
  stays l us x [] (insert x []) (insert_alone x) h,
)
adjust_timer-Lists f l us x (b ∷ bs) h le = elim (Bool-cases (ltb x.expire b.expire)) [
  | inl less ↦
      let (e, c) = here_at l.heap none us x (b ∷ bs) h.chain in
      (
        l,
        rw (e, adjust_timer) (rw (c.0, less) refl),
        stays l us x (b ∷ bs) (insert x (b ∷ bs)) (insert_before x b bs less) h,
      )
  | inr more ↦
      let (e, c) = here_at l.heap none us x (b ∷ bs) h.chain in
      let (k, run, left) = moves_on f l us x b bs h more (omega arith) in
      (k, rw (e, adjust_timer) (rw (c.0, more) run), left)
]

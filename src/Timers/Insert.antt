-- ===== src/Timers/Insert.antt =====
-- The private `add_timer`: its loop puts a timer at its place behind another one.
use cpp_server.Prelude.{
  ℕ, zero, suc, ◌<◌, ◌≡◌, refl, sym, ◌∙◌, ◌≢◌, inl, inr, true, false, Option, none, some, List, [],
  ◌∷◌, arith, ltb, length, Bool-cases,
}
use cpp_server.Http.State.{ok}
use cpp_server.Timers.{Heap, TimerList, store, insert_behind, link_last, link_before}
use cpp_server.Timers.Chain.{
  Entry, first, last, timer_of, Chain, NotIn, Distinct, store_self, store_other, set_next_at,
  set_prev_at,
}

-- Behind every entry that does not expire later.
unfoldable pub insert : Entry → List Entry → List Entry
insert x [] = x ∷ []
insert x (y ∷ ys) = elim (ltb x.expire y.expire) [ true ↦ x ∷ y ∷ ys | false ↦ y ∷ insert x ys ]

pub insert_alone : (x : Entry) → insert x [] ≡ x ∷ []
unfolding insert
insert_alone x = refl

pub insert_before :
    (x r : Entry) (rest : List Entry)
    → ltb x.expire r.expire ≡ true
    → insert x (r ∷ rest) ≡ x ∷ r ∷ rest
unfolding insert
insert_before x r rest less = rw (less, insert) refl

pub insert_after :
    (x r : Entry) (rest : List Entry)
    → ltb x.expire r.expire ≡ false
    → insert x (r ∷ rest) ≡ r ∷ insert x rest
unfolding insert
insert_after x r rest more = rw (more, insert) refl

-- What an insertion of `x` behind `pe` leaves.
pub record Inserted (x : Entry) (q : Option ℕ) (pe : Entry) (rest : List Entry) (l k : TimerList)
    : Type 0 where
  pub chained : Chain k.heap q (pe ∷ insert x rest) none
  pub at_tail : k.tail ≡ last (some pe.id) (insert x rest)
  pub same_head : k.head ≡ l.head
  pub frame : (j : ℕ) → NotIn j (pe ∷ rest) → j ≢ x.id → k.heap j ≡ l.heap j

at_end :
    (h : Heap) (x pe : Entry) (q p n : Option ℕ)
    → h pe.id ≡ some (timer_of pe q none)
    → h x.id ≡ some (timer_of x p n)
    → x.id ≢ pe.id
    → (k : Heap) × ((t : Option ℕ) (hd : Option ℕ)
        → link_last (record { heap = h; head = hd; tail = t }) x.id (some pe.id)
          ≡ ok (record { heap = k; head = hd; tail = some x.id }))
      × (k pe.id ≡ some (timer_of pe q (some x.id)))
      × (k x.id ≡ some (timer_of x (some pe.id) none))
      × ((j : ℕ) → j ≢ pe.id → j ≢ x.id → k j ≡ h j)
unfolding link_last
at_end h x pe q p n hp hx ne =
    let h1 = store h pe.id (timer_of pe q (some x.id)) in
    let h2 = store h1 x.id (timer_of x (some pe.id) n) in
    let h3 = store h2 x.id (timer_of x (some pe.id) none) in
    let e1 : h1 x.id ≡ some (timer_of x p n) = store_other h pe.id x.id _ ne ∙ hx in
    let e2 : h2 x.id ≡ some (timer_of x (some pe.id) n) = store_self h1 x.id _ in
    (
      h3,
      λ t hd.
          rw
            (
              set_next_at h pe.id (some x.id) _ hp,
              set_prev_at h1 x.id (some pe.id) _ e1,
              set_next_at h2 x.id none _ e2,
            )
            refl,
      store_other h2 x.id pe.id _ (λ eq. ne (sym eq))
          ∙ store_other h1 x.id pe.id _ (λ eq. ne (sym eq))
          ∙ store_self h pe.id _,
      store_self h2 x.id _,
      λ j jp jx.
          store_other h2 x.id j _ jx ∙ store_other h1 x.id j _ jx ∙ store_other h pe.id j _ jp,
    )

in_middle :
    (h : Heap) (x pe r : Entry) (q p n m : Option ℕ)
    → h pe.id ≡ some (timer_of pe q (some r.id))
    → h x.id ≡ some (timer_of x p n)
    → h r.id ≡ some (timer_of r (some pe.id) m)
    → x.id ≢ pe.id
    → x.id ≢ r.id
    → pe.id ≢ r.id
    → (k : Heap) × ((t : Option ℕ) (hd : Option ℕ)
        → link_before (record { heap = h; head = hd; tail = t }) x.id (some pe.id) r.id
          ≡ ok (record { heap = k; head = hd; tail = t }))
      × (k pe.id ≡ some (timer_of pe q (some x.id)))
      × (k x.id ≡ some (timer_of x (some pe.id) (some r.id)))
      × (k r.id ≡ some (timer_of r (some x.id) m))
      × ((j : ℕ) → j ≢ pe.id → j ≢ x.id → j ≢ r.id → k j ≡ h j)
unfolding link_before
in_middle h x pe r q p n m hp hx hr xp xr pr =
    let h1 = store h pe.id (timer_of pe q (some x.id)) in
    let h2 = store h1 x.id (timer_of x p (some r.id)) in
    let h3 = store h2 r.id (timer_of r (some x.id) m) in
    let h4 = store h3 x.id (timer_of x (some pe.id) (some r.id)) in
    let px : pe.id ≢ x.id = λ eq. xp (sym eq) in
    let rx : r.id ≢ x.id = λ eq. xr (sym eq) in
    let rp : r.id ≢ pe.id = λ eq. pr (sym eq) in
    let e1 : h1 x.id ≡ some (timer_of x p n) = store_other h pe.id x.id _ xp ∙ hx in
    let e2 : h2 r.id ≡ some (timer_of r (some pe.id) m) =
      store_other h1 x.id r.id _ rx ∙ store_other h pe.id r.id _ rp ∙ hr in
    let e3 : h3 x.id ≡ some (timer_of x p (some r.id)) =
      store_other h2 r.id x.id _ xr ∙ store_self h1 x.id _ in
    (
      h4,
      λ t hd.
          rw
            (
              set_next_at h pe.id (some x.id) _ hp,
              set_next_at h1 x.id (some r.id) _ e1,
              set_prev_at h2 r.id (some x.id) _ e2,
              set_prev_at h3 x.id (some pe.id) _ e3,
            )
            refl,
      store_other h3 x.id pe.id _ px
          ∙ store_other h2 r.id pe.id _ pr
          ∙ store_other h1 x.id pe.id _ px
          ∙ store_self h pe.id _,
      store_self h3 x.id _,
      store_other h3 x.id r.id _ rx ∙ store_self h2 r.id _,
      λ j jp jx jr.
          store_other h3 x.id j _ jx
          ∙ store_other h2 r.id j _ jr
          ∙ store_other h1 x.id j _ jx
          ∙ store_other h pe.id j _ jp,
    )

-- A chain does not see what changes at three other timers.
Chain-outside :
    (h k : Heap) (a b c : ℕ) (p : Option ℕ) (es : List Entry) (n : Option ℕ)
    → ((j : ℕ) → j ≢ a → j ≢ b → j ≢ c → k j ≡ h j)
    → NotIn a es
    → NotIn b es
    → NotIn c es
    → Chain h p es n
    → Chain k p es n
Chain-outside h k a b c p [] n same oa ob oc ch = tt
Chain-outside h k a b c p (e ∷ es) n same oa ob oc ch = (
  same e.id (λ eq. oa.0 (sym eq)) (λ eq. ob.0 (sym eq)) (λ eq. oc.0 (sym eq)) ∙ ch.0,
  Chain-outside h k a b c (some e.id) es n same oa.1 ob.1 oc.1 ch.1,
)

pub walk :
    (f : ℕ) (l : TimerList) (x : Entry) (p n q : Option ℕ) (pe : Entry) (rest : List Entry)
    → Chain l.heap q (pe ∷ rest) none
    → l.heap x.id ≡ some (timer_of x p n)
    → NotIn x.id (pe ∷ rest)
    → Distinct (pe ∷ rest)
    → l.tail ≡ last (some pe.id) rest
    → length rest < f
    → (k : TimerList) × (insert_behind f l x.id (some pe.id) (first rest none) ≡ ok k)
      × Inserted x q pe rest l k
unfolding insert_behind
walk zero l x p n q pe rest c hx out d ht lt = absurd (omega arith)
walk (suc f) l x p n q pe [] c hx out d ht lt =
    let (k, run, kp, kx, fr) = at_end l.heap x pe q p n c.0 hx out.0 in
    (
      record { heap = k; head = l.head; tail = some x.id },
      run l.tail l.head,
      record {
        chained = rw (insert_alone x) (kp, (kx, tt));
        at_tail = rw (insert_alone x) refl;
        same_head = refl;
        frame = λ j o jx. fr j o.0 jx;
      },
    )
walk (suc f) l x p n q pe (r ∷ rest) c hx out d ht lt = elim (Bool-cases (ltb x.expire r.expire)) [
  | inl less ↦
      let (k, run, kp, kx, kr, fr) =
        in_middle l.heap x pe r q p n (first rest none) c.0 hx c.1.0 out.0 out.1.0 d.0.0 in
      (
        record { heap = k; head = l.head; tail = l.tail },
        rw (hx, insert_behind) (rw (c.1.0, less) (run l.tail l.head)),
        record {
          chained = rw (insert_before x r rest less) (
            kp,
            (
              kx,
              (
                kr,
                Chain-outside l.heap k pe.id x.id r.id (some r.id) rest none fr d.0.1 out.1.1 d.1.0
                    c.1.1,
              ),
            ),
          );
          at_tail = rw (insert_before x r rest less) ht;
          same_head = refl;
          frame = λ j o jx. fr j o.0 jx o.1.0;
        },
      )
  | inr more ↦
      let (k, run, i) = walk f l x p n (some pe.id) r rest c.1 hx out.1 d.1 ht (omega arith) in
      (
        k,
        rw (hx, insert_behind) (rw (c.1.0, more) run),
        record {
          chained =
              rw (insert_after x r rest more)
                (i.frame pe.id d.0 (λ eq. out.0 (sym eq)) ∙ c.0, i.chained);
          at_tail = rw (insert_after x r rest more) i.at_tail;
          same_head = i.same_head;
          frame = λ j o jx. i.frame j o.1 jx;
        },
      )
]

-- ===== src/Timers/Add.antt =====
-- `add_timer` puts a timer at its place in the list.
use mathlib.Core.Path.{subst}
use cpp_server.Prelude.{
  ℕ, ◌≤◌, ◌≡◌, refl, sym, ◌∙◌, ◌≢◌, inl, inr, Option, none, some, List, [], ◌∷◌, arith, ltb, length,
  Bool-cases,
}
use cpp_server.Http.State.{ok}
use cpp_server.Timers.{Heap, TimerList, store, link_first, add_timer_from, add_timer, add_timer_at}
use cpp_server.Timers.Chain.{
  Entry, first, timer_of, Chain, NotIn, Distinct, Lists, store_self, store_other, set_next_at,
  set_prev_at, Chain-store,
}
use cpp_server.Timers.Insert.{insert, insert_alone, insert_before, insert_after, walk}

pub NotIn-insert :
    (j : ℕ) (x : Entry) (es : List Entry) → j ≢ x.id → NotIn j es → NotIn j (insert x es)
NotIn-insert j x [] ne out = rw (insert_alone x) (ne, tt)
NotIn-insert j x (r ∷ es) ne out = elim (Bool-cases (ltb x.expire r.expire)) [
  | inl less ↦ rw (insert_before x r es less) (ne, out)
  | inr more ↦ rw (insert_after x r es more) (out.0, NotIn-insert j x es ne out.1)
]

pub Distinct-insert :
    (x : Entry) (es : List Entry) → NotIn x.id es → Distinct es → Distinct (insert x es)
Distinct-insert x [] out d = rw (insert_alone x) (tt, tt)
Distinct-insert x (r ∷ es) out d = elim (Bool-cases (ltb x.expire r.expire)) [
  | inl less ↦ rw (insert_before x r es less) (out, d)
  | inr more ↦
      rw (insert_after x r es more)
        (NotIn-insert r.id x es (λ eq. out.0 (sym eq)) d.0, Distinct-insert x es out.1 d.1)
]

at_front :
    (h : Heap) (x e : Entry) (es : List Entry) (t : Option ℕ)
    → Chain h none (e ∷ es) none
    → h x.id ≡ some (timer_of x none none)
    → NotIn x.id (e ∷ es)
    → NotIn e.id es
    → (k : Heap) × ((hd : Option ℕ)
        → link_first (record { heap = h; head = hd; tail = t }) x.id e.id
          ≡ ok (record { heap = k; head = some x.id; tail = t }))
      × Chain k none (x ∷ e ∷ es) none
unfolding link_first
at_front h x e es t c hx out apart =
    let h1 = store h x.id (timer_of x none (some e.id)) in
    let xe : e.id ≢ x.id = λ eq. out.0 (sym eq) in
    let e1 : h1 e.id ≡ some (timer_of e none (first es none)) =
      store_other h x.id e.id _ xe ∙ c.0 in
    (
      store h1 e.id (timer_of e (some x.id) (first es none)),
      λ hd. rw (set_next_at h x.id (some e.id) _ hx, set_prev_at h1 e.id (some x.id) _ e1) refl,
      (
        store_other h1 e.id x.id _ out.0 ∙ store_self h x.id _,
        (
          store_self h1 e.id _,
          Chain-store h1 (some e.id) es none e.id _ apart
              (Chain-store h (some e.id) es none x.id _ out.1 c.1),
        ),
      ),
    )

-- `add_timer` of a new timer puts it into the list behind every timer that does not expire later;
-- the links in both directions, the head and the tail are those of the longer list. The fuel that
-- the loop needs is the length of the list.
pub add_timer-Lists :
    (f : ℕ) (l : TimerList) (x : Entry) (es : List Entry)
    → Lists l es
    → NotIn x.id es
    → l.heap x.id ≡ some (timer_of x none none)
    → length es ≤ f
    → (k : TimerList) × (add_timer f l (some x.id) ≡ ok k) × Lists k (insert x es)
unfolding add_timer add_timer_at add_timer_from
add_timer-Lists f l x [] h out hx le = (
  record { heap = l.heap; head = some x.id; tail = some x.id },
  subst
      (λ hd.
        add_timer_at f l x.id hd
        ≡ ok (record { heap = l.heap; head = some x.id; tail = some x.id }))
      (sym h.from_head) refl,
  rw (insert_alone x)
      (record { from_head = refl; to_tail = refl; chain = (hx, tt); distinct = (tt, tt) }),
)
add_timer-Lists f l x (e ∷ es) h out hx le = elim (Bool-cases (ltb x.expire e.expire)) [
  | inl less ↦
      let (k, run, c) = at_front l.heap x e es l.tail h.chain hx out h.distinct.0 in
      (
        record { heap = k; head = some x.id; tail = l.tail },
        subst
            (λ hd.
              add_timer_at f l x.id hd ≡ ok (record { heap = k; head = some x.id; tail = l.tail }))
            (sym h.from_head) (rw (hx, add_timer_at) (rw (h.chain.0, less) (run _))),
        rw (insert_before x e es less) (record {
          from_head = refl;
          to_tail = h.to_tail;
          chain = c;
          distinct = (out, h.distinct);
        }),
      )
  | inr more ↦
      let (k, run, i) =
        walk f l x none none none e es h.chain hx out h.distinct h.to_tail (omega arith) in
      (
        k,
        subst (λ hd. add_timer_at f l x.id hd ≡ ok k) (sym h.from_head)
            (rw (hx, add_timer_at) (rw (h.chain.0, more) (rw (h.chain.0, add_timer_from) run))),
        rw (insert_after x e es more) (record {
          from_head = i.same_head ∙ h.from_head;
          to_tail = i.at_tail;
          chain = i.chained;
          distinct = (
            NotIn-insert e.id x es (λ eq. out.0 (sym eq)) h.distinct.0,
            Distinct-insert x es out.1 h.distinct.1,
          );
        }),
      )
]

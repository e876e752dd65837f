-- ===== src/Timers/Bridge.antt =====
-- A chain from which one timer is passed over, by its two neighbours.
use cpp_server.Prelude.{
  ℕ, ◌≡◌, refl, sym, ap, ◌∙◌, ◌≢◌, false, Option, none, some, List, [], ◌∷◌, ◌++◌, ne→==,
}
use cpp_server.Timers.{Heap, TimerList, store, points_to}
use cpp_server.Timers.Chain.{
  Entry, first, last, timer_of, Chain, NotIn, Distinct, TailIs, store_self, store_other,
  Chain-store,
}

-- What `i ∉` says of a list in two parts.
pub NotIn-parts : (i : ℕ) (xs ys : List Entry) → NotIn i (xs ++ ys) → NotIn i xs × NotIn i ys
NotIn-parts i [] ys h = (tt, h)
NotIn-parts i (x ∷ xs) ys h = let (a, b) = NotIn-parts i xs ys h.1 in ((h.0, a), b)

pub NotIn-join : (i : ℕ) (xs ys : List Entry) → NotIn i xs → NotIn i ys → NotIn i (xs ++ ys)
NotIn-join i [] ys a b = b
NotIn-join i (x ∷ xs) ys a b = (a.0, NotIn-join i xs ys a.1 b)

-- The heap once `x`, between `a` and `bs`, is passed over in both directions; `q` is before `a`.
abbrev pub bridge : Heap → Option ℕ → Entry → List Entry → Heap
bridge h q a [] = store h a.id (timer_of a q none)
bridge h q a (b ∷ bs) =
    store (store h a.id (timer_of a q (some b.id))) b.id (timer_of b (some a.id) (first bs none))

pub bridge_other :
    (h : Heap) (q : Option ℕ) (a : Entry) (bs : List Entry) (j : ℕ)
    → j ≢ a.id
    → NotIn j bs
    → bridge h q a bs j ≡ h j
bridge_other h q a [] j ja out = store_other h a.id j _ ja
bridge_other h q a (b ∷ bs) j ja out = store_other _ b.id j _ out.0 ∙ store_other h a.id j _ ja

pub first_same :
    (us : List Entry) (a : Entry) (xs ys : List Entry)
    → first (us ++ a ∷ xs) none ≡ first (us ++ a ∷ ys) none
first_same [] a xs ys = refl
first_same (u ∷ us) a xs ys = refl

-- What stands in the heap around `x`.
pub record Around (h : Heap) (p : Option ℕ) (us : List Entry) (a x : Entry) (bs : List Entry)
    : Type 0 where
  pub before : h a.id ≡ some (timer_of a (last p us) (some x.id))
  pub here : h x.id ≡ some (timer_of x (some a.id) (first bs none))
  pub behind : Chain h (some x.id) bs none
  pub bridged : Chain (bridge h (last p us) a bs) p (us ++ a ∷ bs) none

pub around :
    (h : Heap) (p : Option ℕ) (us : List Entry) (a x : Entry) (bs : List Entry)
    → Chain h p (us ++ a ∷ x ∷ bs) none
    → Distinct (us ++ a ∷ x ∷ bs)
    → Around h p us a x bs
around h p [] a x [] c d = record {
  before = c.0;
  here = c.1.0;
  behind = tt;
  bridged = (store_self h a.id _, tt);
}
around h p [] a x (b ∷ bs) c d = record {
  before = c.0;
  here = c.1.0;
  behind = c.1.1;
  bridged = (
    store_other _ b.id a.id _ d.0.1.0 ∙ store_self h a.id _,
    (
      store_self _ b.id _,
      Chain-store _ (some b.id) bs none b.id _ d.1.1.0
          (Chain-store h (some b.id) bs none a.id _ d.0.1.1 c.1.1.1),
    ),
  );
}
around h p (e ∷ us) a x bs c d =
    let r = around h (some e.id) us a x bs c.1 d.1 in
    let out = (NotIn-parts e.id us (a ∷ x ∷ bs) d.0).1 in
    record {
      before = r.before;
      here = r.here;
      behind = r.behind;
      bridged = (
        bridge_other h (last (some e.id) us) a bs e.id out.0 out.1.1
            ∙ c.0
            ∙ ap (λ n. some (timer_of e p n)) (first_same us a (x ∷ bs) bs),
        r.bridged,
      );
    }

pub last_same :
    (p : Option ℕ) (us : List Entry) (a : Entry) (bs : List Entry)
    → last p (us ++ a ∷ bs) ≡ last (some a.id) bs
last_same p [] a bs = refl
last_same p (u ∷ us) a bs = last_same (some u.id) us a bs

pub NotIn-last :
    (x e : Entry) (es : List Entry)
    → NotIn x.id (e ∷ es)
    → points_to (last (some e.id) es) x.id ≡ false
NotIn-last x e [] out = ne→== e.id x.id (λ eq. out.0 (sym eq))
NotIn-last x e (r ∷ es) out = NotIn-last x r es out.1

pub Distinct-drop :
    (us : List Entry) (a x : Entry) (bs : List Entry)
    → Distinct (us ++ a ∷ x ∷ bs)
    → NotIn x.id (us ++ a ∷ bs) × Distinct (us ++ a ∷ bs)
Distinct-drop [] a x bs d = (((λ eq. d.0.0 (sym eq)), d.1.0), (d.0.1, d.1.1))
Distinct-drop (u ∷ us) a x bs d =
    let (out, rest) = Distinct-drop us a x bs d.1 in
    let (ou, ox) = NotIn-parts u.id us (a ∷ x ∷ bs) d.0 in
    (((λ eq. ox.1.0 (sym eq)), out), (NotIn-join u.id us (a ∷ bs) ou (ox.0, ox.1.1), rest))

pub not_first :
    (us : List Entry) (a x : Entry) (bs cs : List Entry)
    → NotIn x.id (us ++ a ∷ bs)
    → points_to (first (us ++ a ∷ cs) none) x.id ≡ false
not_first [] a x bs cs out = ne→== a.id x.id (λ eq. out.0 (sym eq))
not_first (u ∷ us) a x bs cs out = ne→== u.id x.id (λ eq. out.0 (sym eq))

pub to_last :
    (l : TimerList) (us : List Entry) (a : Entry) (bs : List Entry)
    → TailIs l (us ++ a ∷ bs)
    → l.tail ≡ last (some a.id) bs
to_last l [] a bs t = t
to_last l (u ∷ us) a bs t = t ∙ last_same (some u.id) us a bs

pub from_last :
    (l : TimerList) (us : List Entry) (a : Entry) (bs : List Entry)
    → l.tail ≡ last (some a.id) bs
    → TailIs l (us ++ a ∷ bs)
from_last l [] a bs t = t
from_last l (u ∷ us) a bs t = t ∙ sym (last_same (some u.id) us a bs)

-- The last entry of a list that is not empty, whatever follows it.
pub snoc_view :
    (u : Entry) (us : List Entry)
    → (vs : List Entry) × (a : Entry) × ((ys : List Entry) → (u ∷ us) ++ ys ≡ vs ++ a ∷ ys)
snoc_view u [] = ([], u, λ ys. refl)
snoc_view u (v ∷ us) =
    let (vs, a, e) = snoc_view v us in (u ∷ vs, a, λ ys. ap (λ zs. u ∷ zs) (e ys))

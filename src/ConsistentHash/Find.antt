-- ===== src/ConsistentHash/Find.antt =====
-- `find` against the ring as a circle: the node whose key is the first one clockwise.
use cpp_server.Prelude.{
  ℕ, suc, ◌+◌, ◌-◌, ◌%◌, ◌≤◌, ◌<◌, ◌≡◌, refl, true, false, none, some, [], ◌∷◌, arith, leb,
  Bool-cases, inl, inr, ◌⊎◌, leb→le, length, get_elem?, if◌then◌else◌, ne→==,
}
use cpp_server.ConsistentHash.{
  Vnode, Nodes, word, lower_bound, find, found, aborts, faults, is_empty,
}
use cpp_server.ConsistentHash.Order.{AllKeys, IsSorted, AllKeys-both}

-- The way clockwise from `h` to `k`.
abbrev pub distance : ℕ → ℕ → ℕ
distance h k = (k + word - h) % word

leb→lt : (a b : ℕ) → leb a b ≡ false → b < a
leb→lt a b e = ground arith

-- The pair `(k, v)` stands on the ring, and no key is nearer to `h`.
pub record Nearest (h : ℕ) (ns : Nodes) (k : ℕ) (v : Vnode) : Type 0 where
  pub place : ℕ
  pub stands : get_elem? ns place ≡ some (k, v)
  pub nearest : AllKeys (λ j. distance h k ≤ distance h j) ns

-- What `lower_bound` finds.
abbrev Bounded : ℕ → Nodes → Type 0
Bounded h ns =
    ((lower_bound h ns ≡ none) × AllKeys (λ j. j < h) ns)
    ⊎ ((k : ℕ) × (v : Vnode) × (lower_bound h ns ≡ some (k, v))
        × (h ≤ k)
        × (k < word)
        × Nearest h ns k v)

lower_bound-Bounded :
    (h : ℕ) (ns : Nodes) → IsSorted ns → AllKeys (λ j. j < word) ns → h < word → Bounded h ns
unfolding lower_bound
lower_bound-Bounded h [] s a lt = inl (refl, tt)
lower_bound-Bounded h ((k, v) ∷ ns) s a lt = elim (Bool-cases (leb h k)) [
  | inl ahead ↦
      let le = leb→le _ _ ahead in
      let further =
        AllKeys-both (λ j. k < j) (λ j. j < word) (λ j. distance h k ≤ distance h j) ns
          (λ j p q. omega arith) s.0 a.1 in
      inr (
        k,
        v,
        rw (ahead, lower_bound) refl,
        le,
        a.0,
        record { place = 0; stands = refl; nearest = (omega arith, further) },
      )
  | inr behind ↦
      let below = leb→lt _ _ behind in
      elim (lower_bound-Bounded h ns s.1 a.1 lt) [
        | inl (e, all) ↦ inl (rw (behind, lower_bound) e, (below, all))
        | inr (j, u, e, le, lt', near) ↦ inr (
          j,
          u,
          rw (behind, lower_bound) e,
          le,
          lt',
          record {
            place = suc near.place;
            stands = near.stands;
            nearest = (omega arith, near.nearest);
          },
        )
      ]
]

-- On a ring in order `find` gives the node of the key that is the first one clockwise from the
-- hash, where the `assert` is not compiled.
pub find-Nearest :
    (h : ℕ) (ns : Nodes)
    → IsSorted ns
    → AllKeys (λ j. j < word) ns
    → h < word
    → 0 < length ns
    → (k : ℕ) × (v : Vnode) × (find true h ns ≡ found v.node_id) × Nearest h ns k v
unfolding find
find-Nearest h [] s a lt full = absurd (omega arith)
find-Nearest h ((k, v) ∷ ns) s a lt full = elim (lower_bound-Bounded h ((k, v) ∷ ns) s a lt) [
  | inl (e, all) ↦
      let further =
        AllKeys-both (λ j. k < j) (λ j. j < h) (λ j. distance h k ≤ distance h j) ns
          (λ j p q. omega arith) s.0 all.1 in
      (k, v, rw e refl, record { place = 0; stands = refl; nearest = (omega arith, further) })
  | inr (j, u, e, le, lt', near) ↦ (j, u, rw e refl, near)
]

-- Where the `assert` is compiled `find` never gives a node: it aborts on every ring that is not
-- empty, and uses `end()` of an empty one.
pub find_never : (h : ℕ) (ns : Nodes) → find false h ns ≡ (if is_empty ns then faults else aborts)
unfolding find is_empty lower_bound
find_never h [] = refl
find_never h (p ∷ ns) = rw (ne→== 0 (suc (length ns)) (omega arith)) refl

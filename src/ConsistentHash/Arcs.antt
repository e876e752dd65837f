-- ===== src/ConsistentHash/Arcs.antt =====
-- `Describe`: the arcs of the circle, summed up for each node.
use mathlib.Core.Path.{subst}
use mathlib.Core.Option.{some-injective}
use cpp_server.Prelude.{
  ℕ, zero, suc, ◌+◌, ◌≤◌, ◌<◌, ◌≡◌, refl, sym, ◌∙◌, some, List, [], ◌∷◌, ℤ, pos, negsuc, arith,
  length, get_elem?, set, replicate, get_elem?_in, length-set, length-replicate, inl, inr, ltb,
  Bool-cases, ltb→lt, ltb→le,
}
use cpp_server.Http.State.{ok}
use cpp_server.ConsistentHash.{
  Nodes, word, add_sum, add_arcs, describe, max_node_id, max_ℤ, to_cells, sub_word, first_arc,
  last_key,
}
use cpp_server.ConsistentHash.Order.{AllKeys, IsSorted}

abbrev pub total : List ℕ → ℕ
total [] = 0
total (s ∷ sums) = s + total sums

total-set :
    (sums : List ℕ) (i s n : ℕ)
    → get_elem? sums i ≡ some s
    → total (set sums i (s + n)) ≡ total sums + n
total-set [] i s n e = absurd (cc)
total-set (t ∷ sums) zero s n e = let same = some-injective _ _ e in omega arith
total-set (t ∷ sums) (suc i) s n e = omega (arith, total-set sums i s n e)

total-replicate : (n : ℕ) → total (replicate n 0) ≡ 0
total-replicate zero = refl
total-replicate (suc n) = omega (arith, total-replicate n)

-- The numbers of the nodes are not negative, and below `m`.
abbrev pub AllIds : ℕ → Nodes → Type 0
AllIds m [] = Unit
AllIds m ((k, v) ∷ ns) = ((i : ℕ) × (v.node_id ≡ pos i) × (i < m)) × AllIds m ns

add_sum-in :
    (sums : List ℕ) (id : ℤ) (n i : ℕ)
    → id ≡ pos i
    → i < length sums
    → (sums' : List ℕ) × (add_sum sums id n ≡ ok sums')
      × (length sums' ≡ length sums)
      × (total sums' ≡ total sums + n)
unfolding add_sum
add_sum-in sums id n i e lt =
    let (s, at) = get_elem?_in sums i lt in
    (
      set sums i (s + n),
      rw e (rw (at, add_sum) refl),
      length-set sums i (s + n),
      total-set sums i s n at,
    )

add_arcs-total :
    (priv : ℕ) (ns : Nodes) (sums : List ℕ)
    → IsSorted ns
    → AllKeys (λ j. priv < j) ns
    → AllKeys (λ j. j < word) ns
    → AllIds (length sums) ns
    → (sums' : List ℕ) × (add_arcs priv ns sums ≡ ok sums')
      × (total sums' + priv ≡ total sums + last_key priv ns)
unfolding add_arcs
add_arcs-total priv [] sums s a b ids = (sums, refl, refl)
add_arcs-total priv ((k, v) ∷ ns) sums s a b ids =
    let (i, e, lt) = ids.0 in
    let (sums1, e1, len, tot) = add_sum-in sums v.node_id (sub_word k priv) i e lt in
    let (sums2, e2, tot2) =
      add_arcs-total k ns sums1 s.1 s.0 b.1 (subst (λ m. AllIds m ns) (sym len) ids.1) in
    (sums2, rw (e1, add_arcs) e2, omega arith)

last_key-in :
    (k : ℕ) (ns : Nodes)
    → IsSorted ns
    → AllKeys (λ j. k < j) ns
    → AllKeys (λ j. j < word) ns
    → k < word
    → (k ≤ last_key k ns) × (last_key k ns < word)
last_key-in k [] s a b lt = (omega arith, lt)
last_key-in k ((j, v) ∷ ns) s a b lt =
    let (ge, below) = last_key-in j ns s.1 s.0 b.1 b.0 in (omega arith, below)

abbrev pub NonNegative : Nodes → Type 0
NonNegative [] = Unit
NonNegative ((k, v) ∷ ns) = ((i : ℕ) × (v.node_id ≡ pos i)) × NonNegative ns

max_ℤ-cells :
    (m v : ℤ) (i : ℕ) → v ≡ pos i → (to_cells m ≤ to_cells (max_ℤ m v)) × (i < to_cells (max_ℤ m v))
max_ℤ-cells (negsuc a) v i e = rw e (omega arith, omega arith)
max_ℤ-cells (pos a) v i e = rw e (elim (Bool-cases (ltb a i)) [
  | inl lt ↦ rw lt (let l = ltb→lt _ _ lt in (omega arith, omega arith))
  | inr ge ↦ rw ge (let l = ltb→le _ _ ge in (omega arith, omega arith))
])

-- No node is above the greatest.
max_node_id-AllIds :
    (m : ℤ) (ns : Nodes)
    → NonNegative ns
    → (to_cells m ≤ to_cells (max_node_id m ns)) × AllIds (to_cells (max_node_id m ns)) ns
unfolding max_node_id
max_node_id-AllIds m [] a = (omega arith, tt)
max_node_id-AllIds m ((k, v) ∷ ns) a =
    let (i, e) = a.0 in
    let (keeps, covers) = max_ℤ-cells m v.node_id i e in
    let (grows, all) = max_node_id-AllIds (max_ℤ m v.node_id) ns a.1 in
    (omega arith, ((i, e, omega arith), all))

-- On a ring in order whose nodes have numbers that are not negative, `Describe` writes no cell
-- outside its array, and the sums of the nodes are together the whole circle but one.
pub describe-total :
    (ns : Nodes)
    → IsSorted ns
    → AllKeys (λ j. j < word) ns
    → NonNegative ns
    → 0 < length ns
    → (sums : List ℕ) × (describe ns ≡ ok sums) × (total sums + 1 ≡ word)
unfolding describe
describe-total [] s a ids full = absurd (omega arith)
describe-total ((first, v) ∷ ns) s a ids full =
    let ring = (first, v) ∷ ns in
    let cells = to_cells (max_node_id (negsuc 0) ring) in
    let all : AllIds cells ring = (max_node_id-AllIds (negsuc 0) ring ids).1 in
    let len : length (replicate {A = ℕ} cells 0) ≡ cells = length-replicate {A = ℕ} cells 0 in
    let last = last_key-in first ns s.1 s.0 a.1 a.0 in
    let (i, e, lt) = all.0 in
    let (sums1, e1, len1, tot1) =
      add_sum-in (replicate cells 0) v.node_id (first_arc first (last_key first ns)) i e
        (omega (arith, len, lt)) in
    let (sums2, e2, tot2) =
      add_arcs-total first ns sums1 s.1 s.0 a.1
        (subst (λ m. AllIds m ns) (sym (len1 ∙ len)) all.1) in
    (sums2, rw (e1, describe) e2, omega (arith, total-replicate cells, tot1, tot2, last.0, last.1))

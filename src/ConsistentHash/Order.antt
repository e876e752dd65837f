-- ===== src/ConsistentHash/Order.antt =====
-- The ring stays in the order of its keys.
use cpp_server.Prelude.{
  ℕ, ◌<◌, [], ◌∷◌, arith, ltb, ◌==◌, Bool-cases, inl, inr, ltb→lt, ltb→le, ==→ne,
}
use cpp_server.ConsistentHash.{Vnode, Nodes, emplace, erase_key}

-- Every key of the ring satisfies `P`.
abbrev pub AllKeys : (ℕ → Type 0) → Nodes → Type 0
AllKeys P [] = Unit
AllKeys P ((k, v) ∷ ns) = P k × AllKeys P ns

abbrev pub IsSorted : Nodes → Type 0
IsSorted [] = Unit
IsSorted ((k, v) ∷ ns) = AllKeys (λ j. k < j) ns × IsSorted ns

pub AllKeys-map :
    (P Q : ℕ → Type 0) (ns : Nodes) → ((k : ℕ) → P k → Q k) → AllKeys P ns → AllKeys Q ns
AllKeys-map P Q [] f a = tt
AllKeys-map P Q ((k, v) ∷ ns) f a = (f k a.0, AllKeys-map P Q ns f a.1)

pub AllKeys-both :
    (P Q R : ℕ → Type 0) (ns : Nodes)
    → ((k : ℕ) → P k → Q k → R k)
    → AllKeys P ns
    → AllKeys Q ns
    → AllKeys R ns
AllKeys-both P Q R [] f a b = tt
AllKeys-both P Q R ((k, v) ∷ ns) f a b = (f k a.0 b.0, AllKeys-both P Q R ns f a.1 b.1)

pub emplace-AllKeys :
    (P : ℕ → Type 0) (key : ℕ) (v : Vnode) (ns : Nodes)
    → P key
    → AllKeys P ns
    → AllKeys P (emplace key v ns).1
unfolding emplace
emplace-AllKeys P key v [] p a = (p, tt)
emplace-AllKeys P key v ((k, u) ∷ ns) p a = elim (Bool-cases (ltb key k)) [
  | inl below ↦ rw (below, emplace) (p, a)
  | inr not_below ↦ elim (Bool-cases (key == k)) [
    | inl same ↦ rw (not_below, emplace) (rw same a)
    | inr other ↦ rw (not_below, emplace) (rw other (a.0, emplace-AllKeys P key v ns p a.1))
  ]
]

pub emplace-IsSorted :
    (key : ℕ) (v : Vnode) (ns : Nodes) → IsSorted ns → IsSorted (emplace key v ns).1
unfolding emplace
emplace-IsSorted key v [] a = (tt, tt)
emplace-IsSorted key v ((k, u) ∷ ns) a = elim (Bool-cases (ltb key k)) [
  | inl below ↦
      let lt = ltb→lt _ _ below in
      rw (below, emplace)
        ((lt, AllKeys-map (λ j. k < j) (λ j. key < j) ns (λ j h. omega arith) a.0), a)
  | inr not_below ↦ elim (Bool-cases (key == k)) [
    | inl same ↦ rw (not_below, emplace) (rw same a)
    | inr other ↦
        let ne = ==→ne _ _ other in
        let le = ltb→le _ _ not_below in
        rw (not_below, emplace)
          (rw other (
            emplace-AllKeys (λ j. k < j) key v ns (omega arith) a.0,
            emplace-IsSorted key v ns a.1,
          ))
  ]
]

pub erase_key-AllKeys :
    (P : ℕ → Type 0) (key : ℕ) (ns : Nodes) → AllKeys P ns → AllKeys P (erase_key key ns).1
unfolding erase_key
erase_key-AllKeys P key [] a = tt
erase_key-AllKeys P key ((k, u) ∷ ns) a = elim (Bool-cases (key == k)) [
  | inl same ↦ rw (same, erase_key) a.1
  | inr other ↦ rw (other, erase_key) (a.0, erase_key-AllKeys P key ns a.1)
]

pub erase_key-IsSorted : (key : ℕ) (ns : Nodes) → IsSorted ns → IsSorted (erase_key key ns).1
unfolding erase_key
erase_key-IsSorted key [] a = tt
erase_key-IsSorted key ((k, u) ∷ ns) a = elim (Bool-cases (key == k)) [
  | inl same ↦ rw (same, erase_key) a.1
  | inr other ↦
      rw (other, erase_key)
        (erase_key-AllKeys (λ j. k < j) key ns a.0, erase_key-IsSorted key ns a.1)
]

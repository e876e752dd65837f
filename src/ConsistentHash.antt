-- ===== src/ConsistentHash.antt =====
-- ocean_im/oceanim/util/consistent_hash.h: the ring of virtual nodes.
-- `std::map` is the list of its pairs in the order of the keys, an iterator a place in it. The hash
-- of a virtual node, butil's CRC, is an argument; it is a number of 32 bits.
pub mod Order
pub mod Find
pub mod Stable
pub mod Arcs
mod Tests
use cpp_server.Prelude.{
  ℕ, zero, suc, ◌+◌, ◌-◌, ◌%◌, ◌^◌, Bool, true, false, not, ◌&&◌, Option, none, some, List, [], ◌∷◌,
  ◌++◌, ℤ, pos, negsuc, ltb, leb, ◌==◌, if◌then◌else◌, length, get_elem?, set, replicate,
}
use cpp_server.CString.{codes, joined}
use cpp_server.CString.Decimal.{print_nat}
use cpp_server.Http.State.{Run, ok, undefined, ◌>>=◌}

-- `UINT32_MAX + 1`
abbrev pub word : ℕ
word = 4294967296

pub record Vnode : Type 0 where
  pub node_id : ℤ
  pub vnode_id : ℤ

abbrev pub Nodes : Type 0
Nodes = List (ℕ × Vnode)

unfoldable pub size : Nodes → ℕ
size ns = length ns

unfoldable pub is_empty : Nodes → Bool
is_empty ns = 0 == length ns

-- `emplace(key, node)`: a key that is there keeps its node.
unfoldable pub emplace : ℕ → Vnode → Nodes → Bool × Nodes
emplace key v [] = (true, (key, v) ∷ [])
emplace key v ((k, u) ∷ ns) =
    let (done, rest) = emplace key v ns in
    if ltb key k
    then (true, (key, v) ∷ (k, u) ∷ ns)
    else if key == k
    then (false, (k, u) ∷ ns)
    else (done, (k, u) ∷ rest)

unfoldable pub insert : (Vnode → ℕ) → Vnode → Nodes → Bool × Nodes
insert hash v ns = emplace (hash v) v ns

-- `erase(key)`, with the number of the nodes that it removes.
unfoldable pub erase_key : ℕ → Nodes → ℕ × Nodes
erase_key key [] = (0, [])
erase_key key ((k, u) ∷ ns) =
    let (count, rest) = erase_key key ns in if key == k then (1, ns) else (count, (k, u) ∷ rest)

unfoldable pub earse : (Vnode → ℕ) → Vnode → Nodes → ℕ × Nodes
earse hash v ns = erase_key (hash v) ns

-- `earse(iterator)`; `end()` may not be erased.
unfoldable pub earse_at : ℕ → Nodes → Run Nodes
earse_at i [] = undefined
earse_at zero (p ∷ ns) = ok ns
earse_at (suc i) (p ∷ ns) = earse_at i ns >>= λ rest. ok (p ∷ rest)

-- The first pair whose key is not below `key`; `none` is `end()`.
unfoldable pub lower_bound : ℕ → Nodes → Option (ℕ × Vnode)
lower_bound key [] = none
lower_bound key ((k, u) ∷ ns) = elim (leb key k) [ true ↦ some (k, u) | false ↦ lower_bound key ns ]

-- What `find` comes to; `aborts` is the `assert`, `faults` the use of `end()`.
pub data Found : Type 0 where
  found : ℤ → Found
  aborts faults : Found

abbrev pub node_at : Option (ℕ × Vnode) → Nodes → Found
node_at (some (k, v)) ns = found v.node_id
node_at none [] = faults
node_at none ((k, v) ∷ ns) = found v.node_id

-- `find(hash)`; with `ndebug` the `assert` is not compiled.
unfoldable pub find : Bool → ℕ → Nodes → Found
find ndebug hash ns =
    if not ndebug && not (is_empty ns) then aborts else node_at (lower_bound hash ns) ns

abbrev max_ℤ : ℤ → ℤ → ℤ
max_ℤ (negsuc a) (pos b) = pos b
max_ℤ (pos a) (negsuc b) = pos a
max_ℤ (pos a) (pos b) = pos (if ltb a b then b else a)
max_ℤ (negsuc a) (negsuc b) = negsuc (if ltb a b then a else b)

unfoldable pub max_node_id : ℤ → Nodes → ℤ
max_node_id m [] = m
max_node_id m ((k, v) ∷ ns) = max_node_id (max_ℤ m v.node_id) ns

-- `a - b` of unsigned 32-bit numbers.
abbrev pub sub_word : ℕ → ℕ → ℕ
sub_word a b = (a + word - b) % word

-- `sums[id] += n`
unfoldable pub add_sum : List ℕ → ℤ → ℕ → Run (List ℕ)
add_sum sums (negsuc k) n = undefined
add_sum sums (pos i) n = elim (get_elem? sums i) [
  | none ↦ undefined
  | some s ↦ ok (set sums i (s + n))
]

-- The loop `while (++i != end)`; `priv` is the key before.
unfoldable pub add_arcs : ℕ → Nodes → List ℕ → Run (List ℕ)
add_arcs priv [] sums = ok sums
add_arcs priv ((cur, v) ∷ ns) sums = add_sum sums v.node_id (sub_word cur priv) >>= add_arcs cur ns

abbrev last_key : ℕ → Nodes → ℕ
last_key k [] = k
last_key k ((k', v) ∷ ns) = last_key k' ns

-- The cells of `new int64_t[max_node_id + 1]{}`.
abbrev pub to_cells : ℤ → ℕ
to_cells (pos m) = m + 1
to_cells (negsuc m) = 0

-- `UINT32_MAX - j->first + i->first`, on 32 bits.
abbrev pub first_arc : ℕ → ℕ → ℕ
first_arc first last = (sub_word (word - 1) last + first) % word

-- The sums of `Describe`; `rbegin()` of an empty ring points nowhere.
unfoldable pub describe : Nodes → Run (List ℕ)
describe [] = undefined
describe ((first, v) ∷ ns) =
    add_sum (replicate (to_cells (max_node_id (negsuc 0) ((first, v) ∷ ns))) 0) v.node_id
      (first_arc first (last_key first ns))
    >>= add_arcs first ns

-- What `Describe` writes of the sums, from node `i` on.
unfoldable pub print_sums : ℕ → List ℕ → List ℕ
print_sums i [] = 10 ∷ []
print_sums i (s ∷ sums) = joined (
    codes "node="
    ∷ print_nat i
    ∷ codes "contains="
    ∷ print_nat s
    ∷ codes " "
    ∷ print_sums (i + 1) sums
    ∷ [])

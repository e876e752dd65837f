-- ===== src/ConsistentHash/Tests.antt =====
-- A ring of three virtual nodes of two nodes.
use cpp_server.Prelude.{ℕ, ◌≡◌, ◌<◌, ◌+◌, refl, true, List, [], ◌∷◌, pos, arith}
use cpp_server.Http.State.{ok}
use cpp_server.ConsistentHash.{
  Vnode, Nodes, word, found, find, describe, lower_bound, max_node_id, add_sum, add_arcs,
}
use cpp_server.ConsistentHash.Order.{AllKeys, IsSorted}
use cpp_server.ConsistentHash.Find.{Nearest, find-Nearest}
use cpp_server.ConsistentHash.Arcs.{total, describe-total}

abbrev vnode : ℕ → ℕ → Vnode
vnode n v = record { node_id = pos n; vnode_id = pos v }

abbrev ring : Nodes
ring = (100, vnode 1 0) ∷ (2000, vnode 0 0) ∷ (4000000000, vnode 1 1) ∷ []

ring-IsSorted : IsSorted ring
ring-IsSorted = ((omega arith, (omega arith, tt)), ((omega arith, tt), (tt, tt)))

ring_in : AllKeys (λ j. j < word) ring
ring_in = (omega arith, (omega arith, (omega arith, tt)))

-- The search goes round the end of the ring.
find_wraps : (find true 4100000000 ring ≡ found (pos 1)) × (find true 101 ring ≡ found (pos 0))
unfolding find lower_bound
find_wraps = (refl, refl)

find-Nearest_example :
    (k : ℕ) × (v : Vnode) × (find true 4100000000 ring ≡ found v.node_id)
    × Nearest 4100000000 ring k v
find-Nearest_example =
    find-Nearest 4100000000 ring ring-IsSorted ring_in (omega arith) (omega arith)

abbrev hash : Vnode → ℕ
hash v = 3000

sums_of_ring : describe ring ≡ ok (1900 ∷ 4294965395 ∷ [])
unfolding describe add_arcs add_sum max_node_id
sums_of_ring = refl

describe-total_example : (sums : List ℕ) × (describe ring ≡ ok sums) × (total sums + 1 ≡ word)
describe-total_example =
    describe-total ring ring-IsSorted ring_in ((1, refl), ((0, refl), ((1, refl), tt)))
      (omega arith)

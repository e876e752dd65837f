-- ===== src/ConsistentHash/Stable.antt =====
-- What a change of the ring does to the hashes: only those of the new or the old node move.
use cpp_server.Prelude.{ℕ, Bool, false, get_elem?, ◌≡◌, true, some, ◌⊎◌}
use cpp_server.ConsistentHash.{Vnode, Nodes, lower_bound}

-- A key that is new is found afterwards; one that is there leaves the ring as it is.
abbrev Emplaced : ℕ → Vnode → Nodes → Bool × Nodes → Type 0
Emplaced key v ns r =
    ((r.0 ≡ true) × (lower_bound key r.1 ≡ some (key, v)))
    ⊎ ((r.0 ≡ false) × (r.1 ≡ ns) × (i : ℕ) × (u : Vnode) × (get_elem? ns i ≡ some (key, u)))

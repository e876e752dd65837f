-- ===== src/BlockQueue/Inv.antt =====
-- The representation invariant of block_queue, and the index behind another one.
use cpp_server.Prelude.{ℕ, zero, suc, ◌+◌, ◌%◌, ◌≤◌, ◌<◌, ◌≡◌, refl, ℤ, pos, negsuc, length}
use cpp_server.BlockQueue.{BlockQueue, next_index}

-- One past an index: 0 for the -1 of an index that has not been used.
abbrev pub slot : ℤ → ℕ
slot (pos i) = i + 1
slot (negsuc k) = 0

abbrev pub InArray : ℤ → ℕ → Type 0
InArray (pos i) n = i < n
InArray (negsuc zero) n = Unit
InArray (negsuc (suc k)) n = ⊥

pub record IsValid {ℓ} {A : Type ℓ} (q : BlockQueue A) : Type 0 where
  pub room : 0 < q.max_size
  pub storage : q.max_size ≤ length q.array
  pub size_in : q.size ≤ q.max_size
  pub front_in : InArray q.front q.max_size
  pub back_in : InArray q.back q.max_size
  pub used : 0 < q.size → 0 < slot q.back
  pub linked : slot q.back % q.max_size ≡ (slot q.front + q.size) % q.max_size

pub next_index-slot : (i : ℤ) (n : ℕ) → InArray i n → next_index i n ≡ pos (slot i % n)
next_index-slot (pos i) n h = refl
next_index-slot (negsuc zero) n h = refl
next_index-slot (negsuc (suc k)) n h = elim h [ ]

-- ===== src/Prelude/Mod.antt =====
-- Laws of `%` by a variable, for indices that go round an array.
use Prim.Native.Nat.{ℕ, suc, ◌+◌, ◌-◌, ◌%◌, ◌<◌}
use mathlib.Core.Logic.{◌≢◌}
use native.Mathlib.Nat.{mod-eq_of_lt, mod-eq-sub-mod}
use native.Mathlib.Decide.{dec_lt}
use native.Mathlib.Omega.{arith}

-- Fewer than `m` steps round do not come back to the start.
pub mod_ne_of_lt : (m a d : ℕ) → a < m → suc d < m → (a + suc d) % m ≢ a
mod_ne_of_lt m a d ha hd = elim (dec_lt (a + suc d) m) [
  | yes p ↦ omega (arith, mod-eq_of_lt p)
  | no p ↦ omega (
    arith,
    mod-eq-sub-mod {n = a + suc d} {m = m} (omega arith),
    mod-eq_of_lt {n = a + suc d - m} {m = m} (omega arith),
  )
]

-- ===== src/Prelude/Words.antt =====
-- Remainders of numbers below twice the modulus.
use Prim.Native.Nat.{ℕ, ◌+◌, ◌-◌, ◌%◌, ◌<◌}
use mathlib.Core.Path.{◌≡◌}
use native.Mathlib.Nat.{mod-eq_of_lt, mod-eq-sub-mod}
use native.Mathlib.Decide.{dec_lt}
use native.Mathlib.Omega.{arith}
use can_systems.Prelude.Tests.{ltb, if◌then◌else◌}

pub mod-wrap : (x n : ℕ) → x < n + n → x % n ≡ (if ltb x n then x else x - n)
mod-wrap x n h = elim (dec_lt x n) [
  | yes p ↦ ground (arith, mod-eq_of_lt {n = x} {m = n} p)
  | no p ↦ ground (
    arith,
    mod-eq-sub-mod {n = x} {m = n} (omega arith),
    mod-eq_of_lt {n = x - n} {m = n} (omega arith),
  )
]

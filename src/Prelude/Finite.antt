-- ===== src/Prelude/Finite.antt =====
-- Tests of all numbers under a bound, which finite tables are checked by.
use Prim.Native.Nat.{ℕ, zero, suc, ◌<◌}
use mathlib.Core.Path.{◌≡◌}
use mathlib.Core.Bool.{Bool, true, false}
use native.Mathlib.Omega.{arith}
use talka.Prelude.Tests.{if◌then◌else◌}

unfoldable pub every : (ℕ → Bool) → ℕ → Bool
every test zero = true
every test (suc n) = let rest = every test n in if test n then rest else false

pub every-at : (test : ℕ → Bool) (bound i : ℕ) → i < bound → every test bound ≡ true → test i ≡ true
unfolding every
every-at test zero i lt passed = absurd (omega arith)
every-at test (suc bound) i lt passed = ground (arith, every-at test bound i)

-- ===== src/Prelude/Below.antt =====
-- A test checked at every number below a bound.
use Prim.Native.Nat.{ℕ, zero, suc, ◌<◌}
use mathlib.Core.Path.{◌≡◌}
use mathlib.Core.Bool.{Bool, true, ◌&&◌}
use native.Mathlib.Omega.{arith}
use ebiclaw.Prelude.Tests.{&&-eq-true}

unfoldable pub every_below : ℕ → (ℕ → Bool) → Bool
every_below zero test = true
every_below (suc bound) test = every_below bound test && test bound

pub every_below_sound :
    (bound : ℕ) (test : ℕ → Bool) (i : ℕ)
    → every_below bound test ≡ true
    → i < bound
    → test i ≡ true
unfolding every_below
every_below_sound zero test i checked small = absurd (omega arith)
every_below_sound (suc bound) test i checked small =
    let (before, here) = &&-eq-true (every_below bound test) (test bound) checked in
    ground (arith, here, every_below_sound bound test i before)

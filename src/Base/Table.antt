-- ===== src/Base/Table.antt =====
-- A test of every number below a bound by evaluation.
use Prim.Native.Nat.{ℕ, zero, suc, ◌<◌}
use mathlib.Core.Path.{◌≡◌}
use mathlib.Core.Bool.{Bool, true, ◌&&◌}
use native.Mathlib.Omega.{arith}

unfoldable pub passes : ℕ → (ℕ → Bool) → Bool
passes zero test = true
passes (suc last) test = test last && passes last test

pub passes_at :
    (bound : ℕ) (test : ℕ → Bool) (i : ℕ) → passes bound test ≡ true → i < bound → test i ≡ true
unfolding passes
passes_at zero test i all below = absurd (omega arith)
passes_at (suc last) test i all below = ground (arith, passes_at last test i)

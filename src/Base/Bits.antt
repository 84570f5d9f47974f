-- ===== src/Base/Bits.antt =====
-- Bit masks on a byte as arithmetic, from tables over all 256 values.
use sonicbrew.Base.Tests.{◌==◌, ==_iff}
use sonicbrew.Base.Table.{passes, passes_at}
use Prim.Native.Nat.{ℕ, ◌%◌, ◌<◌, bit_and}
use mathlib.Core.Path.{◌≡◌, refl}
use mathlib.Core.Bool.{true}

low_seven_table : passes 256 (λ x. bit_and x 0x7F == x % 128) ≡ true
unfolding passes
low_seven_table = refl

low_four_table : passes 256 (λ x. bit_and x 0x0F == x % 16) ≡ true
unfolding passes
low_four_table = refl

-- `x & 0x7F`
pub low_seven : (x : ℕ) → x < 256 → bit_and x 0x7F ≡ x % 128
low_seven x h = (==_iff _ _).0 (passes_at 256 _ x low_seven_table h)

-- `x & 0x0F`
pub low_four : (x : ℕ) → x < 256 → bit_and x 0x0F ≡ x % 16
low_four x h = (==_iff _ _).0 (passes_at 256 _ x low_four_table h)

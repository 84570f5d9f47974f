-- ===== src/Base/Bytes.antt =====
-- `to_be_bytes`, `from_be_bytes`, `to_le_bytes` and `from_le_bytes` of Rust's unsigned integers.
use sonicbrew.Base.Lists.{get_or}
use Prim.Native.Nat.{ℕ, ◌+◌, ◌*◌, ◌/◌, ◌%◌, ◌^◌, ◌<◌}
use mathlib.Core.Path.{◌≡◌}
use mathlib.Core.List.{List, [], ◌∷◌}
use native.Mathlib.Omega.{arith}

abbrev pub IsByte : ℕ → Type 0
IsByte b = b < 256

abbrev pub from_be16 : ℕ → ℕ → ℕ
from_be16 a b = a * 256 + b

abbrev pub from_be32 : ℕ → ℕ → ℕ → ℕ → ℕ
from_be32 a b c d = ((a * 256 + b) * 256 + c) * 256 + d

abbrev pub from_le32 : ℕ → ℕ → ℕ → ℕ → ℕ
from_le32 a b c d = from_be32 d c b a

abbrev pub from_be64 : ℕ → ℕ → ℕ → ℕ → ℕ → ℕ → ℕ → ℕ → ℕ
from_be64 a b c d e f g h = from_be32 a b c d * 2 ^ 32 + from_be32 e f g h

abbrev pub to_be16 : ℕ → List ℕ
to_be16 x = x / 256 % 256 ∷ x % 256 ∷ []

abbrev pub to_be32 : ℕ → List ℕ
to_be32 x = x / 2 ^ 24 % 256 ∷ x / 2 ^ 16 % 256 ∷ x / 2 ^ 8 % 256 ∷ x % 256 ∷ []

abbrev pub to_le32 : ℕ → List ℕ
to_le32 x = x % 256 ∷ x / 2 ^ 8 % 256 ∷ x / 2 ^ 16 % 256 ∷ x / 2 ^ 24 % 256 ∷ []

abbrev pub to_be64 : ℕ → List ℕ
to_be64 x =
    x / 2 ^ 56 % 256
    ∷ x / 2 ^ 48 % 256
    ∷ x / 2 ^ 40 % 256
    ∷ x / 2 ^ 32 % 256
    ∷ x / 2 ^ 24 % 256
    ∷ x / 2 ^ 16 % 256
    ∷ x / 2 ^ 8 % 256
    ∷ x % 256
    ∷ []

-- `buf[i]`, where a check of the length stands before it.
abbrev pub byte_at : List ℕ → ℕ → ℕ
byte_at buf i = get_or buf i 0

pub be16_roundtrip : (x : ℕ) → x < 2 ^ 16 → from_be16 (x / 256 % 256) (x % 256) ≡ x
be16_roundtrip x h = omega arith

pub be32_roundtrip :
    (x : ℕ)
    → x < 2 ^ 32
    → from_be32 (x / 2 ^ 24 % 256) (x / 2 ^ 16 % 256) (x / 2 ^ 8 % 256) (x % 256) ≡ x
be32_roundtrip x h = omega arith

pub be64_roundtrip :
    (x : ℕ)
    → x < 2 ^ 64
    → from_be64
        (x / 2 ^ 56 % 256)
        (x / 2 ^ 48 % 256)
        (x / 2 ^ 40 % 256)
        (x / 2 ^ 32 % 256)
        (x / 2 ^ 24 % 256)
        (x / 2 ^ 16 % 256)
        (x / 2 ^ 8 % 256)
        (x % 256)
      ≡ x
be64_roundtrip x h = omega arith

pub from_be32-lt :
    (a b c d : ℕ) → a < 256 → b < 256 → c < 256 → d < 256 → from_be32 a b c d < 2 ^ 32
from_be32-lt a b c d ha hb hc hd = omega arith

pub to_be32-from_be32 :
    (a b c d : ℕ)
    → a < 256
    → b < 256
    → c < 256
    → d < 256
    → to_be32 (from_be32 a b c d) ≡ a ∷ b ∷ c ∷ d ∷ []
to_be32-from_be32 a b c d ha hb hc hd = ground arith

pub to_le32-from_le32 :
    (a b c d : ℕ)
    → a < 256
    → b < 256
    → c < 256
    → d < 256
    → to_le32 (from_le32 a b c d) ≡ a ∷ b ∷ c ∷ d ∷ []
to_le32-from_le32 a b c d ha hb hc hd = ground arith

pub to_be16-from_be16 : (a b : ℕ) → a < 256 → b < 256 → to_be16 (from_be16 a b) ≡ a ∷ b ∷ []
to_be16-from_be16 a b ha hb = ground arith

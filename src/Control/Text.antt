-- ===== src/Control/Text.antt =====
-- The text operations of Rust's standard library that crates/control-api uses.
use Prim.Native.Nat.{ℕ, zero, suc, ◌/◌, ◌%◌}
use Prim.Native.Char.{code}
use Prim.Native.String.{String, [], ◌∷◌, ◌++◌, compare, slice}
use mathlib.Core.Bool.{Bool, true, ◌&&◌, ◌||◌}
use text.Mathlib.Text.{is_eq}
use sonicbrew.Base.{◌==◌, ltb, leb, if◌then◌else◌}

-- `char::is_whitespace`, of a code point.
abbrev pub is_whitespace : ℕ → Bool
is_whitespace c =
    leb 9 c && leb c 13
    || c == 32
    || c == 0x85
    || c == 0xA0
    || c == 0x1680
    || leb 0x2000 c && leb c 0x200A
    || c == 0x2028
    || c == 0x2029
    || c == 0x202F
    || c == 0x205F
    || c == 0x3000

-- `text.trim().is_empty()`
unfoldable pub trims_to_nothing : String → Bool
trims_to_nothing [] = true
trims_to_nothing (c ∷ text) = is_whitespace (code c) && trims_to_nothing text

abbrev pub same_text : String → String → Bool
same_text s t = is_eq (compare s t)

abbrev digit : ℕ → String
digit n = slice "0123456789" n (suc n)

-- A number has no more decimal digits than its value, and one at least.
unfoldable pub decimal : ℕ → ℕ → String
decimal zero n = ""
decimal (suc fuel) n =
    let rest = decimal fuel (n / 10) in if ltb n 10 then digit n else rest ++ digit (n % 10)

-- `format!("node-{}", id)`
unfoldable pub node_label : ℕ → String
unfolding decimal
node_label id = "node-" ++ (decimal (suc id) id)

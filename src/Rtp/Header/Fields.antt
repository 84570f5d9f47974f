-- ===== src/Rtp/Header/Fields.antt =====
-- What the reader of crates/net-rtp-aes67/src/codec.rs finds in the first two bytes that the writer
-- assembles, by tables over the flags and all values of a byte.
use sonicbrew.Base.{ℕ, ◌%◌, ◌<◌, ◌≡◌, refl, Bool, true, false, ◌&&◌, ◌==◌, ==_iff, arith}
use sonicbrew.Base.Table.{passes, passes_at}
use sonicbrew.Rtp.Header.{
  byte0, byte1, version_of, padding_of, extension_of, csrc_count_of, marker_of, payload_type_of,
}

abbrev same : Bool → Bool → Bool
same true b = b
same false true = false
same false false = true

same→eq : (a b : Bool) → same a b ≡ true → a ≡ b
same→eq true true h = refl
same→eq true false h = cc
same→eq false true h = cc
same→eq false false h = refl

abbrev flags_ok : Bool → Bool → ℕ → Bool
flags_ok p x c =
    version_of (byte0 p x c) == 2
    && (same (padding_of (byte0 p x c)) p
        && (same (extension_of (byte0 p x c)) x && csrc_count_of (byte0 p x c) == c % 16))

flags_table : (p x : Bool) → passes 256 (flags_ok p x) ≡ true
unfolding passes byte0
flags_table true true = refl
flags_table true false = refl
flags_table false true = refl
flags_table false false = refl

pub record ReadsFlags (p x : Bool) (c b : ℕ) : Type 0 where
  pub version : version_of b ≡ 2
  pub padding : padding_of b ≡ p
  pub extension : extension_of b ≡ x
  pub csrc_count : csrc_count_of b ≡ c % 16

flags_parts :
    (a b c d : Bool)
    → (a && (b && (c && d))) ≡ true
    → (a ≡ true) × (b ≡ true) × (c ≡ true) × (d ≡ true)
flags_parts a b c d h = ground arith

pub byte0-ReadsFlags : (p x : Bool) (c : ℕ) → c < 256 → ReadsFlags p x c (byte0 p x c)
byte0-ReadsFlags p x c h =
    let (v, pad, ext, count) =
      flags_parts _ _ _ _ (passes_at 256 (flags_ok p x) c (flags_table p x) h) in
    record {
      version = (==_iff _ _).0 v;
      padding = same→eq _ _ pad;
      extension = same→eq _ _ ext;
      csrc_count = (==_iff _ _).0 count;
    }

abbrev marker_ok : Bool → ℕ → Bool
marker_ok m t = same (marker_of (byte1 m t)) m && payload_type_of (byte1 m t) == t % 128

marker_table : (m : Bool) → passes 256 (marker_ok m) ≡ true
unfolding passes byte1
marker_table true = refl
marker_table false = refl

pub byte1-marker : (m : Bool) (t : ℕ) → t < 256 → marker_of (byte1 m t) ≡ m
byte1-marker m t h =
    same→eq _ _ ((and_parts _ _ (passes_at 256 (marker_ok m) t (marker_table m) h)).0)
  where
    and_parts : (a b : Bool) → (a && b) ≡ true → (a ≡ true) × (b ≡ true)
    and_parts a b e = ground arith

pub byte1-payload_type : (m : Bool) (t : ℕ) → t < 256 → payload_type_of (byte1 m t) ≡ t % 128
byte1-payload_type m t h =
    (==_iff _ _).0 ((and_parts _ _ (passes_at 256 (marker_ok m) t (marker_table m) h)).1)
  where
    and_parts : (a b : Bool) → (a && b) ≡ true → (a ≡ true) × (b ≡ true)
    and_parts a b e = ground arith

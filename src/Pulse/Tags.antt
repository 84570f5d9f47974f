-- ===== src/Pulse/Tags.antt =====
-- The tagged values of crates/gw-pulse/src/tags.rs: a writer that appends to a buffer, and a reader with a
-- position that stays where an error found it. A text is the list of its bytes.
use sonicbrew.Base.{ℕ, Bool, List, [], ◌∷◌, ◌++◌, if◌then◌else◌, length}
use sonicbrew.Base.Bytes.{to_be32, to_be64}

abbrev pub tag_u32 : ℕ
tag_u32 = 76

abbrev pub tag_u8 : ℕ
tag_u8 = 66

abbrev pub tag_boolean_true : ℕ
tag_boolean_true = 49

abbrev pub tag_boolean_false : ℕ
tag_boolean_false = 48

abbrev pub tag_string : ℕ
tag_string = 116

abbrev pub tag_string_null : ℕ
tag_string_null = 78

abbrev pub tag_arbitrary : ℕ
tag_arbitrary = 120

abbrev pub tag_u64 : ℕ
tag_u64 = 82

abbrev pub tag_proplist : ℕ
tag_proplist = 80

abbrev pub tag_volume : ℕ
tag_volume = 118

abbrev pub tag_sample_spec : ℕ
tag_sample_spec = 97

abbrev pub tag_channel_map : ℕ
tag_channel_map = 109

abbrev pub tag_cvolume : ℕ
tag_cvolume = 118

pub record TagWriter : Type 0 where
  pub buf : List ℕ

-- `push` and `extend_from_slice`
abbrev extend : TagWriter → List ℕ → TagWriter
extend w bytes = record { buf = w.buf ++ bytes }

unfoldable pub write_u32 : TagWriter → ℕ → TagWriter
write_u32 w value = extend (extend w (tag_u32 ∷ [])) (to_be32 value)

unfoldable pub write_u8 : TagWriter → ℕ → TagWriter
write_u8 w value = extend (extend w (tag_u8 ∷ [])) (value ∷ [])

unfoldable pub write_boolean : TagWriter → Bool → TagWriter
write_boolean w value = extend w ((if value then tag_boolean_true else tag_boolean_false) ∷ [])

unfoldable pub write_string : TagWriter → List ℕ → TagWriter
write_string w value = extend (extend (extend w (tag_string ∷ [])) value) (0 ∷ [])

unfoldable pub write_string_null : TagWriter → TagWriter
write_string_null w = extend w (tag_string_null ∷ [])

-- A blob whose length does not fit is a panic of the source.
unfoldable pub write_arbitrary : TagWriter → List ℕ → TagWriter
write_arbitrary w data_bytes =
    extend (extend (extend w (tag_arbitrary ∷ [])) (to_be32 (length data_bytes))) data_bytes

unfoldable pub write_u64 : TagWriter → ℕ → TagWriter
write_u64 w value = extend (extend w (tag_u64 ∷ [])) (to_be64 value)

unfoldable pub write_pairs : TagWriter → List (List ℕ × List ℕ) → TagWriter
unfolding write_string write_u32 write_arbitrary
write_pairs w [] = w
write_pairs w ((key, value) ∷ pairs) =
    write_pairs (write_arbitrary (write_u32 (write_string w key) (length value)) value) pairs

unfoldable pub write_proplist : TagWriter → List (List ℕ × List ℕ) → TagWriter
unfolding write_pairs write_string_null
write_proplist w pairs = write_string_null (write_pairs (extend w (tag_proplist ∷ [])) pairs)

unfoldable pub write_sample_spec : TagWriter → ℕ → ℕ → ℕ → TagWriter
write_sample_spec w sample_rate channels format =
    extend (extend (extend (extend w (tag_sample_spec ∷ [])) (format ∷ [])) (channels ∷ []))
      (to_be32 sample_rate)

unfoldable pub write_channel_map : TagWriter → List ℕ → TagWriter
write_channel_map w positions =
    extend (extend (extend w (tag_channel_map ∷ [])) (length positions ∷ [])) positions

unfoldable pub write_volume : TagWriter → ℕ → TagWriter
write_volume w value = extend (extend w (tag_volume ∷ [])) (to_be32 value)

unfoldable pub write_volumes : TagWriter → List ℕ → TagWriter
write_volumes w [] = w
write_volumes w (value ∷ values) = write_volumes (extend w (to_be32 value)) values

unfoldable pub write_cvolume : TagWriter → List ℕ → TagWriter
unfolding write_volumes
write_cvolume w volumes =
    write_volumes (extend (extend w (tag_cvolume ∷ [])) (length volumes ∷ [])) volumes

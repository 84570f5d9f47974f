-- ===== src/Pulse/Reader/Message.antt =====
-- Whole messages of crates/gw-pulse/src/tags.rs: a sequence of tagged values of any kinds.
use sonicbrew.Base.{
  ℕ, ◌+◌, ◌^◌, ◌<◌, ◌≤◌, ◌≡◌, ◌≢◌, refl, sym, ◌∙◌, Bool, true, Option, none, some, List, [], ◌∷◌,
  ◌++◌, append_assoc, append-nil, if◌then◌else◌, length, arith, All,
}
use mathlib.Core.Path.{subst}
use sonicbrew.Base.Bytes.{to_be32, to_be64}
use sonicbrew.Pulse.Codec.{ok, max_len}
use sonicbrew.Pulse.Tags.{
  TagWriter, write_u32, write_u8, write_boolean, write_string, write_string_null, write_arbitrary,
  write_u64, write_sample_spec, write_channel_map, write_volume, write_cvolume, write_proplist,
  tag_u32, tag_u8, tag_boolean_true, tag_boolean_false, tag_string, tag_string_null, tag_arbitrary,
  tag_u64, tag_volume, tag_sample_spec, tag_channel_map, tag_cvolume, tag_proplist,
}
use sonicbrew.Pulse.Reader.{
  Read, ◌>>=◌, pure, read_u32, read_u8, read_boolean, read_arbitrary, read_u64, read_sample_spec,
  read_volume, read_cvolume, read_channel_map, is_utf8, read_string, new, remaining,
}
use sonicbrew.Pulse.Reader.RoundTrip.{
  at, Reads, Reads-bind, Reads-pure, Reads-read_u32, Reads-read_u8, Reads-read_u64,
  Reads-read_boolean, Reads-read_volume, Reads-read_sample_spec, Reads-read_arbitrary,
  Reads-read_channel_map,
}
use sonicbrew.Pulse.Reader.Proplist.{
  Pairs, IsPairs, pairs_bytes, read_proplist, Reads-read_proplist, buf-write_string,
  buf-write_arbitrary, buf-write_proplist,
}
use sonicbrew.Pulse.Reader.Volumes.{volumes_bytes, Reads-read_cvolume, buf-write_cvolume}
use sonicbrew.Pulse.Reader.Text.{Reads-read_string, Reads-read_string_null}

pub data Kind : Type 0 where
  u32_kind u8_kind boolean_kind string_kind arbitrary_kind u64_kind sample_spec_kind
        channel_map_kind volume_kind cvolume_kind proplist_kind :
      Kind

-- What a tagged value of a kind holds.
abbrev pub ValueOf : Kind → Type 0
ValueOf u32_kind = ℕ
ValueOf u8_kind = ℕ
ValueOf boolean_kind = Bool
ValueOf string_kind = Option (List ℕ)
ValueOf arbitrary_kind = List ℕ
ValueOf u64_kind = ℕ
ValueOf sample_spec_kind = ℕ × ℕ × ℕ
ValueOf channel_map_kind = List ℕ
ValueOf volume_kind = ℕ
ValueOf cvolume_kind = List ℕ
ValueOf proplist_kind = Pairs

-- A text in UTF-8 without NUL bytes and not over the limit, or none.
abbrev pub IsText : Option (List ℕ) → Type 0
IsText none = Unit {0}
IsText (some bs) = All (λ b. b ≢ 0) bs × (length bs ≤ max_len) × (is_utf8 bs ≡ true)

-- The values that the format can carry: words in range, texts, and lists whose lengths their counts hold.
abbrev pub IsValue : (k : Kind) → ValueOf k → Type 0
IsValue u32_kind v = v < 2 ^ 32
IsValue u8_kind v = v < 2 ^ 8
IsValue boolean_kind v = Unit {0}
IsValue string_kind v = IsText v
IsValue arbitrary_kind v = length v ≤ max_len
IsValue u64_kind v = v < 2 ^ 64
IsValue sample_spec_kind (rate, channels, format) = rate < 2 ^ 32
IsValue channel_map_kind v = length v < 2 ^ 8
IsValue volume_kind v = v < 2 ^ 32
IsValue cvolume_kind v = (length v < 2 ^ 8) × All (λ x. x < 2 ^ 32) v
IsValue proplist_kind v = IsPairs v

abbrev write_optional : TagWriter → Option (List ℕ) → TagWriter
write_optional w none = write_string_null w
write_optional w (some text) = write_string w text

abbrev pub write_value : (k : Kind) → TagWriter → ValueOf k → TagWriter
write_value u32_kind w v = write_u32 w v
write_value u8_kind w v = write_u8 w v
write_value boolean_kind w v = write_boolean w v
write_value string_kind w v = write_optional w v
write_value arbitrary_kind w v = write_arbitrary w v
write_value u64_kind w v = write_u64 w v
write_value sample_spec_kind w (rate, channels, format) = write_sample_spec w rate channels format
write_value channel_map_kind w v = write_channel_map w v
write_value volume_kind w v = write_volume w v
write_value cvolume_kind w v = write_cvolume w v
write_value proplist_kind w v = write_proplist w v

abbrev pub read_value : (k : Kind) → Read (ValueOf k)
read_value u32_kind = read_u32
read_value u8_kind = read_u8
read_value boolean_kind = read_boolean
read_value string_kind = read_string
read_value arbitrary_kind = read_arbitrary
read_value u64_kind = read_u64
read_value sample_spec_kind = read_sample_spec
read_value channel_map_kind = read_channel_map
read_value volume_kind = read_volume
read_value cvolume_kind = read_cvolume
read_value proplist_kind = read_proplist

abbrev string_bytes : Option (List ℕ) → List ℕ
string_bytes none = tag_string_null ∷ []
string_bytes (some bs) = tag_string ∷ (bs ++ 0 ∷ [])

abbrev encoded : (k : Kind) → ValueOf k → List ℕ
encoded u32_kind v = tag_u32 ∷ to_be32 v
encoded u8_kind v = tag_u8 ∷ v ∷ []
encoded boolean_kind v = (if v then tag_boolean_true else tag_boolean_false) ∷ []
encoded string_kind v = string_bytes v
encoded arbitrary_kind v = tag_arbitrary ∷ (to_be32 (length v) ++ v)
encoded u64_kind v = tag_u64 ∷ to_be64 v
encoded sample_spec_kind (rate, channels, format) =
    tag_sample_spec ∷ format ∷ channels ∷ to_be32 rate
encoded channel_map_kind v = tag_channel_map ∷ length v ∷ v
encoded volume_kind v = tag_volume ∷ to_be32 v
encoded cvolume_kind v = tag_cvolume ∷ length v ∷ volumes_bytes v
encoded proplist_kind v = tag_proplist ∷ pairs_bytes v

Reads-read_value : (k : Kind) (v : ValueOf k) → IsValue k v → Reads (read_value k) (encoded k v) v
Reads-read_value u32_kind v h = Reads-read_u32 v h
Reads-read_value u8_kind v h = Reads-read_u8 v
Reads-read_value boolean_kind v h = Reads-read_boolean v
Reads-read_value string_kind none h = Reads-read_string_null
Reads-read_value string_kind (some bs) (no_nul, short, utf8) =
    Reads-read_string bs no_nul short utf8
Reads-read_value arbitrary_kind v h = Reads-read_arbitrary v h
Reads-read_value u64_kind v h = Reads-read_u64 v h
Reads-read_value sample_spec_kind (rate, channels, format) h =
    Reads-read_sample_spec rate channels format h
Reads-read_value channel_map_kind v h = Reads-read_channel_map v
Reads-read_value volume_kind v h = Reads-read_volume v h
Reads-read_value cvolume_kind v h = Reads-read_cvolume v h.0 h.1
Reads-read_value proplist_kind v h = Reads-read_proplist v h

buf-write_value :
    (k : Kind) (w : TagWriter) (v : ValueOf k) → (write_value k w v).buf ≡ w.buf ++ encoded k v
unfolding write_u32 write_u8 write_boolean write_string write_string_null write_arbitrary write_u64
    write_sample_spec write_channel_map write_volume
buf-write_value u32_kind w v = append_assoc w.buf _ _
buf-write_value u8_kind w v = append_assoc w.buf _ _
buf-write_value boolean_kind w v = refl
buf-write_value string_kind w none = refl
buf-write_value string_kind w (some bs) = buf-write_string w bs
buf-write_value arbitrary_kind w v = buf-write_arbitrary w v
buf-write_value u64_kind w v = append_assoc w.buf _ _
buf-write_value sample_spec_kind w (rate, channels, format) =
    rw
      (
        append_assoc w.buf (tag_sample_spec ∷ []) (format ∷ []),
        append_assoc w.buf (tag_sample_spec ∷ format ∷ []) (channels ∷ []),
      )
      (append_assoc w.buf _ _)
buf-write_value channel_map_kind w v =
    rw (append_assoc w.buf (tag_channel_map ∷ []) (length v ∷ [])) (append_assoc w.buf _ _)
buf-write_value volume_kind w v = append_assoc w.buf _ _
buf-write_value cvolume_kind w v = buf-write_cvolume w v
buf-write_value proplist_kind w v = buf-write_proplist w v

-- A message: values, each with its kind.
abbrev pub Message : Type 0
Message = List ((k : Kind) × ValueOf k)

abbrev pub write_all : TagWriter → Message → TagWriter
write_all w [] = w
write_all w ((k, v) ∷ vs) = write_all (write_value k w v) vs

abbrev pub read_all : List Kind → Read Message
read_all [] = pure []
read_all (k ∷ ks) = do v ← read_value k; vs ← read_all ks; pure ((k, v) ∷ vs)

abbrev pub kinds : Message → List Kind
kinds [] = []
kinds ((k, v) ∷ vs) = k ∷ kinds vs

abbrev encoded_all : Message → List ℕ
encoded_all [] = []
encoded_all ((k, v) ∷ vs) = encoded k v ++ encoded_all vs

buf-write_all : (w : TagWriter) (vs : Message) → (write_all w vs).buf ≡ w.buf ++ encoded_all vs
buf-write_all w [] = sym (append-nil w.buf)
buf-write_all w ((k, v) ∷ vs) =
    buf-write_all (write_value k w v) vs
    ∙ rw (buf-write_value k w v) (append_assoc w.buf (encoded k v) (encoded_all vs))

abbrev pub IsMessage : Message → Type 0
IsMessage [] = Unit {0}
IsMessage ((k, v) ∷ vs) = IsValue k v × IsMessage vs

Reads-read_all : (vs : Message) → IsMessage vs → Reads (read_all (kinds vs)) (encoded_all vs) vs
Reads-read_all [] h = Reads-pure []
Reads-read_all ((k, v) ∷ vs) h =
    Reads-bind (read_value k) _ (encoded k v) (encoded_all vs) v ((k, v) ∷ vs)
      (Reads-read_value k v h.0)
      (subst (λ cs. Reads (do ws ← read_all (kinds vs); pure ((k, v) ∷ ws)) cs ((k, v) ∷ vs))
        (append-nil (encoded_all vs))
        (Reads-bind (read_all (kinds vs)) (λ ws. pure ((k, v) ∷ ws)) (encoded_all vs) [] vs
          ((k, v) ∷ vs) (Reads-read_all vs h.1) (Reads-pure ((k, v) ∷ vs))))

-- A message of values of all the tagged kinds, property lists and channel volumes among them, each of
-- which `IsValue` says the format can carry, written to an empty buffer of less than 2 ^ 64 bytes, is
-- read back value by value, and no byte is left.
pub read_all-write_all :
    (vs : Message)
    → IsMessage vs
    → length (write_all (record { buf = [] }) vs).buf < 2 ^ 64
    → let (result, reader) = read_all (kinds vs) (new (write_all (record { buf = [] }) vs).buf) in
      (result ≡ ok vs) × (remaining reader ≡ 0)
unfolding remaining
read_all-write_all vs h fits =
    let written = buf-write_all (record { buf = [] }) vs in
    let small : length (encoded_all vs) < 2 ^ 64 = rw written at fits in
    let run : read_all (kinds vs) (new (encoded_all vs))
        ≡ (ok vs, at (encoded_all vs) (0 + length (encoded_all vs))) =
      subst (λ b. read_all (kinds vs) (new b) ≡ (ok vs, at b (0 + length (encoded_all vs))))
        (append-nil (encoded_all vs)) (Reads-read_all vs h [] [] (omega (arith, small))) in
    rw (written, run) (refl, omega arith)

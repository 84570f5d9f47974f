-- ===== src/Pulse/Reader/RoundTrip.antt =====
-- What the writer of crates/gw-pulse/src/tags.rs puts down, its reader takes up again.
use sonicbrew.Base.{
  ℕ, ◌+◌, ◌^◌, ◌<◌, ◌≤◌, ◌≡◌, refl, sym, ap, ◌∙◌, Bool, true, false, List, [], ◌∷◌, ◌++◌,
  append_assoc, append-nil, ltb, leb, if◌then◌else◌, length, length-append, drop-append,
  take-append, arith, ==_iff,
}
use mathlib.Core.Path.{subst}
use sonicbrew.Base.Bytes.{to_be32, to_be64, be32_roundtrip, be64_roundtrip, byte_at}
use sonicbrew.Pulse.Codec.{ok, max_len, be32_at}
use sonicbrew.Pulse.Tags.{
  tag_u32, tag_u8, tag_boolean_true, tag_boolean_false, tag_arbitrary, tag_u64, tag_volume,
  tag_sample_spec, tag_channel_map,
}
use sonicbrew.Pulse.Reader.{
  TagReader, Read, ◌>>=◌, pure, take_bytes, take_byte, expect_tag, read_u32, read_u8, read_boolean,
  read_arbitrary, read_u64, read_sample_spec, read_volume, read_channel_map,
}

abbrev pub at : List ℕ → ℕ → TagReader
at buf pos = record { buf = buf; pos = pos }

-- Wherever the bytes stand in a buffer that fits in memory, the step takes them and gives the value.
abbrev pub Reads : {A : Type 0} → Read A → List ℕ → A → Type 0
Reads m bytes a =
    (before rest : List ℕ)
    → length before + length bytes + length rest < 2 ^ 64
    → m (at (before ++ (bytes ++ rest)) (length before))
      ≡ (ok a, at (before ++ (bytes ++ rest)) (length before + length bytes))

pub Reads-bind :
    {A B : Type 0} (m : Read A) (f : A → Read B) (bs cs : List ℕ) (a : A) (b : B)
    → Reads m bs a
    → Reads (f a) cs b
    → Reads (m >>= f) (bs ++ cs) b
Reads-bind m f bs cs a b hm hf before rest fits =
    let s₁ = length-append bs cs in
    let s₂ = length-append cs rest in
    let s₃ = length-append before bs in
    let first = hm before (cs ++ rest) (omega (arith, s₁, s₂, fits)) in
    let second =
      rw (s₃, append_assoc before bs (cs ++ rest)) at
        (hf (before ++ bs) rest (omega (arith, s₁, s₃, fits))) in
    let ends : length before + length bs + length cs ≡ length before + length (bs ++ cs) =
      omega (arith, s₁) in
    rw (append_assoc bs cs rest, first)
      (second ∙ ap (λ p. (ok b, at (before ++ (bs ++ (cs ++ rest))) p)) ends)

pub Reads-pure : {A : Type 0} (a : A) → Reads (pure a) [] a
Reads-pure a before rest fits =
    let same : length before ≡ length before + 0 = omega arith in
    ap (λ p. (ok a, at (before ++ rest) p)) same

pub Reads-take_bytes : (bs : List ℕ) → Reads (take_bytes (length bs)) bs bs
unfolding take_bytes
Reads-take_bytes bs before rest fits =
    let sizes = length-append before (bs ++ rest) in
    let sizes' = length-append bs rest in
    let small : leb (2 ^ 64) (length before + length bs) ≡ false = ground (arith, fits) in
    let inside : ltb (length (before ++ (bs ++ rest))) (length before + length bs) ≡ false =
      ground (arith, sizes, sizes') in
    rw (small, inside, drop-append before (bs ++ rest), take-append bs rest) refl

pub Reads-take_byte : (b : ℕ) → Reads take_byte (b ∷ []) b
unfolding take_byte
Reads-take_byte b =
    Reads-bind (take_bytes 1) (λ bytes. pure (byte_at bytes 0)) (b ∷ []) [] (b ∷ []) b
      (Reads-take_bytes (b ∷ [])) (Reads-pure b)

pub Reads-expect_tag : (t : ℕ) → Reads (expect_tag t) (t ∷ []) tt
unfolding expect_tag
Reads-expect_tag t =
    Reads-bind take_byte _ (t ∷ []) [] t tt (Reads-take_byte t)
      (rw ((==_iff t t).1 refl) (Reads-pure tt))

-- A tag, some bytes, and what they stand for.
Reads-tagged :
    {A : Type 0} (t n : ℕ) (f : List ℕ → A) (bs : List ℕ) (a : A)
    → length bs ≡ n
    → f bs ≡ a
    → Reads (do _ ← expect_tag t; bytes ← take_bytes n; pure (f bytes)) (t ∷ bs) a
Reads-tagged t n f bs a size value =
    Reads-bind (expect_tag t) _ (t ∷ []) bs tt a (Reads-expect_tag t) (
      subst (λ cs. Reads (do bytes ← take_bytes n; pure (f bytes)) cs a) (append-nil bs)
        (Reads-bind (take_bytes n) (λ bytes. pure (f bytes)) bs [] bs a
          (subst (λ m. Reads (take_bytes m) bs bs) size (Reads-take_bytes bs))
          (subst (λ x. Reads (pure x) [] a) (sym value) (Reads-pure a))))

pub Reads-read_u32 : (v : ℕ) → v < 2 ^ 32 → Reads read_u32 (tag_u32 ∷ to_be32 v) v
unfolding read_u32
Reads-read_u32 v h =
    Reads-tagged tag_u32 4 (λ bytes. be32_at bytes 0) (to_be32 v) v refl (be32_roundtrip v h)

pub Reads-read_volume : (v : ℕ) → v < 2 ^ 32 → Reads read_volume (tag_volume ∷ to_be32 v) v
unfolding read_volume
Reads-read_volume v h =
    Reads-tagged tag_volume 4 (λ bytes. be32_at bytes 0) (to_be32 v) v refl (be32_roundtrip v h)

pub Reads-read_u64 : (v : ℕ) → v < 2 ^ 64 → Reads read_u64 (tag_u64 ∷ to_be64 v) v
unfolding read_u64
Reads-read_u64 v h = Reads-tagged tag_u64 8 _ (to_be64 v) v refl (be64_roundtrip v h)

pub Reads-read_sample_spec :
    (rate channels format : ℕ)
    → rate < 2 ^ 32
    → Reads read_sample_spec
        (tag_sample_spec ∷ format ∷ channels ∷ to_be32 rate)
        (rate, channels, format)
unfolding read_sample_spec
Reads-read_sample_spec rate channels format h =
    Reads-tagged tag_sample_spec 6 _ (format ∷ channels ∷ to_be32 rate) (rate, channels, format)
      refl (ap (λ r. (r, channels, format)) (be32_roundtrip rate h))

pub Reads-read_u8 : (v : ℕ) → Reads read_u8 (tag_u8 ∷ v ∷ []) v
unfolding read_u8
Reads-read_u8 v =
    Reads-bind (expect_tag tag_u8) (λ _. take_byte) (tag_u8 ∷ []) (v ∷ []) tt v
      (Reads-expect_tag tag_u8) (Reads-take_byte v)

pub Reads-read_boolean :
    (v : Bool) → Reads read_boolean ((if v then tag_boolean_true else tag_boolean_false) ∷ []) v
unfolding read_boolean
Reads-read_boolean true =
    Reads-bind take_byte _ (tag_boolean_true ∷ []) [] tag_boolean_true true
      (Reads-take_byte tag_boolean_true) (Reads-pure true)
Reads-read_boolean false =
    Reads-bind take_byte _ (tag_boolean_false ∷ []) [] tag_boolean_false false
      (Reads-take_byte tag_boolean_false) (Reads-pure false)

pub Reads-read_arbitrary :
    (bs : List ℕ)
    → length bs ≤ max_len
    → Reads read_arbitrary (tag_arbitrary ∷ (to_be32 (length bs) ++ bs)) bs
unfolding read_arbitrary
Reads-read_arbitrary bs h =
    let size : be32_at (to_be32 (length bs)) 0 ≡ length bs =
      be32_roundtrip (length bs) (omega (arith, h)) in
    let small : ltb max_len (length bs) ≡ false = ground (arith, h) in
    Reads-bind (expect_tag tag_arbitrary) _ (tag_arbitrary ∷ []) (to_be32 (length bs) ++ bs) tt bs
      (Reads-expect_tag tag_arbitrary)
      (Reads-bind (take_bytes 4) _ (to_be32 (length bs)) bs (to_be32 (length bs)) bs
        (Reads-take_bytes (to_be32 (length bs))) (rw (size, small) (Reads-take_bytes bs)))

pub Reads-read_channel_map :
    (bs : List ℕ) → Reads read_channel_map (tag_channel_map ∷ length bs ∷ bs) bs
unfolding read_channel_map
Reads-read_channel_map bs =
    Reads-bind (expect_tag tag_channel_map) _ (tag_channel_map ∷ []) (length bs ∷ bs) tt bs
      (Reads-expect_tag tag_channel_map)
      (Reads-bind take_byte take_bytes (length bs ∷ []) bs (length bs) bs
        (Reads-take_byte (length bs)) (Reads-take_bytes bs))

-- ===== src/Pulse/Reader/Volumes.antt =====
-- The channel volumes of crates/gw-pulse/src/tags.rs: a count and bare words.
use sonicbrew.Base.{
  ℕ, ◌*◌, ◌^◌, ◌<◌, ◌≡◌, refl, false, List, [], ◌∷◌, ◌++◌, append_assoc, append-nil, ltb, length,
  arith, All,
}
use mathlib.Core.Path.{subst}
use sonicbrew.Base.Bytes.{to_be32, be32_roundtrip}
use sonicbrew.Pulse.Codec.{max_len}
use sonicbrew.Pulse.Tags.{TagWriter, tag_cvolume, write_volumes, write_cvolume}
use sonicbrew.Pulse.Reader.{◌>>=◌, pure, take_byte, take_bytes, expect_tag, words, read_cvolume}
use sonicbrew.Pulse.Reader.RoundTrip.{
  Reads, Reads-bind, Reads-pure, Reads-take_byte, Reads-take_bytes, Reads-expect_tag,
}

abbrev pub volumes_bytes : List ℕ → List ℕ
volumes_bytes [] = []
volumes_bytes (v ∷ vs) = to_be32 v ++ volumes_bytes vs

length-volumes_bytes : (vs : List ℕ) → length (volumes_bytes vs) ≡ length vs * 4
length-volumes_bytes [] = refl
length-volumes_bytes (v ∷ vs) = omega (arith, length-volumes_bytes vs)

words-volumes_bytes :
    (vs : List ℕ) → All (λ v. v < 2 ^ 32) vs → words (length vs) (volumes_bytes vs) ≡ vs
unfolding words
words-volumes_bytes [] all = refl
words-volumes_bytes (v ∷ vs) all = rw (be32_roundtrip v all.0, words-volumes_bytes vs all.1) refl

pub Reads-read_cvolume :
    (vs : List ℕ)
    → length vs < 2 ^ 8
    → All (λ v. v < 2 ^ 32) vs
    → Reads read_cvolume (tag_cvolume ∷ length vs ∷ volumes_bytes vs) vs
unfolding read_cvolume
Reads-read_cvolume vs few all =
    let small : ltb max_len (length vs) ≡ false = ground (arith, few) in
    let body : Reads (do bytes ← take_bytes (length vs * 4); pure (words (length vs) bytes))
        (volumes_bytes vs ++ []) vs =
      Reads-bind (take_bytes (length vs * 4)) (λ bytes. pure (words (length vs) bytes))
        (volumes_bytes vs) [] (volumes_bytes vs) vs
        (subst (λ n. Reads (take_bytes n) (volumes_bytes vs) (volumes_bytes vs))
          (length-volumes_bytes vs) (Reads-take_bytes (volumes_bytes vs)))
        (rw (words-volumes_bytes vs all) (Reads-pure vs)) in
    Reads-bind (expect_tag tag_cvolume) _ (tag_cvolume ∷ []) (length vs ∷ volumes_bytes vs) tt vs
      (Reads-expect_tag tag_cvolume)
      (Reads-bind take_byte _ (length vs ∷ []) (volumes_bytes vs) (length vs) vs
        (Reads-take_byte (length vs)) (rw small (rw (append-nil (volumes_bytes vs)) at body)))

buf-write_volumes :
    (w : TagWriter) (vs : List ℕ) → (write_volumes w vs).buf ≡ w.buf ++ volumes_bytes vs
unfolding write_volumes
buf-write_volumes w [] = rw (append-nil w.buf) refl
buf-write_volumes w (v ∷ vs) =
    rw (buf-write_volumes (record { buf = w.buf ++ to_be32 v }) vs)
      (append_assoc w.buf (to_be32 v) (volumes_bytes vs))

pub buf-write_cvolume :
    (w : TagWriter) (vs : List ℕ)
    → (write_cvolume w vs).buf ≡ w.buf ++ (tag_cvolume ∷ length vs ∷ volumes_bytes vs)
unfolding write_cvolume
buf-write_cvolume w vs =
    rw
      (
        buf-write_volumes (record { buf = (w.buf ++ tag_cvolume ∷ []) ++ length vs ∷ [] }) vs,
        append_assoc w.buf (tag_cvolume ∷ []) (length vs ∷ []),
      )
      (append_assoc w.buf _ _)

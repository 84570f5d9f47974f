-- ===== src/Pulse/Reader/Proplist.antt =====
-- The property lists of crates/gw-pulse/src/tags.rs: `TagReader::read_proplist`, and what its writer puts
-- down for it.
use sonicbrew.Base.{
  ℕ, suc, zero, ◌+◌, ◌<◌, ◌≤◌, ◌≡◌, ◌≢◌, refl, ap, ◌∙◌, true, false, Option, none, some, List, [],
  ◌∷◌, ◌++◌, append_assoc, append-nil, ltb, ◌==◌, if◌then◌else◌, length, length-append,
  get_elem?_after, arith, All, ==_iff,
}
use mathlib.Core.Path.{subst}
use sonicbrew.Base.Bytes.{to_be32}
use sonicbrew.Pulse.Codec.{truncated, invalid_tag, oversized, invalid_utf8, max_len}
use sonicbrew.Pulse.Tags.{
  tag_u32, tag_arbitrary, tag_string, tag_string_null, tag_proplist, TagWriter, write_string,
  write_u32, write_arbitrary, write_string_null, write_pairs, write_proplist,
}
use sonicbrew.Pulse.Reader.{
  Read, ◌>>=◌, pure, fail, peek_byte, take_bytes, expect_tag, is_utf8, read_string, read_u32,
  read_arbitrary,
}
use sonicbrew.Pulse.Reader.RoundTrip.{
  Reads, Reads-bind, Reads-pure, Reads-take_bytes, Reads-expect_tag, Reads-read_u32,
  Reads-read_arbitrary,
}
use sonicbrew.Pulse.Reader.Text.{Reads-read_string}

abbrev pub Pairs : Type 0
Pairs = List (List ℕ × List ℕ)

-- `unwrap_or_default`
abbrev unwrap_or_empty : Option (List ℕ) → List ℕ
unwrap_or_empty none = []
unwrap_or_empty (some text) = text

-- The value of a pair: its length, then a blob of this length, which must be UTF-8.
unfoldable pub read_blob : Read (List ℕ)
read_blob = do
  len ← read_u32
  if ltb max_len len then fail oversized else (do
    blob ← read_arbitrary
    if length blob == len
        then (if is_utf8 blob then pure blob else fail invalid_utf8)
        else fail truncated)

-- One turn of the loop on a string, which is the key of a pair.
unfoldable pub read_pair : Read (List ℕ × List ℕ)
read_pair = do key ← read_string; blob ← read_blob; pure (unwrap_or_empty key, blob)

-- A turn of the loop on the byte that comes next, before the turns to come.
abbrev turn : Read Pairs → ℕ → Read Pairs
turn rest byte =
    if byte == tag_string
    then (do pair ← read_pair; pairs ← rest; pure (pair ∷ pairs))
    else if byte == tag_string_null
    then (do _ ← take_bytes 1; pure [])
    else fail (invalid_tag byte)

-- The loop. A turn takes a byte or ends it, so that fuel above the number of bytes is never used up.
unfoldable pub read_pairs : ℕ → Read Pairs
read_pairs zero = fail truncated
read_pairs (suc fuel) = peek_byte >>= turn (read_pairs fuel)

unfoldable pub read_proplist : Read Pairs
read_proplist = do _ ← expect_tag tag_proplist; λ r. read_pairs (length r.buf + 1) r

-- Keys are texts, and values too, but these may hold NUL bytes.
abbrev pub IsPairs : Pairs → Type 0
IsPairs [] = Unit {0}
IsPairs ((key, value) ∷ pairs) =
    All (λ b. b ≢ 0) key
    × (length key ≤ max_len)
    × (is_utf8 key ≡ true)
    × (length value ≤ max_len)
    × (is_utf8 value ≡ true)
    × IsPairs pairs

abbrev blob_bytes : List ℕ → List ℕ
blob_bytes value =
    (tag_u32 ∷ to_be32 (length value)) ++ (tag_arbitrary ∷ (to_be32 (length value) ++ value))

abbrev pair_bytes : List ℕ → List ℕ → List ℕ
pair_bytes key value = (tag_string ∷ (key ++ 0 ∷ [])) ++ blob_bytes value

abbrev pub pairs_bytes : Pairs → List ℕ
pairs_bytes [] = tag_string_null ∷ []
pairs_bytes ((key, value) ∷ pairs) = pair_bytes key value ++ pairs_bytes pairs

Reads-read_blob :
    (value : List ℕ)
    → length value ≤ max_len
    → is_utf8 value ≡ true
    → Reads read_blob (blob_bytes value) value
unfolding read_blob
Reads-read_blob value short utf8 =
    let small : ltb max_len (length value) ≡ false = ground (arith, short) in
    Reads-bind read_u32 _ (tag_u32 ∷ to_be32 (length value))
      (tag_arbitrary ∷ (to_be32 (length value) ++ value)) (length value) value
      (Reads-read_u32 (length value) (omega (arith, short)))
      (rw small (
        subst
          (λ cs.
            Reads
              (do
                blob ← read_arbitrary
                if length blob == length value
                    then (if is_utf8 blob then pure blob else fail invalid_utf8)
                    else fail truncated)
              cs value)
          (append-nil (tag_arbitrary ∷ (to_be32 (length value) ++ value)))
          (Reads-bind read_arbitrary _ (tag_arbitrary ∷ (to_be32 (length value) ++ value)) [] value
            value (Reads-read_arbitrary value short)
            (rw ((==_iff (length value) (length value)).1 refl, utf8) (Reads-pure value)))))

-- The step sees the byte that comes next without taking it.
Reads-peek_byte :
    {A : Type 0} (b : ℕ) (bs : List ℕ) (f : ℕ → Read A) (a : A)
    → Reads (f b) (b ∷ bs) a
    → Reads (peek_byte >>= f) (b ∷ bs) a
unfolding peek_byte
Reads-peek_byte b bs f a h before rest fits =
    rw (get_elem?_after before b (bs ++ rest)) (h before rest fits)

Reads-read_pair :
    (key value : List ℕ) (pairs : Pairs)
    → IsPairs ((key, value) ∷ pairs)
    → Reads read_pair (pair_bytes key value) (key, value)
unfolding read_pair
Reads-read_pair key value pairs (no_nul, short, utf8, short', utf8', _) =
    Reads-bind read_string _ (tag_string ∷ (key ++ 0 ∷ [])) (blob_bytes value) (some key)
      (key, value) (Reads-read_string key no_nul short utf8)
      (subst
        (λ cs. Reads {A = List ℕ × List ℕ} (do blob ← read_blob; pure (key, blob)) cs (key, value))
        (append-nil (blob_bytes value))
        (Reads-bind read_blob (λ blob. pure (key, blob)) (blob_bytes value) [] value (key, value)
          (Reads-read_blob value short' utf8') (Reads-pure (key, value))))

Reads-read_pairs :
    (pairs : Pairs) (fuel : ℕ)
    → length pairs < fuel
    → IsPairs pairs
    → Reads (read_pairs fuel) (pairs_bytes pairs) pairs
unfolding read_pairs
Reads-read_pairs pairs zero h p = absurd (omega (arith, h))
Reads-read_pairs [] (suc fuel) h p =
    Reads-peek_byte tag_string_null [] (turn (read_pairs fuel)) [] (
      Reads-bind (take_bytes 1) (λ _. pure []) (tag_string_null ∷ []) [] (tag_string_null ∷ []) []
        (Reads-take_bytes (tag_string_null ∷ [])) (Reads-pure []))
Reads-read_pairs ((key, value) ∷ pairs) (suc fuel) h (no_nul, short, utf8, short', utf8', p) =
    let first = Reads-read_pair key value pairs (no_nul, short, utf8, short', utf8', p) in
    let rest = Reads-read_pairs pairs fuel (omega (arith, h)) p in
    Reads-peek_byte tag_string (((key ++ 0 ∷ []) ++ blob_bytes value) ++ pairs_bytes pairs)
      (turn (read_pairs fuel)) ((key, value) ∷ pairs)
      (Reads-bind read_pair (λ pair. do ps ← read_pairs fuel; pure (pair ∷ ps))
        (pair_bytes key value) (pairs_bytes pairs) (key, value) ((key, value) ∷ pairs) first
        (subst
          (λ cs.
            Reads (do ps ← read_pairs fuel; pure ((key, value) ∷ ps)) cs ((key, value) ∷ pairs))
          (append-nil (pairs_bytes pairs))
          (Reads-bind (read_pairs fuel) (λ ps. pure ((key, value) ∷ ps)) (pairs_bytes pairs) []
            pairs ((key, value) ∷ pairs) rest (Reads-pure ((key, value) ∷ pairs)))))

length-pairs_bytes : (pairs : Pairs) → length pairs < length (pairs_bytes pairs)
length-pairs_bytes [] = omega arith
length-pairs_bytes ((key, value) ∷ pairs) =
    let ih = length-pairs_bytes pairs in
    let sizes = length-append (pair_bytes key value) (pairs_bytes pairs) in omega (arith, ih, sizes)

pub Reads-read_proplist :
    (pairs : Pairs) → IsPairs pairs → Reads read_proplist (tag_proplist ∷ pairs_bytes pairs) pairs
unfolding read_proplist
Reads-read_proplist pairs p =
    Reads-bind (expect_tag tag_proplist) _ (tag_proplist ∷ []) (pairs_bytes pairs) tt pairs
      (Reads-expect_tag tag_proplist)
      (λ before rest fits.
        let s = length-append before (pairs_bytes pairs ++ rest) in
        let s' = length-append (pairs_bytes pairs) rest in
        Reads-read_pairs pairs _ (omega (arith, length-pairs_bytes pairs, s, s')) p before rest
          fits)

pub buf-write_string :
    (w : TagWriter) (text : List ℕ)
    → (write_string w text).buf ≡ w.buf ++ (tag_string ∷ (text ++ 0 ∷ []))
unfolding write_string
buf-write_string w text = rw (append_assoc w.buf (tag_string ∷ []) text) (append_assoc w.buf _ _)

pub buf-write_arbitrary :
    (w : TagWriter) (blob : List ℕ)
    → (write_arbitrary w blob).buf ≡ w.buf ++ (tag_arbitrary ∷ (to_be32 (length blob) ++ blob))
unfolding write_arbitrary
buf-write_arbitrary w blob =
    rw (append_assoc w.buf (tag_arbitrary ∷ []) (to_be32 (length blob))) (append_assoc w.buf _ _)

buf-write_pair :
    (w : TagWriter) (key value : List ℕ)
    → (write_arbitrary (write_u32 (write_string w key) (length value)) value).buf
      ≡ w.buf ++ pair_bytes key value
unfolding write_u32
buf-write_pair w key value =
    let text : List ℕ = tag_string ∷ (key ++ 0 ∷ []) in
    let size : List ℕ = tag_u32 ∷ to_be32 (length value) in
    let blob : List ℕ = tag_arbitrary ∷ (to_be32 (length value) ++ value) in
    buf-write_arbitrary (write_u32 (write_string w key) (length value)) value
    ∙ ap (λ b. b ++ blob)
        (append_assoc (write_string w key).buf (tag_u32 ∷ []) (to_be32 (length value))
          ∙ ap (λ b. b ++ size) (buf-write_string w key))
    ∙ append_assoc (w.buf ++ text) size blob
    ∙ append_assoc w.buf text (size ++ blob)

buf-write_pairs :
    (w : TagWriter) (pairs : Pairs)
    → (write_string_null (write_pairs w pairs)).buf ≡ w.buf ++ pairs_bytes pairs
unfolding write_pairs write_string write_u32 write_arbitrary write_string_null
buf-write_pairs w [] = refl
buf-write_pairs w ((key, value) ∷ pairs) =
    let w' = write_arbitrary (write_u32 (write_string w key) (length value)) value in
    buf-write_pairs w' pairs
    ∙ rw (buf-write_pair w key value)
        (append_assoc w.buf (pair_bytes key value) (pairs_bytes pairs))

pub buf-write_proplist :
    (w : TagWriter) (pairs : Pairs)
    → (write_proplist w pairs).buf ≡ w.buf ++ (tag_proplist ∷ pairs_bytes pairs)
unfolding write_proplist
buf-write_proplist w pairs =
    buf-write_pairs (record { buf = w.buf ++ tag_proplist ∷ [] }) pairs
    ∙ append_assoc w.buf (tag_proplist ∷ []) (pairs_bytes pairs)

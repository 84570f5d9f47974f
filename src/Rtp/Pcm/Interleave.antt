-- ===== src/Rtp/Pcm/Interleave.antt =====
-- The loops of decode_pcm in crates/net-rtp-aes67/src/codec.rs on what the loops of encode_pcm wrote: each
-- sample comes back to the place that it was taken from.
use sonicbrew.Base.{
  ℕ, zero, suc, ◌+◌, ◌*◌, ◌/◌, ◌%◌, ◌<◌, ◌≤◌, ◌≡◌, refl, sym, ap, ◌∙◌, some, List, [], ◌∷◌, ◌++◌,
  append_assoc, length, length-append, length-set, get_elem?, get_elem?-set_self, get_elem?-set_ne,
  take, drop, take-append, drop-append, drop-add, set, get_or, arith, ◌==◌, Bool-cases, inl, inr,
  ==_iff,
}
use native.Mathlib.Nat.{
  suc-mul, zero-mul, add-mul, mul-le-mul_right, div-add-mod', mod-lt, div-lt_iff_lt-mul,
}
use mathlib.Core.Path.{subst}
use sonicbrew.Base.Int.{ℤ}
use sonicbrew.Rtp.Pcm.{
  Float, quantize, restore, nought, encode_channels, encode_frames, decode_channels, decode_frames,
}

pub get_elem?-lt :
    {A : Type 0} (xs : List A) (i : ℕ) {x : A} → get_elem? xs i ≡ some x → i < length xs
get_elem?-lt [] i h = absurd (ground (arith, h))
get_elem?-lt (y ∷ xs) zero h = omega arith
get_elem?-lt (y ∷ xs) (suc i) h = omega (arith, get_elem?-lt xs i h)

-- A write of the value that belongs to a place leaves no place with a wrong value.
get_elem?-set_value :
    {A : Type 0} (xs : List A) (value : ℕ → A) (k j : ℕ)
    → get_elem? xs j ≡ some (value j)
    → get_elem? (set xs k (value k)) j ≡ some (value j)
get_elem?-set_value xs value k j h = elim (Bool-cases (k == j)) [
  | inl same ↦
      let e = (==_iff k j).0 same in
      subst (λ m. get_elem? (set xs k (value k)) m ≡ some (value m)) e
        (get_elem?-set_self xs k (value k)
          (subst (λ m. m < length xs) (sym e) (get_elem?-lt xs j h)))
  | inr other ↦ get_elem?-set_ne xs (value k) (ground (arith, other)) ∙ h
]

take_length : (n : ℕ) (xs ys : List ℕ) → length xs ≡ n → take n (xs ++ ys) ≡ xs
take_length n xs ys h = subst (λ m. take m (xs ++ ys) ≡ xs) h (take-append xs ys)

drop_length : (n : ℕ) (xs ys : List ℕ) → length xs ≡ n → drop n (xs ++ ys) ≡ ys
drop_length n xs ys h = subst (λ m. drop m (xs ++ ys) ≡ ys) h (drop-append xs ys)

-- Places in the planar layout.
pub place-lt : (c i n ch : ℕ) → i < n → c < ch → c * n + i < ch * n
place-lt c i n ch below inside =
    let row = mul-le-mul_right {m = suc c} {n = ch} n (omega arith) in
    omega (arith, row, suc-mul c n)

module _ {F : Type 0} (float : Float F) (frames : List F) (ch n full_scale decode_div width : ℕ)
    (pack : ℤ → List ℕ) (unpack : List ℕ → ℤ) (sized : (s : ℤ) → length (pack s) ≡ width) where
  abbrev pub value : ℕ → F
  value k =
      restore float decode_div
        (unpack (pack (quantize float full_scale (get_or frames k (nought float)))))

  abbrev pub Good : List F → ℕ → Type 0
  Good out j = get_elem? out j ≡ some (value j)

  -- After the channels of frame `i` from `c` on.
  pub record Row (bytes : List ℕ) (tail : List ℕ) (c i : ℕ) (out out' : List F) : Type 0 where
    pub size : length out' ≡ length out
    pub keeps : (j : ℕ) → Good out j → Good out' j
    pub writes : (c' : ℕ) → c ≤ c' → c' < ch → Good out' (c' * n + i)
    pub left : drop ((i * ch + ch) * width) bytes ≡ tail

  decode_channels-Row :
      (bytes tail : List ℕ) (rounds c i : ℕ) (out : List F)
      → c + rounds ≡ ch
      → i < n
      → length out ≡ ch * n
      → drop ((i * ch + c) * width) bytes
        ≡ encode_channels float frames n full_scale pack rounds c i ++ tail
      → Row bytes tail c i out
          (decode_channels float bytes ch n decode_div width unpack rounds c i out)
  unfolding decode_channels encode_channels
  decode_channels-Row bytes tail zero c i out ends below size at =
      let all : c ≡ ch = omega (arith, ends) in
      record {
        size = refl;
        keeps = λ j h. h;
        writes = λ c' above inside. absurd (omega (arith, above, inside, all));
        left = subst (λ m. drop ((i * ch + m) * width) bytes ≡ tail) all at;
      }
  decode_channels-Row bytes tail (suc rounds) c i out ends below size at =
      let k = c * n + i in
      let packed = pack (quantize float full_scale (get_or frames k (nought float))) in
      let more = encode_channels float frames n full_scale pack rounds (c + 1) i in
      let at' = at ∙ append_assoc packed more tail in
      let chunk = ap (take width) at' ∙ take_length width packed (more ++ tail) (sized _) in
      let shift : (i * ch + (c + 1)) * width ≡ (i * ch + c) * width + width =
        ap (λ m. m * width) (step_up (i * ch) c) ∙ suc-mul (i * ch + c) width in
      let at'' =
        ap (λ m. drop m bytes) shift
        ∙ drop-add ((i * ch + c) * width) width bytes
        ∙ ap (drop width) at'
        ∙ drop_length width packed (more ++ tail) (sized _) in
      let inside : c < ch = omega (arith, ends) in
      let room : k < length out = subst (λ m. k < m) (sym size) (place-lt c i n ch below inside) in
      let out₁ = set out k (value k) in
      let rest =
        decode_channels-Row bytes tail rounds (c + 1) i out₁ (omega (arith, ends)) below
          (length-set out k (value k) ∙ size) at'' in
      rw chunk (record {
        size = rest.size ∙ length-set out k (value k);
        keeps = λ j h. rest.keeps j (get_elem?-set_value out value k j h);
        writes = λ c' above inside'. elim (Bool-cases (c == c')) [
          | inl same ↦
              subst
                (λ m.
                  Good
                    (decode_channels float bytes ch n decode_div width unpack rounds (c + 1) i out₁)
                    (m * n + i))
                ((==_iff c c').0 same) (rest.keeps k (get_elem?-set_self out k (value k) room))
          | inr other ↦ rest.writes c' (ground (arith, above, other)) inside'
        ];
        left = rest.left;
      })
    where
      step_up : (m c : ℕ) → m + (c + 1) ≡ suc (m + c)
      step_up m c = omega arith

  -- After the frames from `i` on.
  pub record Block (i : ℕ) (out out' : List F) : Type 0 where
    pub size : length out' ≡ length out
    pub keeps : (j : ℕ) → Good out j → Good out' j
    pub writes : (i' c' : ℕ) → i ≤ i' → i' < n → c' < ch → Good out' (c' * n + i')

  pub decode_frames-Block :
      (bytes : List ℕ) (rounds i : ℕ) (out : List F)
      → i + rounds ≡ n
      → length out ≡ ch * n
      → drop (i * ch * width) bytes ≡ encode_frames float frames ch n full_scale pack rounds i
      → Block i out (decode_frames float bytes ch n decode_div width unpack rounds i out)
  unfolding decode_frames encode_frames
  decode_frames-Block bytes zero i out ends size at = record {
    size = refl;
    keeps = λ j h. h;
    writes = λ i' c' above below inside. absurd (omega (arith, ends, above, below));
  }
  decode_frames-Block bytes (suc rounds) i out ends size at =
      let tail = encode_frames float frames ch n full_scale pack rounds (i + 1) in
      let start : i * ch + 0 ≡ i * ch = omega arith in
      let next : i * ch + ch ≡ (i + 1) * ch = sym (ap (λ m. m * ch) (step_suc i) ∙ suc-mul i ch) in
      let row =
        decode_channels-Row bytes tail ch 0 i out (omega arith) (omega (arith, ends)) size
          (ap (λ m. drop (m * width) bytes) start ∙ at) in
      let out₁ = decode_channels float bytes ch n decode_div width unpack ch 0 i out in
      let rest =
        decode_frames-Block bytes rounds (i + 1) out₁ (omega (arith, ends)) (row.size ∙ size)
          (ap (λ m. drop (m * width) bytes) (sym next) ∙ row.left) in
      record {
        size = rest.size ∙ row.size;
        keeps = λ j h. rest.keeps j (row.keeps j h);
        writes = λ i' c' above below inside. elim (Bool-cases (i == i')) [
          | inl same ↦
              subst
                (λ m.
                  Good (decode_frames float bytes ch n decode_div width unpack rounds (i + 1) out₁)
                    (c' * n + m))
                ((==_iff i i').0 same)
                (rest.keeps (c' * n + i) (row.writes c' (omega arith) inside))
          | inr other ↦ rest.writes i' c' (ground (arith, above, other)) below inside
        ];
      }
    where
      step_suc : (m : ℕ) → m + 1 ≡ suc m
      step_suc m = omega arith

  -- A place of the planar layout is that of one channel in one frame.
  pub Block-place :
      (out out' : List F) (j : ℕ) → 0 < n → Block 0 out out' → j < ch * n → Good out' j
  Block-place out out' j some_frame block inside = subst (Good out') (div-add-mod' j n) (
      block.writes (j % n) (j / n) (omega arith) (mod-lt j some_frame)
        ((div-lt_iff_lt-mul some_frame).1 inside))

  length-encode_channels :
      (rounds c i : ℕ)
      → length (encode_channels float frames n full_scale pack rounds c i) ≡ rounds * width
  unfolding encode_channels
  length-encode_channels zero c i = sym (zero-mul width)
  length-encode_channels (suc rounds) c i =
      length-append (pack _) (encode_channels float frames n full_scale pack rounds (c + 1) i)
      ∙ (λ k.
          sized (quantize float full_scale (get_or frames (c * n + i) (nought float))) k
          + length-encode_channels rounds (c + 1) i k)
      ∙ flip width (rounds * width)
      ∙ sym (suc-mul rounds width)
    where
      flip : (a b : ℕ) → a + b ≡ b + a
      flip a b = omega arith

  pub length-encode_frames :
      (rounds i : ℕ)
      → length (encode_frames float frames ch n full_scale pack rounds i) ≡ rounds * ch * width
  unfolding encode_frames
  length-encode_frames zero i = sym (ap (λ m. m * width) (zero-mul ch) ∙ zero-mul width)
  length-encode_frames (suc rounds) i =
      length-append (encode_channels float frames n full_scale pack ch 0 i)
        (encode_frames float frames ch n full_scale pack rounds (i + 1))
      ∙ (λ k. length-encode_channels ch 0 i k + length-encode_frames rounds (i + 1) k)
      ∙ flip (ch * width) (rounds * ch * width)
      ∙ sym (ap (λ m. m * width) (suc-mul rounds ch) ∙ add-mul (rounds * ch) ch width)
    where
      flip : (a b : ℕ) → a + b ≡ b + a
      flip a b = omega arith

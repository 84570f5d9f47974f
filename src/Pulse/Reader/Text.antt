-- ===== src/Pulse/Reader/Text.antt =====
-- The strings of crates/gw-pulse/src/tags.rs: a text up to its NUL byte, or none.
use sonicbrew.Base.{
  ℕ, ◌+◌, ◌≤◌, ◌≡◌, ◌≢◌, refl, sym, ap, ◌∙◌, true, false, none, some, List, [], ◌∷◌, ◌++◌,
  append_assoc, append-nil, ltb, length, length-append, take, drop, drop-append, take-append, arith,
  All,
}
use mathlib.Core.Path.{subst}
use sonicbrew.Pulse.Codec.{ok, max_len}
use sonicbrew.Pulse.Tags.{tag_string, tag_string_null}
use sonicbrew.Pulse.Reader.{
  TagReader, ◌>>=◌, pure, take_byte, position_nul, is_utf8, read_text, read_string,
}
use sonicbrew.Pulse.Reader.RoundTrip.{at, Reads, Reads-bind, Reads-pure, Reads-take_byte}

position_nul-append :
    (bs rest : List ℕ) → All (λ b. b ≢ 0) bs → position_nul (bs ++ 0 ∷ rest) ≡ some (length bs)
unfolding position_nul
position_nul-append [] rest h = refl
position_nul-append (b ∷ bs) rest h = ground (arith, position_nul-append bs rest h.1, h.0)

read_text-nul :
    (r : TagReader) (bs rest : List ℕ)
    → drop r.pos r.buf ≡ bs ++ 0 ∷ rest
    → All (λ b. b ≢ 0) bs
    → length bs ≤ max_len
    → is_utf8 bs ≡ true
    → read_text r ≡ (ok bs, record r { pos = r.pos + length bs + 1 })
unfolding read_text
read_text-nul r bs rest tail no_nul short utf8 =
    let nul : position_nul (drop r.pos r.buf) ≡ some (length bs) =
      rw tail (position_nul-append bs rest no_nul) in
    let text : take (length bs) (drop r.pos r.buf) ≡ bs = rw tail (take-append bs (0 ∷ rest)) in
    let valid : is_utf8 (take (length bs) (drop r.pos r.buf)) ≡ true = rw text utf8 in
    let small : ltb max_len (length bs) ≡ false = ground (arith, short) in
    rw (nul, small, valid, text, read_text) refl

Reads-read_text :
    (bs : List ℕ)
    → All (λ b. b ≢ 0) bs
    → length bs ≤ max_len
    → is_utf8 bs ≡ true
    → Reads read_text (bs ++ 0 ∷ []) bs
Reads-read_text bs no_nul short utf8 before rest fits =
    let ends : length before + length bs + 1 ≡ length before + length (bs ++ 0 ∷ []) =
      omega (arith, length-append bs (0 ∷ [])) in
    subst
      (λ b.
        read_text (at (before ++ b) (length before))
        ≡ (ok bs, at (before ++ b) (length before + length (bs ++ 0 ∷ []))))
      (sym (append_assoc bs (0 ∷ []) rest))
      (read_text-nul (at (before ++ (bs ++ 0 ∷ rest)) (length before)) bs rest
          (drop-append before (bs ++ 0 ∷ rest)) no_nul short utf8
        ∙ ap (λ p. (ok bs, at (before ++ (bs ++ 0 ∷ rest)) p)) ends)

pub Reads-read_string :
    (bs : List ℕ)
    → All (λ b. b ≢ 0) bs
    → length bs ≤ max_len
    → is_utf8 bs ≡ true
    → Reads read_string (tag_string ∷ (bs ++ 0 ∷ [])) (some bs)
unfolding read_string
Reads-read_string bs no_nul short utf8 =
    Reads-bind take_byte _ (tag_string ∷ []) (bs ++ 0 ∷ []) tag_string (some bs)
      (Reads-take_byte tag_string)
      (subst (λ cs. Reads (do text ← read_text; pure (some text)) cs (some bs))
        (append-nil (bs ++ 0 ∷ []))
        (Reads-bind read_text (λ text. pure (some text)) (bs ++ 0 ∷ []) [] bs (some bs)
          (Reads-read_text bs no_nul short utf8) (Reads-pure (some bs))))

pub Reads-read_string_null : Reads read_string (tag_string_null ∷ []) none
unfolding read_string
Reads-read_string_null =
    Reads-bind take_byte _ (tag_string_null ∷ []) [] tag_string_null none
      (Reads-take_byte tag_string_null) (Reads-pure none)

-- ===== src/Engine/Nodes/Delay/Ring.antt =====
-- The ring buffer of crates/audio-engine/src/nodes/delay.rs as the history of what was written.
use sonicbrew.Base.{
  ℕ, zero, suc, ◌+◌, ◌-◌, ◌%◌, ◌<◌, ◌≤◌, ◌≡◌, ◌≢◌, refl, sym, ap, ◌∙◌, Bool-cases, List, [], ◌∷◌,
  leb, ltb, length, length-set, get_or, get_or-set_self, get_or-set_ne, set, replicate,
  length-replicate, arith, inl, inr,
}
use native.Mathlib.Nat.{mod-lt, mod-eq_of_lt, mod_self, add-mod_right}
use mathlib.Core.Path.{subst}

-- The place that lies some steps behind a cursor.
abbrev pub behind : ℕ → ℕ → ℕ → ℕ
behind cap wp k = (wp + cap - k) % cap

behind_below : (cap wp k : ℕ) → wp < cap → k ≤ wp → behind cap wp k ≡ wp - k
behind_below cap wp k inside h =
    let e : wp + cap - k ≡ wp - k + cap = omega (arith, h) in
    let small : wp - k < cap = omega (arith, inside) in
    ap (λ m. m % cap) e ∙ add-mod_right (wp - k) cap ∙ mod-eq_of_lt small

behind_above : (cap wp k : ℕ) → wp < k → k ≤ cap → behind cap wp k ≡ wp + cap - k
behind_above cap wp k h small =
    let below : wp + cap - k < cap = omega (arith, h, small) in mod-eq_of_lt below

behind_ne : (cap wp k : ℕ) → wp < cap → 0 < k → k < cap → wp ≢ behind cap wp k
behind_ne cap wp k inside some_step small h = elim (Bool-cases (leb k wp)) [
  | inl below ↦
      let le : k ≤ wp = ground (arith, below) in
      let e = behind_below cap wp k inside le in omega (arith, h ∙ e, le, some_step)
  | inr above ↦
      let lt : wp < k = ground (arith, above) in
      let e = behind_above cap wp k lt (omega (arith, small)) in omega (arith, h ∙ e, lt, small)
]

-- One step further behind the next cursor is the same place.
behind_next :
    (cap wp k : ℕ) → wp < cap → k < cap → behind cap ((wp + 1) % cap) (suc k) ≡ behind cap wp k
behind_next cap wp k inside small = elim (Bool-cases (ltb (wp + 1) cap)) [
  | inl room ↦
      let lt : wp + 1 < cap = ground (arith, room) in
      let e : wp + 1 + cap - suc k ≡ wp + cap - k = omega arith in
      ap (λ w. behind cap w (suc k)) (mod-eq_of_lt lt) ∙ ap (λ m. m % cap) e
  | inr full ↦
      let end : wp + 1 ≡ cap = ground (arith, full, inside) in
      let back : (wp + 1) % cap ≡ 0 = ap (λ m. m % cap) end ∙ mod_self cap in
      let left : behind cap 0 (suc k) ≡ 0 + cap - suc k =
        behind_above cap 0 (suc k) (omega arith) (omega (arith, small)) in
      let right = behind_below cap wp k inside (omega (arith, end, small)) in
      let same : 0 + cap - suc k ≡ wp - k = omega (arith, end) in
      ap (λ w. behind cap w (suc k)) back ∙ left ∙ same ∙ sym right
]

get_or-replicate : {A : Type 0} (n i : ℕ) (a : A) → get_or (replicate n a) i a ≡ a
get_or-replicate zero i a = refl
get_or-replicate (suc n) zero a = refl
get_or-replicate (suc n) (suc i) a = get_or-replicate n i a

module _ {F : Type 0} (nought : F) where
  -- The ring holds the newest values of a history, silence before its start.
  pub record IsRing (history ring : List F) (wp : ℕ) : Type 0 where
    pub inside : wp < length ring
    pub past :
        (k : ℕ)
        → k < length ring
        → get_or ring (behind (length ring) wp (suc k)) nought ≡ get_or history k nought

  pub replicate-IsRing : (cap : ℕ) → 0 < cap → IsRing [] (replicate cap nought) 0
  replicate-IsRing cap some_place =
      let size = length-replicate cap nought in
      record {
        inside = omega (arith, size, some_place);
        past = λ k h. get_or-replicate cap _ nought;
      }

  past_push :
      (history ring : List F) (wp : ℕ) (v : F) (k : ℕ)
      → IsRing history ring wp
      → k < length ring
      → get_or (set ring wp v) (behind (length ring) ((wp + 1) % length ring) (suc k)) nought
        ≡ get_or (v ∷ history) k nought
  past_push history ring wp v zero r h =
      let cap = length ring in
      let here : wp - 0 ≡ wp = omega arith in
      ap (λ p. get_or (set ring wp v) p nought)
        (behind_next cap wp 0 r.inside h ∙ behind_below cap wp 0 r.inside (omega arith) ∙ here)
      ∙ get_or-set_self ring wp v nought r.inside
  past_push history ring wp v (suc j) r h =
      let cap = length ring in
      ap (λ p. get_or (set ring wp v) p nought) (behind_next cap wp (suc j) r.inside h)
      ∙ get_or-set_ne ring wp (behind cap wp (suc j)) v nought
          (behind_ne cap wp (suc j) r.inside (omega arith) h)
      ∙ r.past j (omega (arith, h))

  pub push-IsRing :
      (history ring : List F) (wp : ℕ) (v : F)
      → IsRing history ring wp
      → IsRing (v ∷ history) (set ring wp v) ((wp + 1) % length ring)
  push-IsRing history ring wp v r =
      let size = sym (length-set ring wp v) in
      record {
        inside =
            subst (λ n. (wp + 1) % length ring < n) size
              (mod-lt (wp + 1) (omega (arith, r.inside)));
        past =
            subst
              (λ n.
                (k : ℕ)
                → k < n
                → get_or (set ring wp v) (behind n ((wp + 1) % length ring) (suc k)) nought
                  ≡ get_or (v ∷ history) k nought)
              size (λ k h. past_push history ring wp v k r h);
      }

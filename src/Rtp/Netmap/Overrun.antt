-- ===== src/Rtp/Netmap/Overrun.antt =====
-- Runs of `send_raw` on the TX ring of crates/net-rtp-aes67/src/transport/netmap_backend.rs, with no sync
-- between them.
use sonicbrew.Base.{
  ℕ, ◌+◌, ◌-◌, ◌%◌, ◌^◌, ◌<◌, ◌≤◌, ◌≡◌, refl, sym, ap, ◌∙◌, false, List, [], ◌∷◌, ◌++◌, map, ltb,
  leb, ◌==◌, length, length-set, get_or, get_or-set_self, set, All, arith,
}
use native.Mathlib.Nat.{mod-lt, mod-eq_of_lt, add-mod_right, mod-add-mod}
use mathlib.Core.Path.{subst}
use sonicbrew.Rtp.Error.{Result, ok}
use sonicbrew.Rtp.Netmap.{Ring, slots_free, stage}

-- The results of one packet after another, and the ring after them.
unfoldable pub stage_all : List (List ℕ) → Ring → List (Result ℕ) × Ring
unfolding stage
stage_all [] tx = ([], tx)
stage_all (p ∷ ps) tx =
    let (result, tx') = stage p tx in
    let (results, tx'') = stage_all ps tx' in (result ∷ results, tx'')

-- The kernel set the ring up, and its head is in range.
pub record IsRing (tx : Ring) : Type 0 where
  pub inside : tx.head < tx.num_slots
  pub slots : length tx.slots ≡ tx.num_slots

-- A packet that a slot of the ring can take.
abbrev pub Fits : Ring → List ℕ → Type 0
Fits tx p = (length p ≤ 65535) × (length p ≤ tx.buf_size)

abbrev pub put : List ℕ → Ring → Ring
put packet tx = record tx {
  slots = set tx.slots tx.head packet;
  head = (tx.head + 1) % tx.num_slots;
  cur = (tx.head + 1) % tx.num_slots;
}

abbrev pub put_all : List (List ℕ) → Ring → Ring
put_all [] tx = tx
put_all (p ∷ ps) tx = put_all ps (put p tx)

pub put-IsRing : (p : List ℕ) (tx : Ring) → IsRing tx → IsRing (put p tx)
put-IsRing p tx r = record {
  inside = mod-lt (tx.head + 1) (omega (arith, r.inside));
  slots = length-set tx.slots tx.head p ∙ r.slots;
}

-- The count of free slots is never 0 on a ring that has any.
slots_free-ne : (tx : Ring) → 0 < tx.num_slots → (slots_free tx == 0) ≡ false
unfolding slots_free
slots_free-ne tx some_slot =
    let used = (tx.head + 2 ^ 32 - tx.tail) % 2 ^ 32 in
    let below = mod-lt used some_slot in ground (arith, below, some_slot)

stage-put :
    (p : List ℕ) (tx : Ring) → IsRing tx → Fits tx p → stage p tx ≡ (ok (length p), put p tx)
unfolding stage
stage-put p tx r fits =
    let short : ltb 65535 (length p) ≡ false = ground (arith, fits.0) in
    let room : ltb tx.buf_size (length p) ≡ false = ground (arith, fits.1) in
    let inside : leb tx.num_slots tx.head ≡ false = ground (arith, r.inside) in
    rw (short, room, slots_free-ne tx (omega (arith, r.inside)), inside) refl

pub stage_all-put_all :
    (ps : List (List ℕ)) (tx : Ring)
    → IsRing tx
    → All (Fits tx) ps
    → stage_all ps tx ≡ (map (λ p. ok (length p)) ps, put_all ps tx)
unfolding stage_all
stage_all-put_all [] tx r fits = refl
stage_all-put_all (p ∷ ps) tx r fits =
    ap (λ (s : Result ℕ × Ring). let (results, tx'') = stage_all ps s.1 in (s.0 ∷ results, tx''))
      (stage-put p tx r fits.0)
    ∙ ap (λ (s : List (Result ℕ) × Ring). (ok (length p) ∷ s.0, s.1))
        (stage_all-put_all ps (put p tx) (put-IsRing p tx r) fits.1)

put_all-append :
    (ps : List (List ℕ)) (q : List ℕ) (tx : Ring)
    → put_all (ps ++ q ∷ []) tx ≡ put q (put_all ps tx)
put_all-append [] q tx = refl
put_all-append (p ∷ ps) q tx = put_all-append ps q (put p tx)

pub num_slots-put_all : (ps : List (List ℕ)) (tx : Ring) → (put_all ps tx).num_slots ≡ tx.num_slots
num_slots-put_all [] tx = refl
num_slots-put_all (p ∷ ps) tx = num_slots-put_all ps (put p tx)

put_all-IsRing : (ps : List (List ℕ)) (tx : Ring) → IsRing tx → IsRing (put_all ps tx)
put_all-IsRing [] tx r = r
put_all-IsRing (p ∷ ps) tx r = put_all-IsRing ps (put p tx) (put-IsRing p tx r)

pub head-put_all :
    (ps : List (List ℕ)) (tx : Ring) (m : ℕ)
    → tx.head ≡ m % tx.num_slots
    → (put_all ps tx).head ≡ (m + length ps) % tx.num_slots
head-put_all [] tx m h = h ∙ ap (λ k. k % tx.num_slots) (omega arith)
head-put_all (p ∷ ps) tx m h =
    let next : (tx.head + 1) % tx.num_slots ≡ (m + 1) % tx.num_slots =
      ap (λ k. (k + 1) % tx.num_slots) h ∙ mod-add-mod m tx.num_slots 1 in
    head-put_all ps (put p tx) (m + 1) next ∙ ap (λ k. k % tx.num_slots) (omega arith)

tail-put_all : (ps : List (List ℕ)) (tx : Ring) → (put_all ps tx).tail ≡ tx.tail
tail-put_all [] tx = refl
tail-put_all (p ∷ ps) tx = tail-put_all ps (put p tx)

-- A ring that holds as many packets as it has slots accepts one more before any sync, whatever its
-- tail: that packet takes the slot of the first.
pub stage_all_overrun :
    (tx : Ring) (ps : List (List ℕ)) (q : List ℕ)
    → IsRing tx
    → All (Fits tx) (ps ++ q ∷ [])
    → length ps ≡ tx.num_slots
    → let (results, tx') = stage_all (ps ++ q ∷ []) tx in
      (results ≡ map (λ p. ok (length p)) (ps ++ q ∷ []))
      × (get_or tx'.slots tx.head [] ≡ q)
      × (tx'.tail ≡ tx.tail)
stage_all_overrun tx ps q r fits full =
    let n = tx.num_slots in
    let ring = put_all ps tx in
    let valid = put_all-IsRing ps tx r in
    let start : tx.head ≡ tx.head % n = sym (mod-eq_of_lt r.inside) in
    let around : ring.head ≡ tx.head =
      head-put_all ps tx tx.head start
      ∙ ap (λ k. (tx.head + k) % n) full
      ∙ add-mod_right tx.head n
      ∙ sym start in
    let inside : ring.head < length ring.slots =
      subst (λ k. ring.head < k) (sym valid.slots) valid.inside in
    let done = put_all-append ps q tx in
    rw (stage_all-put_all (ps ++ q ∷ []) tx r fits) (
      refl,
      ap (λ t. get_or t.slots tx.head []) done
          ∙ ap (λ i. get_or (set ring.slots ring.head q) i []) (sym around)
          ∙ get_or-set_self ring.slots ring.head q [] inside,
      tail-put_all (ps ++ q ∷ []) tx,
    )

-- ===== src/Rtp/Netmap/Transfer.antt =====
-- What the rings of crates/net-rtp-aes67/src/transport/netmap_backend.rs carry from a sender to a receiver.
use sonicbrew.Base.{
  ℕ, zero, suc, ◌+◌, ◌-◌, ◌%◌, ◌<◌, ◌≤◌, ◌≡◌, ◌≢◌, refl, sym, ap, ◌∙◌, Bool-cases, true, false,
  List, [], ◌∷◌, ◌++◌, map, ltb, leb, ◌==◌, length, get_or, get_or-set_self, get_or-set_ne, set,
  take, take-length, min, All, arith, inl, inr,
}
use native.Mathlib.Nat.{mod-lt, mod-eq_of_lt, add-mod_right, mod-add-mod}
use mathlib.Core.Path.{subst}
use sonicbrew.Rtp.Error.{Result, ok}
use sonicbrew.Rtp.Netmap.{Ring, fetch}
use sonicbrew.Rtp.Netmap.Overrun.{
  stage_all, IsRing, Fits, put, put-IsRing, put_all, stage_all-put_all,
}

-- The results of a number of calls of `recv_raw`, and the ring after them.
unfoldable pub fetch_all : ℕ → ℕ → Ring → List (Result (List ℕ)) × Ring
unfolding fetch
fetch_all zero room rx = ([], rx)
fetch_all (suc count) room rx =
    let (result, rx') = fetch room rx in
    let (results, rx'') = fetch_all count room rx' in (result ∷ results, rx'')

-- Places less than a round apart are different.
mod_ne : (n r k : ℕ) → r < n → 0 < k → k < n → (r + k) % n ≢ r
mod_ne n r k inside some_step small h = elim (Bool-cases (ltb (r + k) n)) [
  | inl below ↦ omega (arith, sym (mod-eq_of_lt (ground (arith, below))) ∙ h, some_step)
  | inr above ↦
      let le : n ≤ r + k = ground (arith, above) in
      let split : r + k ≡ r + k - n + n = omega (arith, le) in
      let less : r + k - n < n = omega (arith, inside, small) in
      let e : (r + k) % n ≡ r + k - n =
        ap (λ x. x % n) split ∙ add-mod_right (r + k - n) n ∙ mod-eq_of_lt less in
      omega (arith, sym e ∙ h, small, le)
]

places_ne : (n m k : ℕ) → 0 < n → 0 < k → k < n → (m + k) % n ≢ m % n
places_ne n m k some_slot some_step small h =
    mod_ne n (m % n) k (mod-lt m some_slot) some_step small (mod-add-mod m n k ∙ h)

-- The slots from a place on hold these packets.
abbrev Holds : ℕ → List (List ℕ) → ℕ → List (List ℕ) → Type 0
Holds n slots m [] = Unit {0}
Holds n slots m (p ∷ ps) = (get_or slots (m % n) [] ≡ p) × Holds n slots (m + 1) ps

-- Packets that are put behind a place do not reach it within a round.
put_all_behind :
    (ps : List (List ℕ)) (tx : Ring) (m k : ℕ)
    → 0 < tx.num_slots
    → tx.head ≡ (m + k) % tx.num_slots
    → 0 < k
    → k + length ps ≤ tx.num_slots
    → get_or (put_all ps tx).slots (m % tx.num_slots) [] ≡ get_or tx.slots (m % tx.num_slots) []
put_all_behind [] tx m k some_slot h some_step room = refl
put_all_behind (p ∷ ps) tx m k some_slot h some_step room =
    let n = tx.num_slots in
    let next : (tx.head + 1) % n ≡ (m + (k + 1)) % n =
      ap (λ j. (j + 1) % n) h ∙ mod-add-mod (m + k) n 1 ∙ ap (λ j. j % n) (omega arith) in
    put_all_behind ps (put p tx) m (k + 1) some_slot next (omega arith) (omega (arith, room))
    ∙ get_or-set_ne tx.slots tx.head (m % n) p []
        (λ e. places_ne n m k some_slot some_step (omega (arith, room)) (sym h ∙ e))

put_all-Holds :
    (ps : List (List ℕ)) (tx : Ring) (m : ℕ)
    → IsRing tx
    → tx.head ≡ m % tx.num_slots
    → length ps ≤ tx.num_slots
    → Holds tx.num_slots (put_all ps tx).slots m ps
put_all-Holds [] tx m r h room = tt
put_all-Holds (p ∷ ps) tx m r h room =
    let n = tx.num_slots in
    let some_slot : 0 < n = omega (arith, r.inside) in
    let next : (tx.head + 1) % n ≡ (m + 1) % n = ap (λ j. (j + 1) % n) h ∙ mod-add-mod m n 1 in
    let here : tx.head < length tx.slots = subst (λ l. tx.head < l) (sym r.slots) r.inside in
    (
      put_all_behind ps (put p tx) m 1 some_slot next (omega arith) (omega (arith, room))
          ∙ ap (λ i. get_or (set tx.slots tx.head p) i []) (sym h)
          ∙ get_or-set_self tx.slots tx.head p [] here,
      put_all-Holds ps (put p tx) (m + 1) (put-IsRing p tx r) next (omega (arith, room)),
    )

whole :
    (room size : ℕ) (p : List ℕ)
    → length p ≤ room
    → length p ≤ size
    → take (min (min (length p) room) size) p ≡ p
whole room size p fits fits' =
    let all : min (min (length p) room) size ≡ length p = omega (arith, fits, fits') in
    ap (λ k. take k p) all ∙ take-length p

abbrev Within : ℕ → ℕ → List ℕ → Type 0
Within room size p = (length p ≤ room) × (length p ≤ size)

fetch_all-Holds :
    (ps : List (List ℕ)) (room m : ℕ) (rx : Ring)
    → 0 < rx.num_slots
    → rx.cur ≡ m % rx.num_slots
    → rx.tail ≡ (m + length ps) % rx.num_slots
    → length ps < rx.num_slots
    → Holds rx.num_slots rx.slots m ps
    → All (Within room rx.buf_size) ps
    → (fetch_all (suc (length ps)) room rx).0 ≡ map ok ps ++ ok [] ∷ []
unfolding fetch_all fetch
fetch_all-Holds [] room m rx some_slot at end small held fits =
    let below : rx.cur < rx.num_slots =
      subst (λ i. i < rx.num_slots) (sym at) (mod-lt m some_slot) in
    let inside : leb rx.num_slots rx.cur ≡ false = ground (arith, below) in
    let same : rx.cur ≡ rx.tail = at ∙ ap (λ j. j % rx.num_slots) (omega arith) ∙ sym end in
    let empty : (rx.cur == rx.tail) ≡ true = ground (arith, same) in rw (inside, empty) refl
fetch_all-Holds (p ∷ ps) room m rx some_slot at end small held fits =
    let n = rx.num_slots in
    let below : rx.cur < n = subst (λ i. i < n) (sym at) (mod-lt m some_slot) in
    let inside : leb n rx.cur ≡ false = ground (arith, below) in
    let apart = places_ne n m (suc (length ps)) some_slot (omega arith) small in
    let more : (rx.cur == rx.tail) ≡ false = ground (arith, apart, at, end) in
    let packet = ap (λ i. get_or rx.slots i []) at ∙ held.0 in
    let next : (rx.cur + 1) % n ≡ (m + 1) % n = ap (λ j. (j + 1) % n) at ∙ mod-add-mod m n 1 in
    let end' : rx.tail ≡ (m + 1 + length ps) % n = end ∙ ap (λ j. j % n) (omega arith) in
    let rx' = record rx { cur = (rx.cur + 1) % n; head = (rx.cur + 1) % n } in
    let rest =
      fetch_all-Holds ps room (m + 1) rx' some_slot next end' (omega (arith, small)) held.1
        fits.1 in
    rw (inside, more, packet, whole room rx.buf_size p fits.0.0 fits.0.1) (ap (◌∷◌ (ok p)) rest)

-- What the kernel's switch does between two syncs, by the convention of netmap's rings: the packets that a
-- sender staged from its old head to its new one stand, in their order, in the receiver's slots from its
-- cursor up to its tail. The two rings have numbers of slots and cursors of their own.
pub record Delivers (tx tx' rx : Ring) (count : ℕ) : Type 0 where
  pub inside : rx.cur < rx.num_slots
  pub room : count < rx.num_slots
  pub up_to : rx.tail ≡ (rx.cur + count) % rx.num_slots
  pub copies :
      (k : ℕ)
      → k < count
      → get_or rx.slots ((rx.cur + k) % rx.num_slots) []
        ≡ get_or tx'.slots ((tx.head + k) % tx.num_slots) []

-- Slots that are copied one by one hold the same packets.
Holds-copies :
    (ps : List (List ℕ)) (n n' m m' : ℕ) (slots slots' : List (List ℕ))
    → Holds n slots m ps
    → ((k : ℕ) → k < length ps → get_or slots' ((m' + k) % n') [] ≡ get_or slots ((m + k) % n) [])
    → Holds n' slots' m' ps
Holds-copies [] n n' m m' slots slots' held copies = tt
Holds-copies (p ∷ ps) n n' m m' slots slots' held copies =
    let zero_on : (i : ℕ) → i ≡ i + 0 = λ i. omega arith in
    let one_on : (i k : ℕ) → i + 1 + k ≡ i + suc k = λ i k. omega arith in
    (
      ap (λ i. get_or slots' (i % n') []) (zero_on m')
          ∙ copies 0 (omega arith)
          ∙ ap (λ i. get_or slots (i % n) []) (sym (zero_on m))
          ∙ held.0,
      Holds-copies ps n n' (m + 1) (m' + 1) slots slots' held.1 (λ k below.
          ap (λ i. get_or slots' (i % n') []) (one_on m' k)
          ∙ copies (suc k) (omega (arith, below))
          ∙ ap (λ i. get_or slots (i % n) []) (sym (one_on m k))),
    )

-- Packets that a sender stages, no more than its ring has slots, each within a slot's size of both rings,
-- and that the kernel delivers to a receiver's ring with room for them, are read there as they were sent
-- and in their order; after them nothing is pending.
pub fetch_all-stage_all :
    (tx rx : Ring) (ps : List (List ℕ))
    → IsRing tx
    → All (Fits tx) ps
    → All (Fits rx) ps
    → length ps ≤ tx.num_slots
    → Delivers tx (stage_all ps tx).1 rx (length ps)
    → (fetch_all (suc (length ps)) 65535 rx).0 ≡ map ok ps ++ ok [] ∷ []
fetch_all-stage_all tx rx ps r fits fits' small d =
    let start : tx.head ≡ tx.head % tx.num_slots = sym (mod-eq_of_lt r.inside) in
    let staged : (stage_all ps tx).1 ≡ put_all ps tx =
      ap (λ s. s.1) (stage_all-put_all ps tx r fits) in
    fetch_all-Holds ps 65535 rx.cur rx (omega (arith, d.inside)) (sym (mod-eq_of_lt d.inside))
      d.up_to d.room
      (Holds-copies ps tx.num_slots rx.num_slots tx.head rx.cur (put_all ps tx).slots rx.slots
        (put_all-Holds ps tx tx.head r start small)
        (λ k below.
          d.copies k below
          ∙ ap (λ (t : Ring). get_or t.slots ((tx.head + k) % tx.num_slots) []) staged))
      fits'

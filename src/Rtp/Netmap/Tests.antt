-- ===== src/Rtp/Netmap/Tests.antt =====
-- The netmap rings of crates/net-rtp-aes67 at concrete packets.
use sonicbrew.Base.{ℕ, zero, suc, ◌+◌, ◌%◌, ◌<◌, ◌≡◌, refl, List, [], ◌∷◌, get_or, arith}
use sonicbrew.Rtp.Error.{ok}
use sonicbrew.Rtp.Netmap.{Ring, stage, slots_free}
use sonicbrew.Rtp.Netmap.Overrun.{stage_all, IsRing, stage_all_overrun}
use sonicbrew.Rtp.Netmap.Transfer.{fetch_all, Delivers, fetch_all-stage_all}

-- Two slots of four bytes; the head is the second one.
abbrev small : Ring
small = record { num_slots = 2; buf_size = 4; head = 1; cur = 1; tail = 0; slots = [] ∷ [] ∷ [] }

small-IsRing : IsRing small
small-IsRing = record { inside = omega arith; slots = refl }

stage_all_overrun_example :
    let (results, tx) = stage_all ((1 ∷ []) ∷ (2 ∷ 2 ∷ []) ∷ (3 ∷ []) ∷ []) small in
    (results ≡ ok 1 ∷ ok 2 ∷ ok 1 ∷ []) × (get_or tx.slots 1 [] ≡ 3 ∷ []) × (tx.tail ≡ 0)
stage_all_overrun_example =
    stage_all_overrun small ((1 ∷ []) ∷ (2 ∷ 2 ∷ []) ∷ []) (3 ∷ []) small-IsRing
      ((omega arith, omega arith), ((omega arith, omega arith), ((omega arith, omega arith), tt)))
      refl

-- The receiver's ring has three slots, and its cursor stands at the last.
abbrev delivered : Ring
delivered = record {
  num_slots = 3;
  buf_size = 8;
  head = 2;
  cur = 2;
  tail = 1;
  slots = (3 ∷ []) ∷ (9 ∷ []) ∷ (1 ∷ 2 ∷ []) ∷ [];
}

abbrev two : List (List ℕ)
two = (1 ∷ 2 ∷ []) ∷ (3 ∷ []) ∷ []

copied :
    (k : ℕ)
    → k < 2
    → get_or delivered.slots ((delivered.cur + k) % delivered.num_slots) []
      ≡ get_or (stage_all two small).1.slots ((small.head + k) % small.num_slots) []
unfolding stage_all stage slots_free
copied zero h = refl
copied (suc zero) h = refl
copied (suc (suc k)) h = absurd (omega (arith, h))

delivers : Delivers small (stage_all two small).1 delivered 2
delivers = record { inside = omega arith; room = omega arith; up_to = refl; copies = copied }

fetch_all-stage_all_example :
    (fetch_all 3 65535 delivered).0 ≡ ok (1 ∷ 2 ∷ []) ∷ ok (3 ∷ []) ∷ ok [] ∷ []
fetch_all-stage_all_example =
    fetch_all-stage_all small delivered two small-IsRing
      ((omega arith, omega arith), ((omega arith, omega arith), tt))
      ((omega arith, omega arith), ((omega arith, omega arith), tt)) (omega arith) delivers

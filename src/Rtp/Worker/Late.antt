-- ===== src/Rtp/Worker/Late.antt =====
-- What the receive loop of crates/net-rtp-aes67/src/worker.rs does with packets out of order.
use sonicbrew.Base.{
  ℕ, ◌+◌, ◌-◌, ◌%◌, ◌^◌, ◌≤◌, ◌<◌, ◌≡◌, refl, sym, ◌∙◌, false, some, List, [], ◌∷◌, ◌++◌,
  append_assoc, append-nil, map, ap, arith, leb, length, length-append, take, drop, take-drop,
  length-drop,
}
use mathlib.Core.Path.{subst}
use sonicbrew.Base.HashMap
use sonicbrew.Rtp.Jitter.{JitterBuffer, gap, push, pop, closest, skip_gap, len, is_empty}
use sonicbrew.Rtp.Jitter.Distance.{half, ahead_test, behind_test, forward_distance_ahead}
use sonicbrew.Rtp.Worker.{
  drain_run, drain_loop, drain_jitter, recv_frames, push_frames, recv_packet,
}

-- A buffer that holds nothing, between packets.
abbrev pub waiting {ℓ} : {A : Type ℓ} → ℕ → ℕ → JitterBuffer A
waiting next capacity = record { next_seq = some next; buf = []; capacity = capacity }

module _ {ℓ κ} {A : Type ℓ} {F : Type κ} (frame : A → F) where
  -- A packet ahead of the next one is handed out at once.
  recv_ahead :
      (b s capacity : ℕ) (payload : A)
      → 0 < capacity
      → 0 < gap b s
      → gap b s < half
      → s < 2 ^ 16
      → b < 2 ^ 16
      → recv_frames frame (waiting b capacity) s payload
        ≡ (frame payload ∷ [], waiting ((s + 1) % 2 ^ 16) capacity)
  unfolding recv_frames drain_jitter drain_loop drain_run push pop skip_gap closest is_empty len
      HashMap.get HashMap.contains_key HashMap.insert HashMap.remove
  recv_ahead b s capacity payload room lo hi hs hb =
      ground (arith, ahead_test b s, behind_test b s, forward_distance_ahead b s)

  recv_late :
      (b t capacity : ℕ) (payload : A)
      → half ≤ gap b t
      → recv_frames frame (waiting b capacity) t payload ≡ ([], waiting b capacity)
  unfolding recv_frames drain_jitter drain_loop drain_run push pop skip_gap closest is_empty len
      HashMap.get HashMap.contains_key HashMap.insert HashMap.remove
  recv_late b t capacity payload behind = ground (arith, behind_test b t)

  -- Two packets that arrive in the wrong order: the loop hands out the first at once, declares what
  -- stands before it lost, and drops the second as late. The buffer has no part in it, whatever its
  -- capacity.
  pub recv-reorder_lost :
      (b s t capacity : ℕ) (early late : A)
      → 0 < capacity
      → b < 2 ^ 16
      → s < 2 ^ 16
      → t < 2 ^ 16
      → gap b t < gap b s
      → gap b s < half
      → let (first, jb) = recv_frames frame (waiting b capacity) s early in
        let (second, jb') = recv_frames frame jb t late in
        (first ≡ frame early ∷ []) × (second ≡ []) × (jb'.next_seq ≡ some ((s + 1) % 2 ^ 16))
  recv-reorder_lost b s t capacity early late room hb hs ht before near =
      rw (recv_ahead b s capacity early room (omega arith) near hs hb)
        (rw (recv_late ((s + 1) % 2 ^ 16) t capacity late (omega arith)) (refl, refl, refl))

  recv_next :
      (b capacity : ℕ) (payload : A)
      → 0 < capacity
      → b < 2 ^ 16
      → recv_frames frame (waiting b capacity) b payload
        ≡ (frame payload ∷ [], waiting ((b + 1) % 2 ^ 16) capacity)
  unfolding recv_frames drain_jitter drain_loop drain_run push pop is_empty len HashMap.get
      HashMap.contains_key HashMap.insert HashMap.remove
  recv_next b capacity payload room hb = ground (arith, behind_test b b)

  -- The packets of a sender whose sequence numbers count up from `b`, before each of which the graph takes
  -- some frames out of the inbound ring: all that the graph takes, what is left in the ring, and the
  -- buffer.
  unfoldable pub recv_all :
      ℕ → ℕ → List (ℕ × A) → List F → JitterBuffer A → List F × List F × JitterBuffer A
  unfolding recv_packet
  recv_all capacity b [] inbound jb = ([], inbound, jb)
  recv_all capacity b ((n, payload) ∷ rest) inbound jb =
      let (inbound', jb') = recv_packet frame capacity (drop n inbound) jb b payload in
      let (taken, left, jb'') = recv_all capacity ((b + 1) % 2 ^ 16) rest inbound' jb' in
      (take n inbound ++ taken, left, jb'')

  -- The graph takes frames fast enough: before each packet the ring, which held `queued`, has room.
  abbrev pub KeepsUp : ℕ → ℕ → List (ℕ × A) → Type 0
  KeepsUp capacity queued [] = Unit {0}
  KeepsUp capacity queued ((n, payload) ∷ rest) =
      (queued - n < capacity) × KeepsUp capacity (queued - n + 1) rest

  recv_packet_next :
      (b capacity size : ℕ) (inbound : List F) (payload : A)
      → 0 < size
      → length inbound < capacity
      → b < 2 ^ 16
      → recv_packet frame capacity inbound (waiting b size) b payload
        ≡ (inbound ++ frame payload ∷ [], waiting ((b + 1) % 2 ^ 16) size)
  unfolding recv_packet push_frames
  recv_packet_next b capacity size inbound payload some_size room hb =
      let fits : leb capacity (length inbound) ≡ false = ground (arith, room) in
      rw (recv_next b size payload some_size hb, fits) refl

  -- A stream in order, whose frames the graph takes fast enough that the inbound ring never fills: what the
  -- graph has taken and what is left in the ring are the ring's first frames and then all frames of the
  -- stream, in order, over any number of wraps of the sequence number.
  pub recv_all-in_order :
      (packets : List (ℕ × A)) (b capacity size : ℕ) (inbound : List F)
      → 0 < size
      → b < 2 ^ 16
      → KeepsUp capacity (length inbound) packets
      → let (taken, left, _) = recv_all capacity b packets inbound (waiting b size) in
        taken ++ left ≡ inbound ++ map (λ p. frame p.1) packets
  unfolding recv_all
  recv_all-in_order [] b capacity size inbound some_size hb keeps = sym (append-nil inbound)
  recv_all-in_order ((n, payload) ∷ rest) b capacity size inbound some_size hb keeps =
      let b' = (b + 1) % 2 ^ 16 in
      let kept = drop n inbound in
      let room : length kept < capacity = omega (arith, keeps.0, length-drop n inbound) in
      let queue = kept ++ frame payload ∷ [] in
      let queued : length queue ≡ length inbound - n + 1 =
        omega (arith, length-append kept (frame payload ∷ []), length-drop n inbound) in
      let ih =
        recv_all-in_order rest b' capacity size queue some_size (omega arith)
          (subst (λ q. KeepsUp capacity q rest) (sym queued) keeps.1) in
      let after = recv_all capacity b' rest queue (waiting b' size) in
      ap
        (λ (r : List F × JitterBuffer A).
          let (taken, left, _) = recv_all capacity b' rest r.0 r.1 in
          (take n inbound ++ taken) ++ left)
        (recv_packet_next b capacity size kept payload some_size room hb)
      ∙ append_assoc (take n inbound) after.0 after.1
      ∙ ap (λ xs. take n inbound ++ xs) (ih ∙ append_assoc kept (frame payload ∷ []) _)
      ∙ sym (append_assoc (take n inbound) kept _)
      ∙ ap (λ xs. xs ++ frame payload ∷ map (λ p. frame p.1) rest) (take-drop n inbound)

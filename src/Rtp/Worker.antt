-- ===== src/Rtp/Worker.antt =====
-- The receive side of crates/net-rtp-aes67/src/worker.rs: `drain_jitter`, and the body of the loop of
-- `spawn_rtp_recv_loop` for one packet that arrives. `frame` stands for the decoding of a payload
-- into an `AudioFrame`, which the buffer does not look at.
pub mod Drain
pub mod Late
use sonicbrew.Base.{
  ℕ, zero, suc, Bool, true, false, Option, none, some, List, [], ◌∷◌, ◌++◌, ◌==◌, if◌then◌else◌,
  leb, length,
}
use sonicbrew.Rtp.Jitter.{JitterBuffer, push, pop, skip_gap, len, is_empty}

module _ {ℓ κ} {A : Type ℓ} {F : Type κ} (frame : A → F) where
  -- `while let Some((_seq, payload)) = jitter.pop()`
  unfoldable pub drain_run : ℕ → JitterBuffer A → List F × JitterBuffer A
  drain_run zero jb = ([], jb)
  drain_run (suc fuel) jb =
      let (out, jb') = pop jb in
      elim out [
        | none ↦ ([], jb')
        | some (seq, payload) ↦
            let (frames, jb'') = drain_run fuel jb' in (frame payload ∷ frames, jb'')
      ]

  -- The outer `loop`.
  unfoldable pub drain_loop : ℕ → JitterBuffer A → List F × JitterBuffer A
  drain_loop zero jb = ([], jb)
  drain_loop (suc fuel) jb =
      let (frames, jb') = drain_run (suc (len jb)) jb in
      elim (is_empty jb') [
        | true ↦ (frames, jb')
        | false ↦
            let (skipped, jb'') = skip_gap jb' in
            elim (skipped == 0) [
              | true ↦ (frames, jb'')
              | false ↦ let (more, jb''') = drain_loop fuel jb'' in (frames ++ more, jb''')
            ]
      ]

  unfoldable pub drain_jitter : JitterBuffer A → List F × JitterBuffer A
  unfolding len
  drain_jitter jb = drain_loop (suc (len jb)) jb

  -- A packet is pushed, the outcome is dropped, and the buffer is drained: the frames that it hands out.
  unfoldable pub recv_frames : JitterBuffer A → ℕ → A → List F × JitterBuffer A
  recv_frames jb seq payload = drain_jitter (push jb seq payload).1

  -- The loop that pushes the frames into the inbound ring, which holds `capacity` frames: one that does
  -- not fit is dropped, and the loop breaks, so that all after it are dropped too.
  unfoldable pub push_frames : ℕ → List F → List F → List F
  push_frames capacity [] inbound = inbound
  push_frames capacity (f ∷ frames) inbound =
      if leb capacity (length inbound)
      then inbound
      else push_frames capacity frames (inbound ++ f ∷ [])

  -- The loop's body for a packet that arrives, on the frames in the inbound ring and the jitter buffer.
  unfoldable pub recv_packet : ℕ → List F → JitterBuffer A → ℕ → A → List F × JitterBuffer A
  unfolding recv_frames push_frames
  recv_packet capacity inbound jb seq payload =
      let (frames, jb') = recv_frames jb seq payload in (push_frames capacity frames inbound, jb')

-- ===== src/Pulse/Daemon/Request.antt =====
-- A request of crates/gw-pulse/src/daemon.rs finds its own reply among the frames that the server sends.
use sonicbrew.Base.{
  ℕ, zero, suc, ◌+◌, ◌%◌, ◌^◌, ◌<◌, ◌≤◌, ◌≡◌, ◌≢◌, refl, sym, ◌∙◌, true, false, ◌||◌, List, [], ◌∷◌,
  ◌++◌, append_assoc, length, arith, ◌==◌, if◌then◌else◌, All, Bool-cases, inl, inr,
}
use mathlib.Core.Path.{subst}
use sonicbrew.Pulse.Codec.{max_len}
use sonicbrew.Pulse.Command
use sonicbrew.Pulse.Socket.{Socket, Result, ok, err}
use sonicbrew.Pulse.Daemon.{Frame, PulseDaemon, await_reply, request, error_reply}
use sonicbrew.Pulse.Daemon.Frames.{
  IsFrame, frame_bytes, write_frame-frame_bytes, read_frame-frame_bytes,
}

-- What a request makes of the frame with its tag.
abbrev pub answer : Frame → Result Frame
answer frame =
    if frame.command == Command.error || frame.command == Command.timeout
    then err (error_reply frame)
    else ok frame

-- Frames that answer another request, or none.
abbrev pub Unsolicited : ℕ → List Frame → Type 0
Unsolicited tag others = All (λ f. IsFrame f × (f.tag ≢ tag)) others

abbrev pub all_bytes : List Frame → List ℕ
all_bytes [] = []
all_bytes (f ∷ fs) = frame_bytes f ++ all_bytes fs

reply_here :
    (patience : ℕ) (reply : Frame) (s : Socket) (rest : List ℕ)
    → IsFrame reply
    → s.incoming ≡ frame_bytes reply ++ rest
    → await_reply (suc patience) reply.tag s ≡ (answer reply, record s { incoming = rest })
unfolding await_reply
reply_here patience reply s rest h e =
    let same : (reply.tag == reply.tag) ≡ true = ground arith in
    rw (read_frame-frame_bytes reply s rest h e, same)
      (elim (Bool-cases (reply.command == Command.error || reply.command == Command.timeout)) [
        | inl failed ↦ rw failed refl
        | inr fine ↦ rw fine refl
      ])

pub await_reply-skips :
    (others : List Frame) (patience : ℕ) (reply : Frame) (s : Socket) (rest : List ℕ)
    → length others < patience
    → Unsolicited reply.tag others
    → IsFrame reply
    → s.incoming ≡ all_bytes others ++ (frame_bytes reply ++ rest)
    → await_reply patience reply.tag s ≡ (answer reply, record s { incoming = rest })
unfolding await_reply
await_reply-skips others zero reply s rest enough skipped h e = absurd (omega (arith, enough))
await_reply-skips [] (suc patience) reply s rest enough skipped h e =
    reply_here patience reply s rest h e
await_reply-skips (f ∷ others) (suc patience) reply s rest enough skipped h e =
    let tail = all_bytes others ++ (frame_bytes reply ++ rest) in
    let e' = e ∙ append_assoc (frame_bytes f) (all_bytes others) (frame_bytes reply ++ rest) in
    let other : (f.tag == reply.tag) ≡ false = ground (arith, skipped.0.1) in
    rw (read_frame-frame_bytes f s tail skipped.0.0 e', other)
      (await_reply-skips others patience reply (record s { incoming = tail }) rest
        (omega (arith, enough)) skipped.1 h refl)

-- The daemon after a request.
abbrev pub after : PulseDaemon → ℕ → List ℕ → List ℕ → PulseDaemon
after d command body rest = record d {
  stream = record d.stream {
    incoming = rest;
    written =
        d.stream.written
        ++ frame_bytes (record { command = command; tag = d.next_tag; payload = body });
  };
  next_tag = (d.next_tag + 1) % 2 ^ 32;
}

-- On a connection that takes what is written, a request that the wire can carry writes its one frame.
-- When the server then sends frames with other tags, fewer than the deadline allows, and then the frame
-- with the request's tag, the request ends with that frame, or with its error where it reports one. What
-- the server sent after it is left, and the next request has the next tag.
pub request-answer :
    (patience command : ℕ) (body : List ℕ) (d : PulseDaemon) (others : List Frame) (reply : Frame)
    (rest : List ℕ)
    → d.stream.write_faults ≡ []
    → command < 2 ^ 32
    → 10 + length body ≤ max_len
    → length others < patience
    → Unsolicited d.next_tag others
    → IsFrame reply
    → reply.tag ≡ d.next_tag
    → d.stream.incoming ≡ all_bytes others ++ (frame_bytes reply ++ rest)
    → request patience command body d ≡ (answer reply, after d command body rest)
unfolding request
request-answer patience command body d others reply rest ready small fits enough skipped h mine e =
    let frame : Frame = record { command = command; tag = d.next_tag; payload = body } in
    let sent : Socket = record d.stream { written = d.stream.written ++ frame_bytes frame } in
    let found =
      await_reply-skips others patience reply sent rest enough
        (subst (λ t. Unsolicited t others) (sym mine) skipped) h e in
    rw
      (
        write_frame-frame_bytes frame d.stream ready,
        subst (λ t. await_reply patience t sent ≡ (answer reply, record sent { incoming = rest }))
            mine found,
      )
      refl

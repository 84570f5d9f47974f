-- ===== src/Pulse/Daemon/Frames.antt =====
-- A control frame of crates/gw-pulse/src/daemon.rs that is written is read back.
use sonicbrew.Base.{
  ℕ, ◌+◌, ◌^◌, ◌<◌, ◌≤◌, ◌≡◌, refl, sym, ap, ◌∙◌, true, false, List, [], ◌∷◌, ◌++◌, append_assoc,
  length, length-append, drop-append, take-append, drop, arith, ltb, min,
}
use mathlib.Core.Path.{subst}
use sonicbrew.Base.Bytes.{to_be32, to_be64, be32_roundtrip}
use sonicbrew.Pulse.Codec
use sonicbrew.Pulse.Codec.{max_len, parse_header, is_valid, header_len, PacketHeader}
use sonicbrew.Pulse.Tags.{tag_u32}
use sonicbrew.Pulse.Reader.RoundTrip.{Reads-read_u32}
use sonicbrew.Pulse.Socket.{Socket, ok, write_all, read_exact}
use sonicbrew.Pulse.Daemon.{Frame, write_frame, read_frame, frame_of, u32_max}

-- The frame on the wire: its length, the channel of a control packet, two empty fields, the command, the
-- tag and the payload.
abbrev pub body_bytes : Frame → List ℕ
body_bytes f = tag_u32 ∷ (to_be32 f.command ++ (tag_u32 ∷ (to_be32 f.tag ++ f.payload)))

abbrev pub descriptor : ℕ → List ℕ
descriptor n = to_be32 n ++ (to_be32 u32_max ++ (to_be64 0 ++ to_be32 0))

abbrev pub frame_bytes : Frame → List ℕ
frame_bytes f = descriptor (length (body_bytes f)) ++ body_bytes f

-- What the wire can carry.
pub record IsFrame (f : Frame) : Type 0 where
  pub command_small : f.command < 2 ^ 32
  pub tag_small : f.tag < 2 ^ 32
  pub fits : 10 + length f.payload ≤ max_len

five_parts :
    (w a b c d e : List ℕ) → ((((w ++ a) ++ b) ++ c) ++ d) ++ e ≡ w ++ ((a ++ (b ++ (c ++ d))) ++ e)
five_parts w a b c d e =
    rw
      (
        append_assoc w a b,
        append_assoc w (a ++ b) c,
        append_assoc w ((a ++ b) ++ c) d,
        append_assoc w (((a ++ b) ++ c) ++ d) e,
        append_assoc a b c,
        append_assoc a (b ++ c) d,
        append_assoc b c d,
      )
      refl

write_frame_faultless :
    (f : Frame) (incoming written : List ℕ)
    → let socket : List ℕ → Socket =
        λ w. record { incoming = incoming; written = w; write_faults = [] } in
      write_frame f.command f.tag f.payload (socket written)
      ≡ (ok tt, socket (written ++ frame_bytes f))
unfolding write_frame write_all
write_frame_faultless f incoming written =
    ap (λ w. (ok tt, record { incoming = incoming; written = w; write_faults = [] }))
      (five_parts written (to_be32 (length (body_bytes f))) (to_be32 u32_max) (to_be64 0)
        (to_be32 0) (body_bytes f))

pub write_frame-frame_bytes :
    (f : Frame) (s : Socket)
    → s.write_faults ≡ []
    → write_frame f.command f.tag f.payload s
      ≡ (ok tt, record s { written = s.written ++ frame_bytes f })
write_frame-frame_bytes f s h =
    subst
      (λ faults.
        write_frame f.command f.tag f.payload (record s { write_faults = faults })
        ≡ (ok tt, record s { written = s.written ++ frame_bytes f; write_faults = faults }))
      (sym h) (write_frame_faultless f s.incoming s.written)

payload_left : (f : Frame) → drop (min (5 + 5) (length (body_bytes f))) (body_bytes f) ≡ f.payload
payload_left f =
    let ten : min (5 + 5) (length (body_bytes f)) ≡ 10 = omega arith in
    ap (λ n. drop n (body_bytes f)) ten

frame_of-body_bytes : (f : Frame) → IsFrame f → frame_of (body_bytes f) ≡ ok f
unfolding frame_of
frame_of-body_bytes f h =
    let first =
      Reads-read_u32 f.command h.command_small [] (tag_u32 ∷ (to_be32 f.tag ++ f.payload))
        (omega (arith, h.fits)) in
    let second =
      Reads-read_u32 f.tag h.tag_small (tag_u32 ∷ to_be32 f.command) f.payload
        (omega (arith, h.fits)) in
    rw (first, second) (ap (λ bs. ok (record f { payload = bs })) (payload_left f))

parse_header-descriptor :
    (n : ℕ)
    → 0 < n
    → n ≤ max_len
    → (header : PacketHeader) × (parse_header (descriptor n) ≡ Codec.ok header)
      × (is_valid header ≡ true)
      × (header.length ≡ n)
unfolding parse_header is_valid
parse_header-descriptor n pos small =
    let word = be32_roundtrip n (omega (arith, small)) in
    (_, refl, rw word (ground (arith, pos, small)), word)

pub read_exact-append :
    (s : Socket) (bs rest : List ℕ)
    → s.incoming ≡ bs ++ rest
    → read_exact (length bs) s ≡ (ok bs, record s { incoming = rest })
unfolding read_exact
read_exact-append s bs rest e =
    let enough : ltb (length s.incoming) (length bs) ≡ false =
      rw e (ground (arith, length-append bs rest)) in
    rw (enough, e, take-append bs rest, drop-append bs rest) refl

-- Whatever follows a frame on the wire, it is read back as it was, and what follows is left.
pub read_frame-frame_bytes :
    (f : Frame) (s : Socket) (rest : List ℕ)
    → IsFrame f
    → s.incoming ≡ frame_bytes f ++ rest
    → read_frame s ≡ (ok f, record s { incoming = rest })
unfolding read_frame
read_frame-frame_bytes f s rest h e =
    let n = length (body_bytes f) in
    let (header, parsed, valid, size) =
      parse_header-descriptor n (omega arith) (omega (arith, h.fits)) in
    let e' = e ∙ append_assoc (descriptor n) (body_bytes f) rest in
    rw
      (
        read_exact-append s (descriptor n) (body_bytes f ++ rest) e',
        parsed,
        valid,
        size,
        read_exact-append (record s { incoming = body_bytes f ++ rest }) (body_bytes f) rest refl,
        frame_of-body_bytes f h,
      )
      refl

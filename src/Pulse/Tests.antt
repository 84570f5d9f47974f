-- ===== src/Pulse/Tests.antt =====
-- The properties of crates/gw-pulse at concrete inputs, and runs of the code.
use sonicbrew.Base.{◌≡◌, refl, none, some, [], ◌∷◌, arith}
use sonicbrew.Pulse.Codec.{ok}
use sonicbrew.Pulse.Reader.{new, remaining, is_utf8_from}
use sonicbrew.Pulse.Tags.{
  write_u32, write_string, write_string_null, write_sample_spec, write_arbitrary, write_cvolume,
  write_proplist, write_volumes, write_pairs,
}
use sonicbrew.Pulse.Reader.Message.{
  Message, IsMessage, u32_kind, string_kind, sample_spec_kind, arbitrary_kind, cvolume_kind,
  proplist_kind, write_all, read_all, kinds, read_all-write_all,
}

-- A sample specification, a name in two-byte UTF-8, no name, a number, a blob, the volumes of two
-- channels and one property.
abbrev message : Message
message =
    (sample_spec_kind, (48000, 2, 5))
    ∷ (string_kind, some (0xC3 ∷ 0xA9 ∷ 0x41 ∷ []))
    ∷ (string_kind, none)
    ∷ (u32_kind, 0xDEAD_BEEF)
    ∷ (arbitrary_kind, 0 ∷ 1 ∷ 2 ∷ [])
    ∷ (cvolume_kind, 0x10000 ∷ 0x8000 ∷ [])
    ∷ (proplist_kind, (0x61 ∷ [], 0x62 ∷ 0 ∷ []) ∷ [])
    ∷ []

message-IsMessage : IsMessage message
unfolding is_utf8_from
message-IsMessage = (
  omega arith,
  (
    (ground arith, omega arith, refl),
    (
      tt,
      (
        omega arith,
        (
          omega arith,
          (
            (omega arith, (omega arith, (omega arith, tt))),
            ((((ground arith), omega arith, refl, omega arith, refl, tt)), tt),
          ),
        ),
      ),
    ),
  ),
)

read_all-write_all_example :
    let (result, reader) =
      read_all (kinds message) (new (write_all (record { buf = [] }) message).buf) in
    (result ≡ ok message) × (remaining reader ≡ 0)
unfolding write_u32 write_string write_string_null write_sample_spec write_arbitrary write_cvolume
    write_proplist write_volumes write_pairs
read_all-write_all_example = read_all-write_all message message-IsMessage (omega arith)

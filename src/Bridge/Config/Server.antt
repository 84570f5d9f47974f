-- ===== src/Bridge/Config/Server.antt =====
-- The `server` key of crates/gw-alsa-plugin/src/bridge.rs with a host that names no port.
use sonicbrew.Base.{ℕ, ◌^◌, ◌<◌, ◌≡◌, ◌≢◌, refl, false, true, none, [], ◌∷◌, arith, All, ◌==◌, ltb}
use sonicbrew.Base.Ascii.{ascii}
use sonicbrew.Base.Int.{pos}
use sonicbrew.Bridge.Config.{
  Text, tcp, str, int, ok, err, invalid, port_zero, colon, same_text, key_of, take_pair, take_pairs,
  rsplit_colon, parse_server, endpoint_of, config_of, config_from_pairs, default_channels,
  default_rate,
}

rsplit_colon-none : (host : Text) → All (λ c. c ≢ colon) host → rsplit_colon host ≡ none
unfolding rsplit_colon
rsplit_colon-none [] h = refl
rsplit_colon-none (c ∷ host) h = ground (arith, rsplit_colon-none host h.1, h.0)

-- A host without a colon is accepted with a port beside it that is not 0 and fits in 16 bits, for stereo
-- at 48 kHz, and refused without one: the default port does not apply to it.
pub config_from_pairs-server :
    (host : Text) (p : ℕ)
    → All (λ c. c ≢ colon) host
    → 0 < p
    → p < 2 ^ 16
    → (config_from_pairs ((ascii "server", str host) ∷ (ascii "port", int (pos p)) ∷ [])
        ≡ ok (record { endpoint = tcp host p; channels = default_channels; rate = default_rate }))
      × (config_from_pairs ((ascii "server", str host) ∷ []) ≡ err (invalid port_zero))
unfolding config_from_pairs take_pairs take_pair key_of same_text config_of endpoint_of parse_server
config_from_pairs-server host p bare pos_p small =
    let whole = rsplit_colon-none host bare in
    let fits : ltb p (2 ^ 16) ≡ true = ground (arith, small) in
    let given : (p == 0) ≡ false = ground (arith, pos_p) in
    (rw (fits, whole, given) refl, rw whole refl)

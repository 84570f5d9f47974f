-- ===== src/Bridge/Config/Bounds.antt =====
-- What crates/gw-alsa-plugin/src/bridge.rs accepts as a configuration.
use sonicbrew.Base.{
  ℕ, ◌+◌, ◌-◌, ◌*◌, ◌^◌, ◌<◌, ◌≤◌, ◌≡◌, refl, ap, Bool-cases, Option-cases, ◌&&◌, not, Option, none,
  some, List, [], ◌∷◌, leb, ltb, ◌==◌, if◌then◌else◌, arith, inl, inr,
}
use mathlib.Core.Path.{subst}
use sonicbrew.Base.Int.{ℤ, pos, negsuc}
use sonicbrew.Bridge.{max_channels, max_rate}
use sonicbrew.Bridge.Config.{
  Text, Endpoint, unix, tcp, ConfValue, str, int, BridgeConfig, Why, Result, ok, err, ◌>>=◌, Key,
  socket_key, server_key, port_key, channels_key, rate_key, ignored_key, unknown, key_of, Found,
  port_of, take_pair, take_pairs, parse_digits, parse_u16, checked_port, port_given, split_server,
  parse_server, rsplit_colon, endpoint_of, tcp_of, limited, config_of, config_from_pairs,
  nothing_found, default_channels, default_rate, parse_signless, starts_bracketed, has_colon,
  default_server, default_tcp_port, port_zero, channels_range, rate_range, invalid,
}

abbrev pub IsEndpoint : Endpoint → Type 0
IsEndpoint (unix path) = Unit {0}
IsEndpoint (tcp host port) = (0 < port) × (port < 2 ^ 16)

-- What the plugin can work with.
pub record IsConfig (c : BridgeConfig) : Type 0 where
  pub endpoint : IsEndpoint c.endpoint
  pub channels : (0 < c.channels) × (c.channels ≤ max_channels)
  pub rate : (0 < c.rate) × (c.rate ≤ max_rate)

pub ok-injective : {A : Type 0} {a b : A} → ok a ≡ ok b → a ≡ b
ok-injective {a = a} h = ap (λ r. elim r [ ok x ↦ x | err e ↦ a ]) h

-- A chain of steps that succeeds has a first step that does.
pub bind-ok :
    {A B : Type 0} (r : Result A) (f : A → Result B) {b : B}
    → (r >>= f) ≡ ok b
    → (a : A) × (r ≡ ok a) × (f a ≡ ok b)
bind-ok (ok a) f h = (a, refl, h)
bind-ok (err e) f h = absurd (ground (arith, h))

abbrev IsPort : Option ℕ → Type 0
IsPort none = Unit {0}
IsPort (some p) = p < 2 ^ 16

port_of-ok : (v : ℤ) {p : ℕ} → port_of v ≡ ok p → p < 2 ^ 16
port_of-ok (pos n) h = elim (Bool-cases (ltb n (2 ^ 16))) [
  | inl small ↦ subst (λ m. m < 2 ^ 16) (ok-injective (rw small at h)) (ground (arith, small))
  | inr large ↦ absurd (ground (arith, rw large at h))
]
port_of-ok (negsuc n) h = absurd (ground (arith, h))

take_pair-port :
    (k : Key) (key : Text) (value : ConfValue) (f : Found) {f' : Found}
    → take_pair k key value f ≡ ok f'
    → IsPort f.port
    → IsPort f'.port
unfolding take_pair
take_pair-port socket_key key (str s) f h valid = subst (λ g. IsPort g.port) (ok-injective h) valid
take_pair-port socket_key key (int v) f h valid = absurd (ground (arith, h))
take_pair-port server_key key (str s) f h valid = subst (λ g. IsPort g.port) (ok-injective h) valid
take_pair-port server_key key (int v) f h valid = absurd (ground (arith, h))
take_pair-port port_key key (str s) f h valid = absurd (ground (arith, h))
take_pair-port port_key key (int v) f h valid =
    let (p, read, found) = bind-ok (port_of v) _ h in
    subst (λ g. IsPort g.port) (ok-injective found) (port_of-ok v read)
take_pair-port channels_key key (str s) f h valid = absurd (ground (arith, h))
take_pair-port channels_key key (int v) f h valid =
    subst (λ g. IsPort g.port) (ok-injective h) valid
take_pair-port rate_key key (str s) f h valid = absurd (ground (arith, h))
take_pair-port rate_key key (int v) f h valid = subst (λ g. IsPort g.port) (ok-injective h) valid
take_pair-port ignored_key key value f h valid = subst (λ g. IsPort g.port) (ok-injective h) valid
take_pair-port unknown key value f h valid = absurd (ground (arith, h))

take_pairs-port :
    (pairs : List (Text × ConfValue)) (f : Found) {f' : Found}
    → take_pairs pairs f ≡ ok f'
    → IsPort f.port
    → IsPort f'.port
unfolding take_pairs
take_pairs-port [] f h valid = subst (λ g. IsPort g.port) (ok-injective h) valid
take_pairs-port ((key, value) ∷ pairs) f h valid =
    let (g, taken, rest) = bind-ok (take_pair (key_of key) key value f) _ h in
    take_pairs-port pairs g rest (take_pair-port (key_of key) key value f taken valid)

parse_digits-lt :
    (value : ℕ) (text : Text) {p : ℕ}
    → value < 2 ^ 16
    → parse_digits value text ≡ some p
    → p < 2 ^ 16
unfolding parse_digits
parse_digits-lt value [] small h = ground (arith, h, small)
parse_digits-lt value (c ∷ text) small h =
    elim (Bool-cases (leb 48 c && leb c 57 && ltb (value * 10 + (c - 48)) (2 ^ 16))) [
      | inl fits ↦
          parse_digits-lt (value * 10 + (c - 48)) text (ground (arith, fits)) (rw fits at h)
      | inr large ↦ absurd (ground (arith, rw large at h))
    ]

parse_u16-lt : (text : Text) {p : ℕ} → parse_u16 text ≡ some p → p < 2 ^ 16
unfolding parse_u16
parse_u16-lt [] h = absurd (ground (arith, h))
parse_u16-lt (c ∷ text) h = elim (Bool-cases (c == 43)) [
  | inl plus ↦ signless text (rw plus at h)
  | inr other ↦ parse_digits-lt 0 (c ∷ text) (omega arith) (rw other at h)
]
  where
    signless : (t : Text) {p : ℕ} → parse_signless t ≡ some p → p < 2 ^ 16
    signless [] e = absurd (ground (arith, e))
    signless (d ∷ t) e = parse_digits-lt 0 (d ∷ t) (omega arith) e

-- The tests for a port of 0 leave one that can be connected to.
nonzero :
    (host : Text) (p : ℕ) (why : Why) {result : Text × ℕ}
    → p < 2 ^ 16
    → (if p == 0 then err (invalid why) else ok (host, p)) ≡ ok result
    → (0 < result.1) × (result.1 < 2 ^ 16)
nonzero host p why small h = elim (Bool-cases (p == 0)) [
  | inl zero_port ↦ absurd (ground (arith, rw zero_port at h))
  | inr some_port ↦
      subst (λ r. (0 < r.1) × (r.1 < 2 ^ 16)) (ok-injective (rw some_port at h))
        (ground (arith, some_port), small)
]

checked_port-IsPort :
    (host port_str : Text) (o : Option ℕ) {result : Text × ℕ}
    → IsPort o
    → checked_port host port_str o ≡ ok result
    → (0 < result.1) × (result.1 < 2 ^ 16)
checked_port-IsPort host port_str none valid h = absurd (ground (arith, h))
checked_port-IsPort host port_str (some p) valid h = nonzero host p port_zero valid h

port_given-IsPort :
    (server : Text) (o : Option ℕ) {result : Text × ℕ}
    → IsPort o
    → port_given server o ≡ ok result
    → (0 < result.1) × (result.1 < 2 ^ 16)
port_given-IsPort server none valid h = absurd (ground (arith, h))
port_given-IsPort server (some p) valid h = nonzero server p port_zero valid h

parsed : (text : Text) → IsPort (parse_u16 text)
parsed text = elim (Option-cases (parse_u16 text)) [
  | inl none_read ↦ rw none_read tt
  | inr (p, read) ↦ rw read (parse_u16-lt text read)
]

split_server-IsPort :
    (server : Text) (given : Option ℕ) (parts : Option (Text × Text)) {result : Text × ℕ}
    → IsPort given
    → split_server server given parts ≡ ok result
    → (0 < result.1) × (result.1 < 2 ^ 16)
split_server-IsPort server given none valid h = port_given-IsPort server given valid h
split_server-IsPort server (some p) (some (host, port_str)) valid h = absurd (ground (arith, h))
split_server-IsPort server none (some (host, port_str)) valid h =
    elim (Bool-cases (not (starts_bracketed host) && has_colon host)) [
      | inl bare ↦ absurd (ground (arith, rw bare at h))
      | inr fine ↦
          checked_port-IsPort host port_str (parse_u16 port_str) (parsed port_str) (rw fine at h)
    ]

tcp-IsEndpoint :
    (server : Text) (given : Option ℕ) {e : Endpoint}
    → IsPort given
    → (parse_server server given >>= tcp_of) ≡ ok e
    → IsEndpoint e
unfolding parse_server
tcp-IsEndpoint server given valid h =
    let (result, split, made) = bind-ok (parse_server server given) tcp_of h in
    subst IsEndpoint (ok-injective made)
      (split_server-IsPort server given (rsplit_colon server) valid split)

endpoint_of-IsEndpoint :
    (socket server : Option Text) (port : Option ℕ) {e : Endpoint}
    → IsPort port
    → endpoint_of socket server port ≡ ok e
    → IsEndpoint e
unfolding endpoint_of
endpoint_of-IsEndpoint (some path) (some server) port valid h = absurd (ground (arith, h))
endpoint_of-IsEndpoint (some path) none (some p) valid h = absurd (ground (arith, h))
endpoint_of-IsEndpoint (some path) none none valid h = subst IsEndpoint (ok-injective h) tt
endpoint_of-IsEndpoint none (some server) port valid h = tcp-IsEndpoint server port valid h
endpoint_of-IsEndpoint none none (some p) valid h = absurd (ground (arith, h))
endpoint_of-IsEndpoint none none none valid h =
    tcp-IsEndpoint default_server (some default_tcp_port) (omega arith) h

limited-le :
    (upper : ℕ) (why : Why) (default : ℕ) (v : Option ℤ) {n : ℕ}
    → (0 < default) × (default ≤ upper)
    → limited upper why default v ≡ ok n
    → (0 < n) × (n ≤ upper)
limited-le upper why default none bounds h =
    subst (λ m. (0 < m) × (m ≤ upper)) (ok-injective h) bounds
limited-le upper why default (some (pos m)) bounds h = elim (Bool-cases (leb 1 m && leb m upper)) [
  | inl inside ↦
      subst (λ k. (0 < k) × (k ≤ upper)) (ok-injective (rw inside at h)) (ground (arith, inside))
  | inr outside ↦ absurd (ground (arith, rw outside at h))
]
limited-le upper why default (some (negsuc m)) bounds h = absurd (ground (arith, h))

-- Whatever the keys and values: a configuration that is accepted has between 1 and 1024 channels and a
-- rate between 1 and 768000, and a TCP port that is not 0 and fits in 16 bits.
pub config_from_pairs-IsConfig :
    (pairs : List (Text × ConfValue)) (c : BridgeConfig)
    → config_from_pairs pairs ≡ ok c
    → IsConfig c
unfolding config_from_pairs config_of
config_from_pairs-IsConfig pairs c h =
    let (f, taken, made) = bind-ok (take_pairs pairs nothing_found) config_of h in
    let (endpoint, at, rest) = bind-ok (endpoint_of f.socket f.server f.port) _ made in
    let (channels, few, rest') =
      bind-ok (limited max_channels channels_range default_channels f.channels) _ rest in
    let (rate, slow, done) = bind-ok (limited max_rate rate_range default_rate f.rate) _ rest' in
    subst IsConfig (ok-injective done) (record {
      endpoint =
          endpoint_of-IsEndpoint f.socket f.server f.port
            (take_pairs-port pairs nothing_found taken tt) at;
      channels =
          limited-le max_channels channels_range default_channels f.channels (omega arith) few;
      rate = limited-le max_rate rate_range default_rate f.rate (omega arith) slow;
    })

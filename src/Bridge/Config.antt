-- ===== src/Bridge/Config.antt =====
-- `config_from_pairs` of crates/gw-alsa-plugin/src/bridge.rs: the configuration of the plugin from its
-- ALSA keys. A text is the list of its characters' numbers.
pub mod Bounds
pub mod Server
use sonicbrew.Base.{
  ℕ, ◌+◌, ◌-◌, ◌*◌, ◌^◌, Bool, true, false, ◌&&◌, ◌||◌, not, Option, none, some, List, [], ◌∷◌, ltb,
  leb, ◌==◌, if◌then◌else◌,
}
use sonicbrew.Base.Ascii.{ascii}
use sonicbrew.Base.Int.{ℤ, pos, negsuc}
use sonicbrew.Bridge.{max_channels, max_rate}

abbrev pub Text : Type 0
Text = List ℕ

abbrev pub default_server : Text
default_server = ascii "127.0.0.1"

abbrev pub default_tcp_port : ℕ
default_tcp_port = 9001

abbrev pub default_channels : ℕ
default_channels = 2

abbrev pub default_rate : ℕ
default_rate = 48000

pub data Endpoint : Type 0 where
  unix : Text → Endpoint
  tcp : Text → ℕ → Endpoint

pub data ConfValue : Type 0 where
  str : Text → ConfValue
  int : ℤ → ConfValue

pub record BridgeConfig : Type 0 where
  pub endpoint : Endpoint
  pub channels : ℕ
  pub rate : ℕ

-- The texts of a `Conflict` and an `Invalid`.
pub data Why : Type 0 where
  socket_and_server port_without_server server_carries_port : Why
  port_out_of_range port_zero unbracketed channels_range rate_range : Why
  bad_port : Text → Why

pub data ConfigError : Type 0 where
  unknown_key type_mismatch : Text → ConfigError
  conflict invalid : Why → ConfigError

pub data Result {ℓ} (A : Type ℓ) : Type ℓ where
  ok : A → Result A
  err : ConfigError → Result A

-- `?`
infixl 5 ◌>>=◌
abbrev pub ◌>>=◌ : {A B : Type 0} → Result A → (A → Result B) → Result B
ok a >>= f = f a
err e >>= f = err e

unfoldable pub same_text : Text → Text → Bool
same_text [] [] = true
same_text [] (d ∷ t) = false
same_text (c ∷ s) [] = false
same_text (c ∷ s) (d ∷ t) = c == d && same_text s t

-- The arms of the match on a key.
pub data Key : Type 0 where
  socket_key server_key port_key channels_key rate_key ignored_key unknown : Key

unfoldable pub key_of : Text → Key
unfolding same_text
key_of key =
    if same_text key (ascii "socket")
    then socket_key
    else if same_text key (ascii "server")
    then server_key
    else if same_text key (ascii "port")
    then port_key
    else if same_text key (ascii "channels")
    then channels_key
    else if same_text key (ascii "rate")
    then rate_key
    else if same_text key (ascii "type")
        || same_text key (ascii "comment")
        || same_text key (ascii "hint")
    then ignored_key
    else unknown

-- The variables of the loop.
pub record Found : Type 0 where
  pub socket : Option Text
  pub server : Option Text
  pub port : Option ℕ
  pub channels : Option ℤ
  pub rate : Option ℤ

-- `u16::try_from`
abbrev pub port_of : ℤ → Result ℕ
port_of (pos n) = if ltb n (2 ^ 16) then ok n else err (invalid port_out_of_range)
port_of (negsuc n) = err (invalid port_out_of_range)

unfoldable pub take_pair : Key → Text → ConfValue → Found → Result Found
take_pair socket_key key (str s) f = ok (record f { socket = some s })
take_pair socket_key key (int v) f = err (type_mismatch key)
take_pair server_key key (str s) f = ok (record f { server = some s })
take_pair server_key key (int v) f = err (type_mismatch key)
take_pair port_key key (str s) f = err (type_mismatch key)
take_pair port_key key (int v) f = port_of v >>= (λ p. ok (record f { port = some p }))
take_pair channels_key key (str s) f = err (type_mismatch key)
take_pair channels_key key (int v) f = ok (record f { channels = some v })
take_pair rate_key key (str s) f = err (type_mismatch key)
take_pair rate_key key (int v) f = ok (record f { rate = some v })
take_pair ignored_key key value f = ok f
take_pair unknown key value f = err (unknown_key key)

unfoldable pub take_pairs : List (Text × ConfValue) → Found → Result Found
unfolding take_pair key_of
take_pairs [] f = ok f
take_pairs ((key, value) ∷ pairs) f =
    take_pair (key_of key) key value f >>= (λ f'. take_pairs pairs f')

abbrev pub colon : ℕ
colon = 58

-- `rsplit_once(':')`
abbrev before_colon : ℕ → List ℕ → Option (Text × Text) → Option (Text × Text)
before_colon c rest (some (host, port)) = some (c ∷ host, port)
before_colon c rest none = if c == colon then some ([], rest) else none

unfoldable pub rsplit_colon : Text → Option (Text × Text)
rsplit_colon [] = none
rsplit_colon (c ∷ text) = before_colon c text (rsplit_colon text)

unfoldable pub has_colon : Text → Bool
has_colon [] = false
has_colon (c ∷ text) = c == colon || has_colon text

-- `starts_with('[')`
abbrev pub starts_bracketed : Text → Bool
starts_bracketed [] = false
starts_bracketed (c ∷ text) = c == 91

-- `parse::<u16>()`: digits after at most one plus sign, whose value fits.
unfoldable pub parse_digits : ℕ → Text → Option ℕ
parse_digits value [] = some value
parse_digits value (c ∷ text) =
    let rest = parse_digits (value * 10 + (c - 48)) text in
    if leb 48 c && leb c 57 && ltb (value * 10 + (c - 48)) (2 ^ 16) then rest else none

abbrev pub parse_signless : Text → Option ℕ
parse_signless [] = none
parse_signless (c ∷ text) = parse_digits 0 (c ∷ text)

unfoldable pub parse_u16 : Text → Option ℕ
unfolding parse_digits
parse_u16 [] = none
parse_u16 (c ∷ text) = if c == 43 then parse_signless text else parse_signless (c ∷ text)

abbrev pub checked_port : Text → Text → Option ℕ → Result (Text × ℕ)
checked_port host port_str none = err (invalid (bad_port port_str))
checked_port host port_str (some p) = if p == 0 then err (invalid port_zero) else ok (host, p)

abbrev pub port_given : Text → Option ℕ → Result (Text × ℕ)
port_given server none = err (invalid port_zero)
port_given server (some p) = if p == 0 then err (invalid port_zero) else ok (server, p)

abbrev pub split_server : Text → Option ℕ → Option (Text × Text) → Result (Text × ℕ)
split_server server given none = port_given server given
split_server server (some _) (some (host, port_str)) = err (conflict server_carries_port)
split_server server none (some (host, port_str)) =
    if not (starts_bracketed host) && has_colon host
    then err (invalid unbracketed)
    else checked_port host port_str (parse_u16 port_str)

unfoldable pub parse_server : Text → Option ℕ → Result (Text × ℕ)
unfolding rsplit_colon has_colon parse_u16
parse_server server given = split_server server given (rsplit_colon server)

abbrev pub tcp_of : Text × ℕ → Result Endpoint
tcp_of (host, port) = ok (tcp host port)

-- The checks for conflicts, and the endpoint.
unfoldable pub endpoint_of : Option Text → Option Text → Option ℕ → Result Endpoint
unfolding parse_server
endpoint_of (some path) (some server) port = err (conflict socket_and_server)
endpoint_of (some path) none (some p) = err (conflict port_without_server)
endpoint_of (some path) none none = ok (unix path)
endpoint_of none (some server) port = parse_server server port >>= tcp_of
endpoint_of none none (some p) = err (conflict port_without_server)
endpoint_of none none none = parse_server default_server (some default_tcp_port) >>= tcp_of

-- `unwrap_or(default)`, `u32::try_from` and the filter on a range that starts at 1.
abbrev pub limited : ℕ → Why → ℕ → Option ℤ → Result ℕ
limited upper why default none = ok default
limited upper why default (some (pos n)) =
    if leb 1 n && leb n upper then ok n else err (invalid why)
limited upper why default (some (negsuc n)) = err (invalid why)

unfoldable pub config_of : Found → Result BridgeConfig
unfolding endpoint_of
config_of f = endpoint_of f.socket f.server f.port >>= (λ endpoint.
    limited max_channels channels_range default_channels f.channels >>= (λ channels.
      limited max_rate rate_range default_rate f.rate
      >>= (λ rate. ok (record { endpoint = endpoint; channels = channels; rate = rate }))))

abbrev pub nothing_found : Found
nothing_found = record { socket = none; server = none; port = none; channels = none; rate = none }

unfoldable pub config_from_pairs : List (Text × ConfValue) → Result BridgeConfig
unfolding take_pairs config_of
config_from_pairs pairs = take_pairs pairs nothing_found >>= (λ f. config_of f)

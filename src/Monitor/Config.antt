-- ===== src/Monitor/Config.antt =====
-- `_parse_yaml` of c/monitor/monitor.c over the events of libyaml, and the address of the server.
pub mod Laws
use hpv_c.Base.{
  Text, same_text, ℕ, ◌+◌, Option, none, some, List, [], ◌∷◌, ◌++◌, leb, ◌==◌, length,
  if◌then◌else◌, ◌>>=◌, ◌>>◌, require,
}

-- The types of an event; `other` are those that the switch has no case for.
pub data YamlEvent : Type 0 where
  scalar : Text → YamlEvent
  sequence_start : YamlEvent
  sequence_end : YamlEvent
  mapping_start : YamlEvent
  mapping_end : YamlEvent
  stream_end : YamlEvent
  other : YamlEvent

-- The global variables that `key` points to.
pub data Setting : Type 0 where
  working_mode : Setting
  server_ip : Setting
  server_port : Setting

-- Their values, `none` for NULL. What is copied to them has no zero at its end.
pub record Config : Type 0 where
  pub mode : Option Text
  pub ip : Option Text
  pub port : Option Text

-- `key` is `none` before it is first set: to read it then is a fault.
pub record Parser : Type 0 where
  pub is_key : ℕ
  pub key : Option Setting
  pub config : Config

abbrev pub no_config : Config
no_config = record { mode = none; ip = none; port = none }

-- "working_mode", "server_ip" and "server_monitor_port"
abbrev pub working_mode_key : Text
working_mode_key =
    b'w' ∷ b'o' ∷ b'r' ∷ b'k' ∷ b'i' ∷ b'n' ∷ b'g' ∷ b'_' ∷ b'm' ∷ b'o' ∷ b'd' ∷ b'e' ∷ []

abbrev pub server_ip_key : Text
server_ip_key = b's' ∷ b'e' ∷ b'r' ∷ b'v' ∷ b'e' ∷ b'r' ∷ b'_' ∷ b'i' ∷ b'p' ∷ []

abbrev pub server_port_key : Text
server_port_key =
    b's' ∷ b'e' ∷ b'r' ∷ b'v' ∷ b'e' ∷ b'r' ∷ b'_' ∷ b'm' ∷ b'o' ∷ b'n' ∷ b'i' ∷ b't' ∷ b'o' ∷ b'r'
    ∷ b'_' ∷ b'p' ∷ b'o' ∷ b'r' ∷ b't' ∷ []

-- An unknown key leaves `key` as it was.
unfoldable pub find_key : Text → Option Setting → Option Setting
find_key t key =
    if same_text t working_mode_key
    then some working_mode
    else if same_text t server_ip_key
    then some server_ip
    else if same_text t server_port_key
    then some server_port
    else key

-- `*key = malloc (...)`, and the copy.
abbrev pub assign_value : Setting → Text → Config → Config
assign_value working_mode t c = record c { mode = some t }
assign_value server_ip t c = record c { ip = some t }
assign_value server_port t c = record c { port = some t }

unfoldable pub scan_scalar : Text → Parser → Option Parser
unfolding find_key
scan_scalar t s =
    if s.is_key == 0
    then some (record s { is_key = 1; key = find_key t s.key })
    else s.key >>= λ key. some (record s { is_key = 0; config = assign_value key t s.config })

-- The loop. Events that never end the stream keep it running.
unfoldable pub parse_events : List YamlEvent → Parser → Option Config
unfolding scan_scalar
parse_events [] s = none
parse_events (scalar t ∷ events) s = do s' ← scan_scalar t s; parse_events events s'
parse_events (sequence_start ∷ events) s = parse_events events s
parse_events (sequence_end ∷ events) s = parse_events events s
parse_events (mapping_start ∷ events) s = parse_events events s
parse_events (mapping_end ∷ events) s = parse_events events s
parse_events (stream_end ∷ events) s = some s.config
parse_events (other ∷ events) s = parse_events events s

unfoldable pub parse_yaml : List YamlEvent → Option Config
unfolding parse_events
parse_yaml events = parse_events events (record { is_key = 0; key = none; config = no_config })

-- "tcp://%s:%s", written to `malloc (strlen (server_ip) + strlen (server_port) + 7)`; `usable n` is
-- how many bytes `malloc (n)` leaves room for.
unfoldable pub server_addr : (ℕ → ℕ) → Text → Text → Option Text
server_addr usable ip port = do
  require (leb (length ip + length port + 8) (usable (length ip + length port + 7)))
  some (b't' ∷ b'c' ∷ b'p' ∷ b':' ∷ b'/' ∷ b'/' ∷ (ip ++ (b':' ∷ port)))

-- ===== src/Monitor/Config/Laws.antt =====
-- What a configuration file gives the settings.
use hpv_c.Base.{
  Text, same_text, ◌≡◌, refl, inl, inr, true, false, Bool, Option, Option-cases, none, some, List,
  [], ◌∷◌, ◌++◌, arith, if◌then◌else◌, ◌>>=◌,
}
use hpv_c.Monitor.Config.{
  YamlEvent, scalar, mapping_start, mapping_end, stream_end, other, Setting, working_mode,
  server_ip, server_port, Config, no_config, working_mode_key, server_ip_key, server_port_key,
  find_key, assign_value, scan_scalar, parse_events, parse_yaml,
}

-- The setting that a key names, if it names one.
abbrev pub setting_of : Text → Option Setting
setting_of t =
    if same_text t working_mode_key
    then some working_mode
    else if same_text t server_ip_key
    then some server_ip
    else if same_text t server_port_key
    then some server_port
    else none

abbrev pub is_setting : Setting → Setting → Bool
is_setting working_mode working_mode = true
is_setting server_ip server_ip = true
is_setting server_port server_port = true
is_setting working_mode server_ip = false
is_setting working_mode server_port = false
is_setting server_ip working_mode = false
is_setting server_ip server_port = false
is_setting server_port working_mode = false
is_setting server_port server_ip = false

-- The value that stands last for the setting, or the one that it had.
abbrev pub last_value : Setting → Option Text → List (Setting × Text) → Option Text
last_value s old [] = old
last_value s old ((k, t) ∷ values) = last_value s (if is_setting k s then some t else old) values

abbrev or_else : Option Setting → Option Setting → Option Setting
or_else none b = b
or_else (some a) b = some a

-- The pairs of a mapping with the settings that they are for: an unknown key stands for the key
-- before it. `none` if there is no key before it.
abbrev pub settings_from : Option Setting → List (Text × Text) → Option (List (Setting × Text))
settings_from before [] = some []
settings_from before ((k, t) ∷ pairs) = do
  s ← or_else (setting_of k) before
  rest ← settings_from (some s) pairs
  some ((s, t) ∷ rest)

-- The events of the pairs.
abbrev pub pair_events : List (Text × Text) → List YamlEvent
pair_events [] = []
pair_events ((k, t) ∷ pairs) = scalar k ∷ scalar t ∷ pair_events pairs

abbrev pub config_of : Config → List (Setting × Text) → Config
config_of c values = record {
  mode = last_value working_mode c.mode values;
  ip = last_value server_ip c.ip values;
  port = last_value server_port c.port values;
}

find_key-setting_of :
    (t : Text) (before : Option Setting) → find_key t before ≡ or_else (setting_of t) before
unfolding find_key
find_key-setting_of t before = ground arith

config_of-assign_value :
    (s : Setting) (t : Text) (c : Config) (values : List (Setting × Text))
    → config_of (assign_value s t c) values ≡ config_of c ((s, t) ∷ values)
config_of-assign_value working_mode t c values = refl
config_of-assign_value server_ip t c values = refl
config_of-assign_value server_port t c values = refl

abbrev pub ending : List YamlEvent
ending = mapping_end ∷ other ∷ stream_end ∷ []

parse_events-pair_events :
    (pairs : List (Text × Text)) (before : Option Setting) (c : Config)
    → parse_events (pair_events pairs ++ ending) (record { is_key = 0; key = before; config = c })
      ≡ (settings_from before pairs >>= λ values. some (config_of c values))
unfolding parse_events scan_scalar
parse_events-pair_events [] before c = refl
parse_events-pair_events ((k, t) ∷ pairs) before c =
    elim (Option-cases (or_else (setting_of k) before)) [
      | inl unset ↦ rw (find_key-setting_of k before, unset) refl
      | inr (s, set_to) ↦
          let rest = parse_events-pair_events pairs (some s) (assign_value s t c) in
          elim (Option-cases (settings_from (some s) pairs)) [
            | inl gone ↦ rw (find_key-setting_of k before, set_to, gone) (rw gone at rest)
            | inr (values, e) ↦
                rw (find_key-setting_of k before, set_to, e)
                  (rw (e, config_of-assign_value s t c values) at rest)
          ]
    ]

-- A file with one mapping is read to its end, unless its first key is unknown: then the value is
-- written through a pointer that was never set, a fault. Each setting gets the value that stands last
-- for it or stays NULL, where a value stands for the setting that its key names, and that of an
-- unknown key for the setting of the key before it.
pub parse_yaml-settings_from :
    (pairs : List (Text × Text))
    → parse_yaml (other ∷ other ∷ mapping_start ∷ (pair_events pairs ++ ending))
      ≡ (settings_from none pairs >>= λ values. some (config_of no_config values))
unfolding parse_yaml parse_events
parse_yaml-settings_from pairs = parse_events-pair_events pairs none no_config

-- ===== src/Monitor/Tests.antt =====
-- The server on concrete reports.
use hpv_c.Base.{
  Text, same_text, All, ◌>>=◌, if◌then◌else◌, ℕ, ◌+◌, ◌≡◌, ◌≢◌, refl, arith, some, none, List, [],
  ◌∷◌, ◌++◌, length,
}
use hpv_c.Double.{Milli, milli_double}
use hpv_c.Monitor.Config.{
  other, mapping_start, no_config, server_ip_key, server_port_key, working_mode_key, parse_events,
  parse_yaml,
}
use hpv_c.Monitor.Config.Laws.{
  pair_events, ending, settings_from, config_of, parse_yaml-settings_from,
}
use hpv_c.Monitor.Client
use hpv_c.Monitor.Client.{
  Sampled, Sample, guest_ram, guest_cpu, host_cpu, get_metrics, collect, measure, add_values,
  collect_object, enter_machine, all_ready,
}
use hpv_c.Monitor.Client.Items.{reported}
use hpv_c.Monitor.Interface.{
  InterfaceMessage, get_metric_packed_message_from_server,
  get_metric_packed_message_from_server-set_host_utility,
}
use hpv_c.Monitor.Server.{
  MachineMetric, HostMetric, find_host, find_in, find_machine, machine_index, response_to_api,
  append_machine, update_machine, update_machines, update_host, set_host_utility,
}
use hpv_c.Monitor.Server.Map.{IsNamed, view, merged, set_host_utility-view}
use hpv_c.Monitor.Server.Reply.{response_to_api-set_host_utility}

-- Memory in blocks of 16 bytes.
abbrev blocks : ℕ → ℕ
blocks n = n + 16

abbrev machine : ℕ → MachineMetric Milli
machine i = record {
  ip = some (10 ∷ i ∷ []);
  uuid = some (i ∷ []);
  cpu = 2;
  cpu_load_usage = 500;
  ram = 4096;
  ram_usage_total_average = 90;
}

abbrev host : ℕ → List (MachineMetric Milli) → HostMetric Milli
host i machines = record {
  ip = some (20 ∷ i ∷ []);
  cpu = 8;
  core_per_cpu = 4;
  cpu_load_usage = 300;
  ram = 16384;
  ram_usage_total_average = 900;
  machines = machines;
  allocated = length machines;
}

abbrev hosts : List (HostMetric Milli)
hosts = host 1 (machine 1 ∷ []) ∷ host 2 [] ∷ []

abbrev busy_host : HostMetric Milli
busy_host = record (host 1 (machine 1 ∷ [])) {
  cpu_load_usage = 1200;
  ram_usage_total_average = 1800;
}

abbrev hosts_after : List (HostMetric Milli)
hosts_after =
    record (host 1 (machine 1 ∷ [])) { cpu_load_usage = 1100; ram_usage_total_average = 1700 }
    ∷ host 2 []
    ∷ []

updated : set_host_utility blocks (some busy_host) hosts ≡ some hosts_after
unfolding set_host_utility update_host update_machines update_machine append_machine find_host
    machine_index
updated = refl

unknown : find_host 0 hosts (some (20 ∷ 3 ∷ [])) ≡ some none
unfolding find_host
unknown = refl

no_machine : find_machine hosts (some (10 ∷ 7 ∷ [])) ≡ some none
unfolding find_machine find_in
no_machine = refl

in_report : find_in (machine 7 ∷ []) (some (10 ∷ 7 ∷ [])) ≡ some (some (machine 7))
unfolding find_in
in_report = refl

response_to_api-set_host_utility_example :
    (hosts' : List (HostMetric Milli)) × (set_host_utility blocks
        (some (host 3 (machine 7 ∷ [])))
        hosts
      ≡ some hosts')
    × (response_to_api 0 (some (10 ∷ 7 ∷ [])) hosts' ≡ some (machine 7))
response_to_api-set_host_utility_example =
    response_to_api-set_host_utility blocks hosts (host 3 (machine 7 ∷ [])) (20 ∷ 3 ∷ []) 0
      (some (10 ∷ 7 ∷ [])) (machine 7) refl unknown (omega arith) no_machine in_report

-- A configuration with a key that is unknown, between the known ones.
abbrev file_pairs : List (Text × Text)
file_pairs =
    (server_ip_key, 1 ∷ [])
    ∷ (server_port_key, 5 ∷ [])
    ∷ (9 ∷ [], 6 ∷ [])
    ∷ (working_mode_key, 2 ∷ [])
    ∷ []

read_file :
    parse_yaml (other ∷ other ∷ mapping_start ∷ (pair_events file_pairs ++ ending))
    ≡ some (record { mode = some (2 ∷ []); ip = some (1 ∷ []); port = some (6 ∷ []) })
unfolding parse_yaml parse_events
read_file = refl

parse_yaml-settings_from_example :
    parse_yaml (other ∷ other ∷ mapping_start ∷ (pair_events file_pairs ++ ending))
    ≡ (settings_from none file_pairs >>= λ values. some (config_of no_config values))
parse_yaml-settings_from_example = parse_yaml-settings_from file_pairs

-- Two metrics of a machine, and one of the host.
abbrev sample_of : Text → ℕ → Sampled → Sample
sample_of name index object = record { name = name; index = index; count = 2; object = object }

abbrev samples : List Sample
samples =
    sample_of guest_ram 0 (Sampled.machine (4 ∷ []))
    ∷ sample_of host_cpu 2 (Sampled.host ((3 ∷ []) ∷ []) 4096)
    ∷ sample_of guest_cpu 0 (Sampled.machine (4 ∷ []))
    ∷ []

abbrev sampled_values : List ℕ
sampled_values = 10 ∷ 20 ∷ 30 ∷ 40 ∷ []

-- The 15 that was measured before is added to the host's 30 and 40.
packed :
    get_metrics {D = Milli} blocks sampled_values samples
    ≡ some (record {
      ip = some (3 ∷ []);
      cpu = 1;
      core_per_cpu = 1;
      cpu_load_usage = 42500;
      ram = 4096;
      ram_usage_total_average = 0;
      machines = reported (4 ∷ []) ∷ [];
      allocated = 1;
    })
unfolding get_metrics collect measure add_values collect_object enter_machine Client.find_machine
    all_ready
packed = refl

-- An optional number is 0 unless its flag is set.
abbrev seen_number : InterfaceMessage → ℕ
seen_number message = if message.has_is_host then message.is_host else 0

get_metric_packed_message_from_server-set_host_utility_example :
    (hosts' : List (HostMetric Milli)) × (set_host_utility blocks
        (some (host 3 (machine 3 ∷ [])))
        hosts
      ≡ some hosts')
    × (get_metric_packed_message_from_server seen_number hosts' 0 (some (10 ∷ 3 ∷ []))
        ≡ some (some (machine 3)))
    × ((is_host : ℕ)
        → is_host ≢ 0
        → get_metric_packed_message_from_server seen_number hosts' is_host (some (10 ∷ 3 ∷ []))
          ≡ some none)
unfolding find_host find_in find_machine
get_metric_packed_message_from_server-set_host_utility_example =
    get_metric_packed_message_from_server-set_host_utility seen_number blocks hosts
      (host 3 (machine 3 ∷ [])) (20 ∷ 3 ∷ []) (some (10 ∷ 3 ∷ [])) (machine 3)
      (λ message clear. rw clear refl) refl refl refl refl

set_host_utility-view_example :
    (merged blocks (view hosts (20 ∷ 1 ∷ [])) busy_host ≡ none
      → set_host_utility blocks (some busy_host) hosts ≡ none)
    × ((new : HostMetric Milli)
        → merged blocks (view hosts (20 ∷ 1 ∷ [])) busy_host ≡ some new
        → (hosts' : List (HostMetric Milli)) × (set_host_utility blocks (some busy_host) hosts
            ≡ some hosts')
          × All IsNamed hosts'
          × ((u : Text)
              → view hosts' u ≡ (if same_text (20 ∷ 1 ∷ []) u then some new else view hosts u)))
set_host_utility-view_example =
    set_host_utility-view blocks hosts busy_host (20 ∷ 1 ∷ [])
      ((20 ∷ 1 ∷ [], refl), ((20 ∷ 2 ∷ [], refl), tt)) refl

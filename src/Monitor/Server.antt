-- ===== src/Monitor/Server.antt =====
-- c/monitor/server.c: the list of hosts, the reports that update it (`set_host_utility`) and the
-- lookups. `none` is a fault, as in Base/Fault.
pub mod Lookup
pub mod Report
pub mod Hosts
pub mod Reply
pub mod Map
use hpv_c.Base.{
  Text, same_text, str_equal, ℕ, zero, suc, ◌+◌, ◌*◌, ◌/◌, Bool, true, false, not, ◌&&◌, Option,
  none, some, List, [], ◌∷◌, ◌++◌, leb, ltb, ◌==◌, length, set, get_elem?, if◌then◌else◌, ◌>>=◌,
  ◌>>◌, require,
}
use hpv_c.Double.{Double, add_float, mul_float, div_float}
use hpv_c.Utility.{checked_int}

-- The fields that the server reads (c/utils/monitor.proto). The int32 fields are not negative.
pub record MachineMetric (D : Type 0) : Type 0 where
  pub ip : Option Text
  pub uuid : Option Text
  pub cpu : ℕ
  pub cpu_load_usage : D
  pub ram : ℕ
  pub ram_usage_total_average : ℕ

-- `n_machines` is the length of `machines`, and `allocated` the length that the array was made for.
pub record HostMetric (D : Type 0) : Type 0 where
  pub ip : Option Text
  pub cpu : ℕ
  pub core_per_cpu : ℕ
  pub cpu_load_usage : D
  pub ram : ℕ
  pub ram_usage_total_average : ℕ
  pub machines : List (MachineMetric D)
  pub allocated : ℕ

module _ {D : Type 0} where
  -- The place in the list from `i` on, for the pointer that the function returns.
  unfoldable pub find_host : ℕ → List (HostMetric D) → Option Text → Option (Option ℕ)
  find_host i [] ip = some none
  find_host i (host ∷ hosts) ip =
      let rest = find_host (i + 1) hosts ip in
      do is_it ← str_equal host.ip ip; if is_it then some (some i) else rest

  unfoldable pub find_in : List (MachineMetric D) → Option Text → Option (Option (MachineMetric D))
  find_in [] ip = some none
  find_in (m ∷ machines) ip =
      let rest = find_in machines ip in
      do is_it ← str_equal m.ip ip; if is_it then some (some m) else rest

  -- The first machine of the IP, host by host.
  unfoldable pub find_machine :
      List (HostMetric D) → Option Text → Option (Option (MachineMetric D))
  find_machine [] ip = some none
  find_machine (host ∷ hosts) ip =
      let rest = find_machine hosts ip in
      do found ← find_in host.machines ip; elim found [ none ↦ rest | some m ↦ some (some m) ]

  -- The reply to a request of the interface. For a host, and for a machine that is not found, it is
  -- sent without having been set up.
  unfoldable pub response_to_api : ℕ → Option Text → List (HostMetric D) → Option (MachineMetric D)
  response_to_api is_host ip hosts =
      if is_host == 1
      then none
      else find_machine hosts ip >>= λ found. elim found [ none ↦ none | some m ↦ some m ]

  -- The loop over `j`, that compares the UUIDs.
  unfoldable pub machine_index : ℕ → Option Text → List (MachineMetric D) → Option (Option ℕ)
  machine_index j uuid [] = some none
  machine_index j uuid (m ∷ machines) =
      let rest = machine_index (j + 1) uuid machines in
      do is_it ← str_equal uuid m.uuid; if is_it then some (some j) else rest

abbrev pub average_usage : ℕ → ℕ → Option ℕ
average_usage new old = do total ← checked_int (8 * new + old); some (total / 9)

-- A string copied to `malloc (strlen (t))`, where its end does not count.
abbrev pub copy_text : (ℕ → ℕ) → Option Text → Option (Option Text)
copy_text usable none = none
copy_text usable (some t) = if ltb (length t) (usable (length t)) then some (some t) else none

-- `usable n` is how many bytes `malloc (n)` leaves room for: at least n, often more.
module _ {D : Type 0} ⦃d : Double D⦄ (usable : ℕ → ℕ) where
  -- AVERAGE_RATE is 9.
  abbrev pub average_load : D → D → D
  average_load new old = div_float (add_float (mul_float (d.of_int 8) new) old) (d.of_int 9)

  -- A machine that the host does not have: the array, which is NULL where none was unpacked, is not
  -- made larger, and the fields are those of the host.
  unfoldable pub append_machine : HostMetric D → HostMetric D → Option (HostMetric D)
  append_machine host stored = do
    require (not (stored.allocated == 0))
    require (leb (8 * (length stored.machines + 1)) (usable (8 * stored.allocated)))
    some (record stored {
      machines =
          stored.machines
          ++ record {
            ip = none;
            uuid = none;
            cpu = host.cpu;
            cpu_load_usage = stored.cpu_load_usage;
            ram = host.ram;
            ram_usage_total_average = stored.ram_usage_total_average;
          }
            ∷ [];
    })

  -- The new values are read at `index` of the report too.
  unfoldable pub update_machine : ℕ → HostMetric D → HostMetric D → Option (HostMetric D)
  update_machine index host stored = do
    new ← get_elem? host.machines index
    old ← get_elem? stored.machines index
    usage ← average_usage new.ram_usage_total_average old.ram_usage_total_average
    ip ← copy_text usable new.ip
    some (record stored {
      machines = set stored.machines index (record old {
        cpu_load_usage = average_load new.cpu_load_usage old.cpu_load_usage;
        ram_usage_total_average = usage;
        cpu = new.cpu;
        ram = new.ram;
        ip = ip;
      });
    })

  -- The loop over the machines of the report that are left.
  unfoldable pub update_machines :
      List (MachineMetric D) → HostMetric D → HostMetric D → Option (HostMetric D)
  update_machines [] host stored = some stored
  update_machines (m ∷ left) host stored = do
    found ← machine_index 0 m.uuid stored.machines
    stored' ← elim found [
      | none ↦ append_machine host stored
      | some index ↦ update_machine index host stored
    ]
    update_machines left host stored'

  -- The host's own fields after a report.
  abbrev pub with_report : HostMetric D → HostMetric D → Option Text → ℕ → HostMetric D
  with_report host stored ip usage = record stored {
    ip = ip;
    cpu = host.cpu;
    ram = host.ram;
    core_per_cpu = host.core_per_cpu;
    cpu_load_usage = average_load host.cpu_load_usage stored.cpu_load_usage;
    ram_usage_total_average = usage;
  }

  unfoldable pub update_host : HostMetric D → HostMetric D → Option (HostMetric D)
  unfolding update_machines
  update_host host stored = do
    same ← str_equal stored.ip host.ip
    ip ← if same then some stored.ip else copy_text usable host.ip
    usage ← average_usage host.ram_usage_total_average stored.ram_usage_total_average
    update_machines host.machines host (with_report host stored ip usage)

  update_found : Option ℕ → HostMetric D → List (HostMetric D) → Option (List (HostMetric D))
  update_found none host hosts = some (hosts ++ host ∷ [])
  update_found (some k) host hosts = do
    stored ← get_elem? hosts k
    stored' ← update_host host stored
    some (set hosts k stored')

  -- The report as it is unpacked, `none` if it cannot be; the list of hosts after it.
  unfoldable pub set_host_utility :
      Option (HostMetric D) → List (HostMetric D) → Option (List (HostMetric D))
  unfolding update_found
  set_host_utility none hosts = some hosts
  set_host_utility (some host) hosts = do
    found ← find_host 0 hosts host.ip
    update_found found host hosts

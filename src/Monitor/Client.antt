-- ===== src/Monitor/Client.antt =====
-- The monitor of a host, c/monitor/monitor.c: what `_get_metrics` makes of the samples that VirtualBox
-- gives for each metric and object. An object is a machine or the host if `IUnknown_QueryInterface`
-- sets the pointer, which it clears otherwise. `none` is a fault, as in Base/Fault.
pub mod Items
pub mod Laws
use hpv_c.Base.{
  Text, same_text, str_equal, ℕ, zero, suc, ◌+◌, Bool, true, false, ◌&&◌, Option, none, some, List,
  [], ◌∷◌, ◌++◌, map, leb, ltb, ◌==◌, length, set, get_elem?, if◌then◌else◌, ◌>>=◌, ◌>>◌, require,
}
use hpv_c.Double.{Double}
use hpv_c.Monitor.Server.{MachineMetric, HostMetric, copy_text}

-- "Guest/RAM/Usage/Total:avg" and "Guest/CPU/Load/User:avg", the same of the host without "Guest/",
-- and "127.0.0.1"
abbrev pub guest_ram : Text
guest_ram =
    b'G' ∷ b'u' ∷ b'e' ∷ b's' ∷ b't' ∷ b'/' ∷ b'R' ∷ b'A' ∷ b'M' ∷ b'/' ∷ b'U' ∷ b's' ∷ b'a' ∷ b'g'
    ∷ b'e' ∷ b'/' ∷ b'T' ∷ b'o' ∷ b't' ∷ b'a' ∷ b'l' ∷ b':' ∷ b'a' ∷ b'v' ∷ b'g' ∷ []

abbrev pub guest_cpu : Text
guest_cpu =
    b'G' ∷ b'u' ∷ b'e' ∷ b's' ∷ b't' ∷ b'/' ∷ b'C' ∷ b'P' ∷ b'U' ∷ b'/' ∷ b'L' ∷ b'o' ∷ b'a' ∷ b'd'
    ∷ b'/' ∷ b'U' ∷ b's' ∷ b'e' ∷ b'r' ∷ b':' ∷ b'a' ∷ b'v' ∷ b'g' ∷ []

abbrev pub host_ram : Text
host_ram =
    b'R' ∷ b'A' ∷ b'M' ∷ b'/' ∷ b'U' ∷ b's' ∷ b'a' ∷ b'g' ∷ b'e' ∷ b'/' ∷ b'T' ∷ b'o' ∷ b't' ∷ b'a'
    ∷ b'l' ∷ b':' ∷ b'a' ∷ b'v' ∷ b'g' ∷ []

abbrev pub host_cpu : Text
host_cpu =
    b'C' ∷ b'P' ∷ b'U' ∷ b'/' ∷ b'L' ∷ b'o' ∷ b'a' ∷ b'd' ∷ b'/' ∷ b'U' ∷ b's' ∷ b'e' ∷ b'r' ∷ b':'
    ∷ b'a' ∷ b'v' ∷ b'g' ∷ []

abbrev pub local_ip : Text
local_ip = b'1' ∷ b'2' ∷ b'7' ∷ b'.' ∷ b'0' ∷ b'.' ∷ b'0' ∷ b'.' ∷ b'1' ∷ []

-- What a sample is of: a machine by its UUID, the host with the IPs of its network interfaces and its
-- memory, or another object.
pub data Sampled : Type 0 where
  machine : Text → Sampled
  host : List Text → ℕ → Sampled
  other : Sampled

-- The entries that a metric has in the array of values. The values are not negative.
pub record Sample : Type 0 where
  pub name : Text
  pub index : ℕ
  pub count : ℕ
  pub object : Sampled

-- An item of the linked list of machines, and whether `machine_metric__init` was called for it.
pub record Machine (D : Type 0) : Type 0 where
  pub metrics : MachineMetric D
  pub ready : Bool

-- `res`, the list of machines, and the fields of the host.
pub record Collected (D : Type 0) : Type 0 where
  pub res : D
  pub machines : List (Machine D)
  pub metrics : HostMetric D

abbrev pub first_ip : Option Text → List Text → Option Text
first_ip ip [] = ip
first_ip ip (address ∷ addresses) = some address

module _ {D : Type 0} where
  -- The place in the list from `i` on, for the pointer that the function returns.
  unfoldable pub find_machine : ℕ → List (Machine D) → Text → Option (Option ℕ)
  find_machine i [] uuid = some none
  find_machine i (m ∷ machines) uuid =
      let rest = find_machine (i + 1) machines uuid in
      do is_it ← str_equal m.metrics.uuid (some uuid); if is_it then some (some i) else rest

  -- The machines as they are packed.
  unfoldable pub all_ready : List (Machine D) → Bool
  all_ready [] = true
  all_ready (m ∷ machines) = m.ready && all_ready machines

  abbrev pub metrics_of : List (Machine D) → List (MachineMetric D)
  metrics_of [] = []
  metrics_of (m ∷ machines) = m.metrics ∷ metrics_of machines

module _ {D : Type 0} ⦃d : Double D⦄ where
  abbrev pub no_machine : MachineMetric D
  no_machine = record {
    ip = none;
    uuid = none;
    cpu = 0;
    cpu_load_usage = d.lit 0 0;
    ram = 0;
    ram_usage_total_average = 0;
  }

  -- The fields of a machine: what is measured is overwritten.
  abbrev pub with_sample : Text → D → MachineMetric D → MachineMetric D
  with_sample name res m =
      if same_text name guest_ram
      then record m { ram_usage_total_average = d.to_int res }
      else if same_text name guest_cpu
      then record m { cpu_load_usage = d.narrow res }
      else m

  abbrev pub with_constants : MachineMetric D → MachineMetric D
  with_constants m = record m {
    ip = some local_ip;
    cpu = 2;
    cpu_load_usage = d.of_int 12;
    ram = 12;
    ram_usage_total_average = 12;
  }

  abbrev pub with_host : Text → D → List Text → ℕ → HostMetric D → HostMetric D
  with_host name res addresses memory h =
      let h' = record h { ip = first_ip h.ip addresses; ram = memory; core_per_cpu = 1; cpu = 1 } in
      if same_text name host_ram
      then record h' { ram_usage_total_average = d.to_int res }
      else if same_text name host_cpu
      then record h' { cpu_load_usage = d.narrow res }
      else h'

  -- `n` values from `index` on, added to `res`.
  unfoldable pub add_values : List ℕ → ℕ → ℕ → D → Option D
  add_values values index zero res = some res
  add_values values index (suc n) res = do
    value ← get_elem? values index
    add_values values (index + 1) n (d.add res (d.of_int value))

  -- `res` still has the value of the sample before, which is added in.
  unfoldable pub measure : List ℕ → Sample → D → Option D
  unfolding add_values
  measure values s res = do
    total ← add_values values s.index s.count res
    some (if ltb 0 s.count then d.div total (d.of_int s.count) else total)

  -- HOST_METRIC__INIT
  abbrev pub no_host : HostMetric D
  no_host = record {
    ip = none;
    cpu = 0;
    core_per_cpu = 0;
    cpu_load_usage = d.lit 0 0;
    ram = 0;
    ram_usage_total_average = 0;
    machines = [];
    allocated = 0;
  }

  abbrev pub nothing_collected : Collected D
  nothing_collected = record { res = d.lit 0 0; machines = []; metrics = no_host }

  -- The report that is packed: a machine that was never initialised cannot be.
  abbrev pub pack_report : Collected D → Option (HostMetric D)
  pack_report c = do
    require (all_ready c.machines)
    some (record c.metrics { machines = metrics_of c.machines; allocated = length c.machines })

-- `usable n` is how many bytes `malloc (n)` leaves room for.
module _ {D : Type 0} ⦃d : Double D⦄ (usable : ℕ → ℕ) where
  -- The machine's item in the list, which may be a new one. For a second machine it is the first item
  -- that is initialised, and not the new one.
  unfoldable pub enter_machine : Text → List (Machine D) → Option (List (Machine D) × ℕ)
  unfolding find_machine
  enter_machine uuid [] = do
    copied ← copy_text usable (some uuid)
    some (record { metrics = record no_machine { uuid = copied }; ready = true } ∷ [], 0)
  enter_machine uuid (first ∷ machines) = do
    found ← find_machine 0 (first ∷ machines) uuid
    some elim found [
      | some i ↦ (first ∷ machines, i)
      | none ↦ (
        record { metrics = no_machine; ready = true }
            ∷ (machines ++ record { metrics = no_machine; ready = false } ∷ []),
        length (first ∷ machines),
      )
    ]

  unfoldable pub collect_object : Text → D → Sampled → Collected D → Option (Collected D)
  unfolding enter_machine
  collect_object name res (machine uuid) c = do
    (machines, i) ← enter_machine uuid c.machines
    m ← get_elem? machines i
    some (record c {
      res = res;
      machines =
          set machines i (record m { metrics = with_constants (with_sample name res m.metrics) });
    })
  collect_object name res (host addresses memory) c =
      some (record c { res = res; metrics = with_host name res addresses memory c.metrics })
  collect_object name res other c = some (record c { res = res })

  -- The loop over the samples.
  unfoldable pub collect : List ℕ → List Sample → Collected D → Option (Collected D)
  unfolding measure collect_object
  collect values [] c = some c
  collect values (s ∷ samples) c = do
    res ← measure values s c.res
    c' ← collect_object s.name res s.object c
    collect values samples c'

  unfoldable pub get_metrics : List ℕ → List Sample → Option (HostMetric D)
  unfolding collect all_ready
  get_metrics values samples = do
    require (leb (length samples) (length values))
    c ← collect values samples nothing_collected
    pack_report c

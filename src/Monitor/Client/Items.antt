-- ===== src/Monitor/Client/Items.antt =====
-- What one sample does to the list of machines.
use hpv_c.Base.{
  Text, same_text, ℕ, zero, suc, ◌+◌, ◌≤◌, ◌<◌, ◌≡◌, refl, ◌⊎◌, inl, inr, Bool, Option-cases, true,
  false, ◌&&◌, none, some, List, [], ◌∷◌, ◌++◌, arith, ltb, lt→ltb, length, get_elem?-in,
  if◌then◌else◌, ◌>>=◌,
}
use hpv_c.Double.{Double}
use hpv_c.Monitor.Server.{MachineMetric, HostMetric}
use hpv_c.Monitor.Client.{
  Sampled, machine, host, other, Sample, Machine, Collected, find_machine, all_ready, no_machine,
  with_sample, with_constants, with_host, add_values, measure, pack_report, enter_machine,
  collect_object, collect, local_ip,
}

-- The UUIDs of the machines, in the order of the samples.
abbrev pub uuid_of : Sampled → List Text
uuid_of (machine uuid) = uuid ∷ []
uuid_of (host addresses memory) = []
uuid_of other = []

abbrev pub uuids : List Sample → List Text
uuids [] = []
uuids (s ∷ samples) = uuid_of s.object ++ uuids samples

-- All are the same machine's.
abbrev pub all_same : Text → List Text → Bool
all_same u [] = true
all_same u (v ∷ vs) = same_text u v && all_same u vs

Sampled-cases :
    (o : Sampled)
    → ((u : Text) × (o ≡ machine u))
      ⊎ ((ips : List Text) × (memory : ℕ) × (o ≡ host ips memory))
      ⊎ (o ≡ other)
Sampled-cases (machine u) = inl (u, refl)
Sampled-cases (host ips memory) = inr (inl (ips, memory, refl))
Sampled-cases other = inr (inr refl)

-- The values of the sample stand in the array.
abbrev pub InRange : List ℕ → Sample → Type 0
InRange values s = s.index + s.count ≤ length values

module _ {D : Type 0} ⦃d : Double D⦄ where
  add_values_total :
      (values : List ℕ) (index n : ℕ) (res : D)
      → index + n ≤ length values
      → (total : D) × (add_values values index n res ≡ some total)
  unfolding add_values
  add_values_total values index zero res room = (res, refl)
  add_values_total values index (suc n) res room =
      let (value, got) = get_elem?-in values index (omega arith) in
      let (total, e) =
        add_values_total values (index + 1) n (d.add res (d.of_int value)) (omega arith) in
      (total, rw got e)

  pub measure_total :
      (values : List ℕ) (s : Sample) (res : D)
      → InRange values s
      → (res' : D) × (measure values s res ≡ some res')
  unfolding measure
  measure_total values s res room =
      let (total, e) = add_values_total values s.index s.count res room in
      (if ltb 0 s.count then d.div total (d.of_int s.count) else total, rw e refl)

  -- What is reported of a machine.
  abbrev pub reported : Text → MachineMetric D
  reported u = record {
    ip = some local_ip;
    uuid = some u;
    cpu = 2;
    cpu_load_usage = d.of_int 12;
    ram = 12;
    ram_usage_total_average = 12;
  }

  abbrev pub one_item : Text → List (Machine D)
  one_item u = record { metrics = reported u; ready = true } ∷ []

  with_sample-reported :
      (name : Text) (res : D) (m : MachineMetric D) (u : Text)
      → m.uuid ≡ some u
      → with_constants (with_sample name res m) ≡ reported u
  with_sample-reported name res m u e = ground (arith, e)

  abbrev pub with_machines : D → List (Machine D) → HostMetric D → Collected D
  with_machines res machines h = record { res = res; machines = machines; metrics = h }

  pub pack_one :
      (u : Text) (res : D) (h : HostMetric D)
      → pack_report (with_machines res (one_item u) h)
        ≡ some (record h { machines = reported u ∷ []; allocated = 1 })
  unfolding all_ready
  pack_one u res h = refl

  module _ (usable : ℕ → ℕ) where
    pub collect_first :
        (name : Text) (before res : D) (h : HostMetric D) (u : Text)
        → length u < usable (length u)
        → collect_object usable name res (machine u) (with_machines before [] h)
          ≡ some (with_machines res (one_item u) h)
    unfolding collect_object enter_machine
    collect_first name before res h u room =
        let named : MachineMetric D = record no_machine { uuid = some u } in
        rw (lt→ltb (length u) (usable (length u)) room, with_sample-reported name res named u refl)
          refl

    pub collect_known :
        (name : Text) (before res : D) (h : HostMetric D) (u v : Text)
        → same_text u v ≡ true
        → collect_object usable name res (machine v) (with_machines before (one_item u) h)
          ≡ some (with_machines res (one_item u) h)
    unfolding collect_object enter_machine find_machine
    collect_known name before res h u v same =
        rw (same, with_sample-reported name res (reported u) u refl) refl

    -- The second machine's item.
    abbrev pub two_items : Text → D → List (Machine D)
    two_items name res =
        record { metrics = no_machine; ready = true }
        ∷ record { metrics = with_constants (with_sample name res no_machine); ready = false }
        ∷ []

    pub collect_second :
        (name : Text) (before res : D) (h : HostMetric D) (u v : Text)
        → same_text u v ≡ false
        → collect_object usable name res (machine v) (with_machines before (one_item u) h)
          ≡ some (with_machines res (two_items name res) h)
    unfolding collect_object enter_machine find_machine
    collect_second name before res h u v differ = rw differ refl

    pub collect_host :
        (name : Text) (before res : D) (machines : List (Machine D)) (h : HostMetric D)
        (ips : List Text) (memory : ℕ)
        → collect_object usable name res (host ips memory) (with_machines before machines h)
          ≡ some (with_machines res machines (with_host name res ips memory h))
    unfolding collect_object
    collect_host name before res machines h ips memory = refl

    pub collect_other :
        (name : Text) (before res : D) (machines : List (Machine D)) (h : HostMetric D)
        → collect_object usable name res other (with_machines before machines h)
          ≡ some (with_machines res machines h)
    unfolding collect_object
    collect_other name before res machines h = refl

    -- From then on every machine is compared with one that has no UUID.
    pub collect_broken :
        (values : List ℕ) (samples : List Sample) (first second : Machine D) (res : D)
        (h : HostMetric D)
        → first.metrics.uuid ≡ none
        → second.ready ≡ false
        → (collect usable values samples (with_machines res (first ∷ second ∷ []) h)
            >>= pack_report)
          ≡ none
    unfolding collect collect_object enter_machine find_machine all_ready
    collect_broken values [] first second res h unnamed unready = ground (arith, unready)
    collect_broken values (s ∷ samples) first second res h unnamed unready =
        elim (Option-cases (measure values s res)) [
          | inl gone ↦ rw gone refl
          | inr (res', e) ↦ elim (Sampled-cases s.object) [
            | inl (u, o) ↦ rw (e, o, unnamed) refl
            | inr (inl (ips, memory, o)) ↦
                rw (e, o)
                  (collect_broken values samples first second res'
                    (with_host s.name res' ips memory h) unnamed unready)
            | inr (inr o) ↦
                rw (e, o) (collect_broken values samples first second res' h unnamed unready)
          ]
        ]

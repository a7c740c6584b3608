-- ===== src/Placement/Launch.antt =====
-- `launch_master` (simgrid/organizer/hpvc.c).
pub mod Loop
pub mod Laws
use hpv_c.Base.{
  ℕ, zero, suc, ◌+◌, ◌*◌, ◌/◌, ◌^◌, ◌≡◌, Option, none, some, List, [], ◌∷◌, ◌++◌, arith, ltb, leb,
  get_elem?, set, store, replicate, length, if◌then◌else◌, ◌>>=◌, ◌>>◌, require, ◌==◌,
}
use hpv_c.Double.{Double}
use hpv_c.Placement.Platform.{Platform, DataOfPm, Vm, Cluster, pm_capacity}

pub record SlowDown (D : Type 0) : Type 0 where
  pub expected_time : D
  pub actual_time : D

pub record Launched (D : Type 0) : Type 0 where
  pub cluster : Cluster D
  pub slow_down : List (SlowDown D)
  pub memory_max : D
  pub net_max : D
  pub cpu_max_flops : D
  pub load_balancer_host : ℕ

-- `xbt_dynar_set`: the entry, or a new last one.
abbrev pub dynar_set : {A : Type 0} → List A → ℕ → A → Option (List A)
dynar_set xs i a =
    if ltb i (length xs)
    then some (set xs i a)
    else if i == length xs
    then some (xs ++ a ∷ [])
    else none

abbrev pub empty_pm : DataOfPm
empty_pm = record { pm_name = none; number_of_vms = 0; vms = replicate pm_capacity 0 }

-- `data.VMs[data.numberOfVMs] = i; data.numberOfVMs++; data.PM_name = ...`
unfoldable pub add_vm : DataOfPm → ℕ → ℕ → Option DataOfPm
add_vm pm name i = do
  vms ← store pm.vms pm.number_of_vms i
  some (record { pm_name = some name; number_of_vms = pm.number_of_vms + 1; vms = vms })

module _ {D : Type 0} ⦃d : Double D⦄ (p : Platform) where
  -- One round of the loop: VM `i` is started on `hosts_dynar[host]` and noted in
  -- `dataOfPMs[counter]`.
  unfoldable pub place_vm : ℕ → ℕ → ℕ → Cluster D → Option (Cluster D)
  place_vm i host counter c = do
    require (ltb host p.number_of_hosts)
    vm_list ← dynar_set c.vm_list i (record { pm = host; mem = d.lit 0 0; net = d.lit 0 0 })
    pm ← get_elem? c.data_of_pms counter
    pm' ← add_vm pm (p.host_name host) i
    some (record { data_of_pms = set c.data_of_pms counter pm'; vm_list = vm_list })

  -- The loop with `n` rounds left, and the host that it ends at.
  unfoldable pub place_vms : ℕ → ℕ → ℕ → ℕ → ℕ → ℕ → Cluster D → Option (Cluster D × ℕ)
  place_vms per_host zero i j host counter c = some (c, host)
  place_vms per_host (suc n) i j host counter c =
      let next = leb per_host j in
      let j' = if next then 0 else j in
      let host' = if next then host + 1 else host in
      let counter' = if next then counter + 1 else counter in
      do c' ← place_vm i host' counter' c; place_vms per_host n (i + 1) (j' + 1) host' counter' c'

  -- What the function has set up when it ends at `host`; `xbt_dynar_set` has filled `slow_down`.
  abbrev pub launched : D → ℕ → ℕ → Cluster D → ℕ → Launched D
  launched host_speed per_host no_process cluster host = record {
    cluster = cluster;
    slow_down =
        replicate no_process (record { expected_time = d.lit 0 0; actual_time = d.lit 0 0 });
    memory_max = d.of_int (10 ^ 9 / 1000);
    net_max = d.div (d.lit 125000000 0) (d.of_int per_host);
    cpu_max_flops = host_speed;
    load_balancer_host = host + 1;
  }

  -- The hosts' speed is `host_speed`. The load balancer starts on the host after the last one.
  unfoldable pub launch_master : D → ℕ → ℕ → ℕ → Option (Launched D)
  launch_master host_speed involved no_vm no_process = do
    require (ltb 0 involved)
    let per_host = no_vm / involved
    (cluster, host) ←
        place_vms per_host no_vm 0 0 0 0
          (record { data_of_pms = replicate involved empty_pm; vm_list = [] })
    require (ltb (host + 1) p.number_of_hosts)
    some (launched host_speed per_host no_process cluster host)

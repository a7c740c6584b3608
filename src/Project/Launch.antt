-- ===== src/Project/Launch.antt =====
-- `launch_master` of simgrid-project/hpvc.c: the VMs of a cluster and the hosts that they start on.
pub mod Loop
pub mod Laws
pub mod Idle
use hpv_c.Base.{
  ℕ, zero, suc, ◌+◌, ◌-◌, ◌*◌, ◌/◌, ◌%◌, ◌^◌, min, Bool, not, ◌&&◌, Option, none, some, List, [],
  ◌∷◌, ltb, ◌==◌, length, set, store, replicate, if◌then◌else◌, ◌>>=◌, ◌>>◌, require,
}
use hpv_c.Double.{Double}
use hpv_c.Placement.Launch.{dynar_set, SlowDown}
use hpv_c.Project.Pool.{HostVmInfo, GuestVm, Pool, max_vm_to_pm}

-- What the launch sets up besides the pool. The load balancers start for cluster 0 only.
pub record Launched (D : Type 0) : Type 0 where
  pub pool : Pool D
  pub slow_down : List (SlowDown D)
  pub finish_times : List D
  pub memory_max : D
  pub net_max : D
  pub cpu_max_flops : D
  pub load_balancer_host : Option ℕ

abbrev pub empty_info : HostVmInfo
empty_info = record { number_of_vms = 0; vms_index = replicate max_vm_to_pm 0 }

-- How many VMs a host is meant to take: one more on every other host if they do not divide evenly.
abbrev pub share_of : ℕ → Bool → ℕ → ℕ
share_of vm_to_host vm_placement_method j =
    if vm_placement_method && not (j % 2 == 0) then vm_to_host + 1 else vm_to_host

-- How many VMs start on host `j`, if `i` have been started before.
abbrev pub started_on : ℕ → ℕ → Bool → ℕ → ℕ → ℕ
started_on no_vm vm_to_host vm_placement_method j i =
    min (i + share_of vm_to_host vm_placement_method j) no_vm - i

abbrev pub launched_pool : {D : Type 0} → ℕ → List (Option HostVmInfo) × List (GuestVm D) → Pool D
launched_pool vm_to_host (infos, vms) = record {
  infos = infos;
  vms = vms;
  max_pm_vm = vm_to_host + 1;
  migration_count = 0;
  migration_decision_count = 0;
}

module _ {D : Type 0} ⦃d : Double D⦄ where
  abbrev pub launched : D → ℕ → ℕ → ℕ → ℕ → List (Option HostVmInfo) × List (GuestVm D) → Launched D
  launched host_speed vm_to_host no_process cluster_id host placed = record {
    pool = launched_pool vm_to_host placed;
    slow_down =
        replicate no_process (record { expected_time = d.lit 0 0; actual_time = d.lit 0 0 });
    finish_times = replicate no_process (d.lit 0 0);
    memory_max = d.of_int (256 * 10 ^ 6 / 10000);
    net_max = d.div (d.lit 125000000 0) (d.of_int vm_to_host);
    cpu_max_flops = host_speed;
    load_balancer_host = if cluster_id == 0 then some host else none;
  }

-- `vm_cores` is the number of cores of a VM that `MSG_vm_create_core` makes.
module _ {D : Type 0} ⦃d : Double D⦄ (vm_cores : ℕ) where
  abbrev pub new_vm : ℕ → GuestVm D
  new_vm j = record { pm = j; mem = d.lit 0 0; net = d.lit 0 0; jobs = 0; cores = vm_cores }

  -- The loop over `i` with `n` rounds left, on host `j`.
  unfoldable pub start_vms :
      ℕ → ℕ → ℕ → HostVmInfo → List (GuestVm D) → Option (HostVmInfo × List (GuestVm D))
  start_vms j zero i hvi vms = some (hvi, vms)
  start_vms j (suc n) i hvi vms = do
    vms' ← dynar_set vms i (new_vm j)
    vms_index ← store hvi.vms_index hvi.number_of_vms i
    start_vms j n (i + 1) (record { number_of_vms = hvi.number_of_vms + 1; vms_index = vms_index })
        vms'

  module _ (no_vm vm_to_host : ℕ) (vm_placement_method : Bool) where
    -- The loop over `j` with `left` hosts left.
    unfoldable pub launch_hosts :
        ℕ
        → ℕ
        → ℕ
        → List (Option HostVmInfo)
        → List (GuestVm D)
        → Option (List (Option HostVmInfo) × List (GuestVm D))
    unfolding start_vms
    launch_hosts zero j i infos vms = some (infos, vms)
    launch_hosts (suc left) j i infos vms = do
      require (ltb j (length infos))
      let started = started_on no_vm vm_to_host vm_placement_method j i
      (hvi, vms') ← start_vms j started i empty_info vms
      launch_hosts left (j + 1) (i + started) (set infos j (some hvi)) vms'

  -- `hosts` is the length of `hosts_dynar`, and `host_speed` what MSG_get_host_speed gives. The
  -- property is set on the hosts of this cluster only.
  unfoldable pub launch_master : ℕ → D → ℕ → ℕ → ℕ → ℕ → ℕ → Option (Launched D)
  unfolding launch_hosts
  launch_master hosts host_speed number_of_involved_host total_cluster_host no_vm no_process
        cluster_id =
      do
        require (not (number_of_involved_host == 0))
        let vm_to_host = no_vm / number_of_involved_host
        let vm_placement_method = not (no_vm % number_of_involved_host == 0)
        let host = cluster_id * total_cluster_host
        placed ←
            launch_hosts no_vm vm_to_host vm_placement_method number_of_involved_host host 0
              (replicate hosts none) []
        some (launched host_speed vm_to_host no_process cluster_id host placed)

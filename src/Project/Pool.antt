-- ===== src/Project/Pool.antt =====
-- The VMs and hosts of simgrid-project/hpvc.c, and what the property "host_vm_info" holds.
use hpv_c.Base.{ℕ, Option, List, get_elem?, ◌>>=◌}

abbrev pub max_vm_to_pm : ℕ
max_vm_to_pm = 5

-- `vms_index` is an array of `max_vm_to_pm` words of 32 bits.
pub record HostVmInfo : Type 0 where
  pub number_of_vms : ℕ
  pub vms_index : List ℕ

-- A VM: the host that it runs on, its properties "mem" and "net", the size of its process list and
-- the number of its cores.
pub record GuestVm (D : Type 0) : Type 0 where
  pub pm : ℕ
  pub mem : D
  pub net : D
  pub jobs : ℕ
  pub cores : ℕ

pub record VmPlacement : Type 0 where
  pub vm : ℕ
  pub target_pm : ℕ

-- `infos` is the property of each host of `hosts_dynar`, `none` where it is not set.
pub record Pool (D : Type 0) : Type 0 where
  pub infos : List (Option HostVmInfo)
  pub vms : List (GuestVm D)
  pub max_pm_vm : ℕ
  pub migration_count : ℕ
  pub migration_decision_count : ℕ

-- The property of a host; a property that is not set is a null pointer.
unfoldable pub host_vm_info : List (Option HostVmInfo) → ℕ → Option HostVmInfo
host_vm_info infos h = do info ← get_elem? infos h; info

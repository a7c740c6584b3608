-- ===== src/Placement/Migrate.antt =====
-- `migrate_vm` (simgrid/organizer/hpvc.c).
pub mod Removal
pub mod Laws
use hpv_c.Base.{
  ℕ, zero, suc, ◌+◌, ◌-◌, Option, none, some, List, ltb, get_elem?, set, store, if◌then◌else◌,
  ◌>>=◌, ◌>>◌, require, ◌==◌,
}
use hpv_c.Utility.{remove_item_from_array}
use hpv_c.Placement.Platform.{Platform, DataOfPm, Vm, Cluster}

-- The outer loop with `n` rounds left: the first PM of that name. `strcmp` with a null name faults.
unfoldable pub find_pm : ℕ → ℕ → ℕ → List DataOfPm → Option (Option ℕ)
find_pm name zero i pms = some none
find_pm name (suc n) i pms =
    let rest = find_pm name n (i + 1) pms in
    do pm ← get_elem? pms i; pm_name ← pm.pm_name; if pm_name == name then some (some i) else rest

-- The inner loop: the first place of the VM in `data.VMs`.
unfoldable pub find_slot : ℕ → ℕ → ℕ → List ℕ → Option (Option ℕ)
find_slot vm zero j vms = some none
find_slot vm (suc n) j vms =
    let rest = find_slot vm n (j + 1) vms in
    do x ← get_elem? vms j; if x == vm then some (some j) else rest

unfoldable pub remove_slot : DataOfPm → Option ℕ → Option DataOfPm
remove_slot pm none = some pm
remove_slot pm (some j) = do
  vms ← remove_item_from_array j pm.vms pm.number_of_vms
  some (record pm { vms = vms; number_of_vms = pm.number_of_vms - 1 })

unfoldable pub remove_from : List DataOfPm → ℕ → Option ℕ → Option (List DataOfPm)
unfolding remove_slot find_slot
remove_from pms vm none = some pms
remove_from pms vm (some i) = do
  pm ← get_elem? pms i
  slot ← find_slot vm pm.number_of_vms 0 pm.vms
  pm' ← remove_slot pm slot
  some (set pms i pm')

unfoldable pub append_to : List DataOfPm → ℕ → ℕ → Option (List DataOfPm)
append_to pms vm target = do
  pm ← get_elem? pms target
  vms ← store pm.vms pm.number_of_vms vm
  some (set pms target (record pm { vms = vms; number_of_vms = pm.number_of_vms + 1 }))

-- The VM and the target come as handles, here places in `vm_list` and `hosts_dynar`, and as
-- indices. The message sent at the end, until a send succeeds, only takes simulated time.
module _ {D : Type 0} (p : Platform) where
  unfoldable pub migrate_vm : ℕ → ℕ → ℕ → ℕ → ℕ → Cluster D → Option (Cluster D)
  unfolding find_pm remove_from append_to
  migrate_vm involved vm vm_index target target_index c = do
    moved ← get_elem? c.vm_list vm
    home ← find_pm (p.host_name moved.pm) involved 0 c.data_of_pms
    removed ← remove_from c.data_of_pms vm_index home
    pms ← append_to removed vm_index target_index
    require (ltb target p.number_of_hosts)
    some (record { data_of_pms = pms; vm_list = set c.vm_list vm (record moved { pm = target }) })

-- ===== src/Placement/Platform.antt =====
-- The simulated platform, which SimGrid reads from cluster.xml, and the data that hpvc.c keeps of it.
use hpv_c.Base.{ℕ, ◌≡◌, Option, List}

-- The hosts of `hosts_dynar`, by their index in it. A name is a number: it is only compared and
-- scanned. `scan_number` is what `sscanf (name, "c-%d.me", ...)` stores, if anything.
pub record Platform : Type 0 where
  pub number_of_hosts : ℕ
  pub host_name : ℕ → ℕ
  pub scan_number : ℕ → Option ℕ

-- SimGrid gives no two hosts one name.
abbrev pub NamesDiffer : Platform → Type 0
NamesDiffer p = (i j : ℕ) → p.host_name i ≡ p.host_name j → i ≡ j

-- `none` is the null pointer that `memset` leaves.
pub record DataOfPm : Type 0 where
  pub pm_name : Option ℕ
  pub number_of_vms : ℕ
  pub vms : List ℕ

-- A VM with the index of the host that it runs on (`MSG_vm_get_pm`) and its two properties.
pub record Vm (D : Type 0) : Type 0 where
  pub pm : ℕ
  pub mem : D
  pub net : D

-- `dataOfPMs[0]` and `vm_list[0]`
pub record Cluster (D : Type 0) : Type 0 where
  pub data_of_pms : List DataOfPm
  pub vm_list : List (Vm D)

abbrev pub pm_capacity : ℕ
pm_capacity = 5

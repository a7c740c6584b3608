-- ===== src/Project/Place.antt =====
-- `place_vm` of simgrid-project/hpvc.c: the migration of a VM and the lists of its two hosts.
pub mod Bytes
pub mod Counts
pub mod Moves
pub mod Moved
pub mod Laws
use hpv_c.Base.{
  ℕ, zero, suc, ◌+◌, ◌-◌, ◌*◌, ◌%◌, ◌^◌, min, Option, none, some, List, [], ◌∷◌, leb, ltb, ◌==◌,
  set, store, get_elem?, if◌then◌else◌, ◌>>=◌, ◌>>◌, require,
}
use hpv_c.Utility.{checked_int}
use hpv_c.Project.Pool.{HostVmInfo, GuestVm, VmPlacement, Pool, host_vm_info, max_vm_to_pm}

-- The word `a` with its `k` lowest bytes those of `b`; the lowest byte stands first in memory.
abbrev pub copy_low : ℕ → ℕ → ℕ → ℕ
copy_low k a b = a - a % 256 ^ k + b % 256 ^ k

-- `memmove` of `k` bytes to the first word of the list from the second.
unfoldable pub move_bytes : ℕ → List ℕ → Option (List ℕ)
move_bytes zero words = some words
move_bytes (suc k) [] = none
move_bytes (suc k) (a ∷ []) = none
move_bytes (suc k) (a ∷ b ∷ words) =
    let rest = move_bytes (k - 3) (b ∷ words) in
    do moved ← rest; some (copy_low (min (suc k) 4) a b ∷ moved)

-- The same to the word at `index`.
unfoldable pub move_bytes_at : ℕ → ℕ → List ℕ → Option (List ℕ)
unfolding move_bytes
move_bytes_at zero k words = move_bytes k words
move_bytes_at (suc index) k [] = if k == 0 then some [] else none
move_bytes_at (suc index) k (a ∷ words) = do moved ← move_bytes_at index k words; some (a ∷ moved)

-- The loop over `index` with `n` rounds left: where the VM is listed, or the end.
unfoldable pub index_of : ℕ → ℕ → ℕ → List ℕ → Option ℕ
index_of vm zero index words = some index
index_of vm (suc n) index [] = none
index_of vm (suc n) index (a ∷ words) =
    let rest = index_of vm n (index + 1) words in if a == vm then some index else rest

-- The target's list grows by the number of the target, not by that of the VM.
unfoldable pub list_target : ℕ → HostVmInfo → Option HostVmInfo
list_target target_pm info = do
  vms_index ← store info.vms_index info.number_of_vms target_pm
  some (record { number_of_vms = info.number_of_vms + 1; vms_index = vms_index })

-- The number of bytes to move is the number of the words. The count of a host that a VM leaves is
-- not 0 (Place/Counts), so that the subtraction stays above 0.
unfoldable pub unlist : ℕ → HostVmInfo → Option HostVmInfo
unfolding move_bytes_at index_of
unlist vm info = do
  index ← index_of vm info.number_of_vms 0 info.vms_index
  vms_index ← move_bytes_at index (info.number_of_vms - index) info.vms_index
  some (record { number_of_vms = info.number_of_vms - 1; vms_index = vms_index })

module _ {D : Type 0} where
  -- `max_pm_vm` doubles when the target reaches it.
  abbrev pub raise_limit : Pool D → HostVmInfo → Option ℕ
  raise_limit p target' =
      if leb p.max_pm_vm target'.number_of_vms
      then checked_int (p.max_pm_vm * 2)
      else some p.max_pm_vm

  -- The pool after the VM has left its host, whose property is then `source'`, for the target.
  abbrev pub moved_pool :
      VmPlacement → GuestVm D → HostVmInfo → HostVmInfo → ℕ → ℕ → Pool D → Pool D
  moved_pool placement vm target' source' limit count p = record p {
    infos = set (set p.infos placement.target_pm (some target')) vm.pm (some source');
    vms = set p.vms placement.vm (record vm { pm = placement.target_pm });
    max_pm_vm = limit;
    migration_count = count;
  }

  -- What follows the guard: the migration, the two lists, and the limit.
  unfoldable pub move_vm : VmPlacement → HostVmInfo → Pool D → Option (Pool D)
  unfolding list_target unlist
  move_vm placement target p = do
    vm ← get_elem? p.vms placement.vm
    count ← checked_int (p.migration_count + 1)
    target' ← list_target placement.target_pm target
    source ← host_vm_info (set p.infos placement.target_pm (some target')) vm.pm
    source' ← unlist placement.vm source
    limit ← raise_limit p target'
    some (moved_pool placement vm target' source' limit count p)

  unfoldable pub place_vm : VmPlacement → Pool D → Option (Pool D)
  unfolding move_vm host_vm_info
  place_vm placement p = do
    target ← host_vm_info p.infos placement.target_pm
    let moved = move_vm placement target p
    if leb max_vm_to_pm target.number_of_vms then some p else moved

-- ===== src/Project/Place/Counts.antt =====
-- `place_vm` keeps the counts of VMs on the hosts right, whatever it makes of the lists.
use hpv_c.Base.{
  ℕ, zero, suc, ◌+◌, ◌-◌, ◌≤◌, ◌<◌, ◌≡◌, refl, ◌∙◌, inl, inr, true, Bool-cases, Option, some, List,
  [], ◌∷◌, arith, ltb, ◌==◌, length, set, length-set, get_elem?-set, get_elem?, get_elem?_bound,
  if◌then◌else◌, >>=-eq-some,
}
use hpv_c.Project.Pool.{HostVmInfo, GuestVm, host_vm_info, max_vm_to_pm}
use hpv_c.Project.Place.{move_bytes_at, index_of, list_target, unlist}
use hpv_c.Project.Place.Bytes.{length-move_bytes_at}

module _ {D : Type 0} where
  -- How many of the VMs run on the host.
  abbrev pub on_pm : ℕ → List (GuestVm D) → ℕ
  on_pm h [] = 0
  on_pm h (vm ∷ vms) = (if vm.pm == h then 1 else 0) + on_pm h vms

  pub on_pm-set :
      (h v : ℕ) (vms : List (GuestVm D)) (old new : GuestVm D)
      → get_elem? vms v ≡ some old
      → on_pm h (set vms v new) + (if old.pm == h then 1 else 0)
        ≡ on_pm h vms + (if new.pm == h then 1 else 0)
  on_pm-set h v [] old new got = cc
  on_pm-set h zero (vm ∷ vms) old new got = let same : vm ≡ old = cc in rw same (omega arith)
  on_pm-set h (suc v) (vm ∷ vms) old new got = omega (arith, on_pm-set h v vms old new got)

-- The property of a host counts the `n` VMs on it, and its list has its full length.
pub record IsInfo (n : ℕ) (info : HostVmInfo) : Type 0 where
  pub counted : info.number_of_vms ≡ n
  pub fits : n ≤ max_vm_to_pm
  pub slots : length info.vms_index ≡ max_vm_to_pm

-- Every host's count is that of the VMs on it, and every VM runs on a host that has the property.
pub record IsCounted {D : Type 0} (infos : List (Option HostVmInfo)) (vms : List (GuestVm D))
    : Type 0 where
  pub counts :
      (h : ℕ) (info : HostVmInfo) → host_vm_info infos h ≡ some info → IsInfo (on_pm h vms) info
  pub homes :
      (v : ℕ) (vm : GuestVm D)
      → get_elem? vms v ≡ some vm
      → (info : HostVmInfo) × (host_vm_info infos vm.pm ≡ some info)

pub host_vm_info_bound :
    (infos : List (Option HostVmInfo)) (h : ℕ) {info : HostVmInfo}
    → host_vm_info infos h ≡ some info
    → h < length infos
unfolding host_vm_info
host_vm_info_bound infos h e =
    let (slot, got, rest) = >>=-eq-some (get_elem? infos h) _ e in get_elem?_bound infos h got

pub host_vm_info-set :
    (infos : List (Option HostVmInfo)) (h j : ℕ) (info : HostVmInfo)
    → h < length infos
    → host_vm_info (set infos h (some info)) j
      ≡ (if h == j then some info else host_vm_info infos j)
unfolding host_vm_info
host_vm_info-set infos h j info lt = elim (Bool-cases (h == j)) [
  | inl here ↦ rw (get_elem?-set infos h j (some info) lt, here) refl
  | inr other ↦ rw (get_elem?-set infos h j (some info) lt, other) refl
]

pub list_target-IsInfo :
    (target_pm n : ℕ) (info : HostVmInfo)
    → IsInfo n info
    → n < max_vm_to_pm
    → (info' : HostVmInfo) × (list_target target_pm info ≡ some info') × IsInfo (n + 1) info'
unfolding list_target
list_target-IsInfo target_pm n info i room =
    let fits : ltb info.number_of_vms (length info.vms_index) ≡ true =
      ground (arith, i.counted, i.slots) in
    (
      record {
        number_of_vms = info.number_of_vms + 1;
        vms_index = set info.vms_index info.number_of_vms target_pm;
      },
      rw fits refl,
      record {
        counted = omega (arith, i.counted);
        fits = omega arith;
        slots = length-set info.vms_index info.number_of_vms target_pm ∙ i.slots;
      },
    )

pub unlist-IsInfo :
    (vm n : ℕ) (info info' : HostVmInfo)
    → IsInfo (n + 1) info
    → unlist vm info ≡ some info'
    → IsInfo n info'
unfolding unlist
unlist-IsInfo vm n info info' i h =
    let (index, at, h1) = >>=-eq-some (index_of vm info.number_of_vms 0 info.vms_index) _ h in
    let (words, moved, h2) =
      >>=-eq-some (move_bytes_at index (info.number_of_vms - index) info.vms_index) _ h1 in
    let slots =
      length-move_bytes_at index (info.number_of_vms - index) info.vms_index words moved in
    let same : record { number_of_vms = info.number_of_vms - 1; vms_index = words } ≡ info' = cc in
    rw (← same) (record {
      counted = omega (arith, i.counted);
      fits = omega (arith, i.fits);
      slots = slots ∙ i.slots;
    })

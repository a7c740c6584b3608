-- ===== src/Project/Launch/Loop.antt =====
-- The two loops of `launch_master` leave right counts and lists.
use hpv_c.Base.{
  ℕ, zero, suc, ◌+◌, ◌≤◌, ◌<◌, ◌≡◌, refl, ap, sym, ◌∙◌, ◌⊎◌, inl, inr, true, false, Bool,
  Bool-cases, Option, some, List, [], ◌∷◌, ◌++◌, arith, min, ltb, ◌==◌, length, length-append,
  length-set, set, store, get_elem?, get_elem?_bound, get_elem?-set, get_elem?-append_one,
  if◌then◌else◌,
}
use hpv_c.Double.{Double}
use hpv_c.Placement.Launch.{dynar_set}
use hpv_c.Project.Pool.{HostVmInfo, GuestVm, host_vm_info, max_vm_to_pm}
use hpv_c.Project.Place.Counts.{on_pm, IsInfo, host_vm_info-set}
use hpv_c.Project.Launch.{empty_info, share_of, started_on, new_vm, start_vms, launch_hosts}

abbrev with_vm : ℕ → HostVmInfo → HostVmInfo
with_vm i hvi = record {
  number_of_vms = hvi.number_of_vms + 1;
  vms_index = set hvi.vms_index hvi.number_of_vms i;
}

-- The number of a VM is one of the words in use.
abbrev pub Lists : HostVmInfo → ℕ → Type 0
Lists info v = (k : ℕ) × (k < info.number_of_vms) × (get_elem? info.vms_index k ≡ some v)

module _ {D : Type 0} where
  on_pm-append_one :
      (h : ℕ) (vms : List (GuestVm D)) (vm : GuestVm D)
      → on_pm h (vms ++ vm ∷ []) ≡ on_pm h vms + (if vm.pm == h then 1 else 0)
  on_pm-append_one h [] vm = omega arith
  on_pm-append_one h (x ∷ vms) vm = omega (arith, on_pm-append_one h vms vm)

  append_one_cases :
      (vms : List (GuestVm D)) (new vm : GuestVm D) (v : ℕ)
      → get_elem? (vms ++ new ∷ []) v ≡ some vm
      → (vm ≡ new) ⊎ (get_elem? vms v ≡ some vm)
  append_one_cases vms new vm v got = elim (Bool-cases (v == length vms)) [
    | inl last ↦ inl (cc (rw last at (get_elem?-append_one vms new v), got))
    | inr before ↦ inr (sym (rw before at (get_elem?-append_one vms new v)) ∙ got)
  ]

  -- The words in use name VMs that run on the host.
  abbrev pub Names : ℕ → List (GuestVm D) → HostVmInfo → Type 0
  Names h vms info =
      (k : ℕ)
      → k < info.number_of_vms
      → (v : ℕ) × (vm : GuestVm D) × (get_elem? info.vms_index k ≡ some v)
        × (get_elem? vms v ≡ some vm)
        × (vm.pm ≡ h)

  Names-append :
      (h : ℕ) (vms : List (GuestVm D)) (info : HostVmInfo) (new : GuestVm D)
      → Names h vms info
      → Names h (vms ++ new ∷ []) info
  Names-append h vms info new names k lt =
      let (v, vm, at, got, home) = names k lt in
      let below = get_elem?_bound vms v got in
      (v, vm, at, ground (arith, get_elem?-append_one vms new v), home)

  -- The hosts from `first` to the one before `j` have their properties, and the VMs run on them, but
  -- for those that run on `j` and that its property `hvi` is to list.
  pub record Starting (first j : ℕ) (infos : List (Option HostVmInfo)) (hvi : HostVmInfo)
      (vms : List (GuestVm D)) : Type 0 where
    pub counts :
        (h : ℕ) (info : HostVmInfo)
        → host_vm_info infos h ≡ some info
        → (h < j) × IsInfo (on_pm h vms) info × Names h vms info
    pub known :
        (h : ℕ) → first ≤ h → h < j → (info : HostVmInfo) × (host_vm_info infos h ≡ some info)
    pub homes : (v : ℕ) (vm : GuestVm D) → get_elem? vms v ≡ some vm → first ≤ vm.pm
    pub below : (v : ℕ) (vm : GuestVm D) → get_elem? vms v ≡ some vm → vm.pm ≤ j
    pub fresh : (h : ℕ) → j < h → on_pm h vms ≡ 0
    pub own : IsInfo (on_pm j vms) hvi
    pub names : Names j vms hvi
    pub listed :
        (v : ℕ) (vm : GuestVm D) (info : HostVmInfo)
        → get_elem? vms v ≡ some vm
        → host_vm_info infos vm.pm ≡ some info
        → Lists info v
    pub own_listed : (v : ℕ) (vm : GuestVm D) → get_elem? vms v ≡ some vm → vm.pm ≡ j → Lists hvi v

module _ {D : Type 0} ⦃d : Double D⦄ (vm_cores first j : ℕ) (infos : List (Option HostVmInfo))
    (le : first ≤ j) where
  Starting-next :
      (i : ℕ) (hvi : HostVmInfo) (vms : List (GuestVm D))
      → Starting first j infos hvi vms
      → length vms ≡ i
      → hvi.number_of_vms < max_vm_to_pm
      → Starting first j infos (with_vm i hvi) (vms ++ new_vm vm_cores j ∷ [])
  Starting-next i hvi vms s size room = record {
    counts = λ h info got.
        let (lt, n, names) = s.counts h info got in
        let other : (j == h) ≡ false = ground arith in
        let same : on_pm h (vms ++ new_vm vm_cores j ∷ []) ≡ on_pm h vms =
          ground (arith, on_pm-append_one h vms (new_vm vm_cores j)) in
        (lt, rw same n, Names-append h vms info (new_vm vm_cores j) names);
    known = s.known;
    homes = λ v vm got. elim (append_one_cases vms (new_vm vm_cores j) vm v got) [
      | inl new ↦ rw new le
      | inr old ↦ s.homes v vm old
    ];
    below = λ v vm got. elim (append_one_cases vms (new_vm vm_cores j) vm v got) [
      | inl new ↦ rw new (omega arith)
      | inr old ↦ s.below v vm old
    ];
    fresh = λ h lt. ground (arith, on_pm-append_one h vms (new_vm vm_cores j), s.fresh h lt);
    own =
        let one_more : on_pm j (vms ++ new_vm vm_cores j ∷ []) ≡ on_pm j vms + 1 =
          ground (arith, on_pm-append_one j vms (new_vm vm_cores j)) in
        record {
          counted = omega (arith, s.own.counted);
          fits = omega (arith, s.own.counted);
          slots = length-set hvi.vms_index hvi.number_of_vms i ∙ s.own.slots;
        };
    names = λ k lt.
        let in_use : hvi.number_of_vms < length hvi.vms_index = omega (arith, s.own.slots) in
        elim (Bool-cases (k == hvi.number_of_vms)) [
          | inl last ↦ (
            i,
            new_vm vm_cores j,
            ground (arith, get_elem?-set hvi.vms_index hvi.number_of_vms k i in_use),
            ground (arith, get_elem?-append_one vms (new_vm vm_cores j) i),
            refl,
          )
          | inr before ↦
              let (v, vm, at, got, home) =
                Names-append j vms hvi (new_vm vm_cores j) s.names k (ground arith) in
              (
                v,
                vm,
                ground (arith, get_elem?-set hvi.vms_index hvi.number_of_vms k i in_use),
                got,
                home,
              )
        ];
    listed = λ v vm info got at. elim (append_one_cases vms (new_vm vm_cores j) vm v got) [
      | inl new ↦
          let here : vm.pm ≡ j = ap (λ x. x.pm) new in
          let (lt, _, _) = s.counts vm.pm info at in absurd (omega arith)
      | inr old ↦ s.listed v vm info old at
    ];
    own_listed = λ v vm got here.
        let in_use : hvi.number_of_vms < length hvi.vms_index = omega (arith, s.own.slots) in
        elim (Bool-cases (v == length vms)) [
          | inl last ↦ (
            hvi.number_of_vms,
            omega arith,
            ground
                (arith, get_elem?-set hvi.vms_index hvi.number_of_vms hvi.number_of_vms i in_use),
          )
          | inr before ↦
              let old : get_elem? vms v ≡ some vm =
                sym (rw before at (get_elem?-append_one vms (new_vm vm_cores j) v)) ∙ got in
              let (k, lt, at) = s.own_listed v vm old here in
              (
                k,
                omega arith,
                ground (arith, get_elem?-set hvi.vms_index hvi.number_of_vms k i in_use),
              )
        ];
  }

  start_vms-Starting :
      (n i : ℕ) (hvi : HostVmInfo) (vms : List (GuestVm D))
      → Starting first j infos hvi vms
      → length vms ≡ i
      → hvi.number_of_vms + n ≤ max_vm_to_pm
      → (hvi' : HostVmInfo) × (vms' : List (GuestVm D)) × (start_vms vm_cores j n i hvi vms
          ≡ some (hvi', vms'))
        × Starting first j infos hvi' vms'
        × (length vms' ≡ i + n)
        × (hvi'.number_of_vms ≡ hvi.number_of_vms + n)
  unfolding start_vms
  start_vms-Starting zero i hvi vms s size room = (hvi, vms, refl, s, omega arith, omega arith)
  start_vms-Starting (suc n) i hvi vms s size room =
      let new = new_vm vm_cores j in
      let s' = Starting-next i hvi vms s size (omega arith) in
      let (hvi', vms', done, s'', size', many) =
        start_vms-Starting n (i + 1) (with_vm i hvi) (vms ++ new ∷ []) s'
          (omega (arith, length-append vms (new ∷ []))) (omega arith) in
      let stored : store hvi.vms_index hvi.number_of_vms i
          ≡ some (set hvi.vms_index hvi.number_of_vms i) =
        ground (arith, s.own.slots) in
      let added : dynar_set vms i new ≡ some (vms ++ new ∷ []) = ground arith in
      (hvi', vms', rw (added, stored) done, s'', omega arith, omega arith)

  -- The property is set, and the loop goes on to the next host.
  Starting-set :
      (hvi : HostVmInfo) (vms : List (GuestVm D))
      → j < length infos
      → Starting first j infos hvi vms
      → Starting first (j + 1) (set infos j (some hvi)) empty_info vms
  Starting-set hvi vms within s = record {
    counts = λ h info got. elim (Bool-cases (j == h)) [
      | inl here ↦
          let same : j ≡ h = ground arith in
          let it : hvi ≡ info = cc (rw here at (host_vm_info-set infos j h hvi within), got) in
          (omega arith, rw (← it, ← same) s.own, rw (← it, ← same) s.names)
      | inr other ↦
          let (lt, n, names) =
            s.counts h info (sym (rw other at (host_vm_info-set infos j h hvi within)) ∙ got) in
          (omega arith, n, names)
    ];
    known = λ h lo hi. elim (Bool-cases (j == h)) [
      | inl here ↦ (hvi, rw here at (host_vm_info-set infos j h hvi within))
      | inr other ↦
          let (info, got) = s.known h lo (ground arith) in
          (info, rw other at (host_vm_info-set infos j h hvi within) ∙ got)
    ];
    homes = s.homes;
    below = λ v vm got. omega (arith, s.below v vm got);
    fresh = λ h lt. s.fresh h (omega arith);
    own = record {
      counted = sym (s.fresh (j + 1) (omega arith));
      fits = omega (arith, s.fresh (j + 1));
      slots = refl;
    };
    names = λ k lt. absurd (omega arith);
    listed = λ v vm info got at. elim (Bool-cases (j == vm.pm)) [
      | inl here ↦
          let it : hvi ≡ info = cc (rw here at (host_vm_info-set infos j vm.pm hvi within), at) in
          rw (← it) (s.own_listed v vm got (ground arith))
      | inr other ↦
          s.listed v vm info got
            (sym (rw other at (host_vm_info-set infos j vm.pm hvi within)) ∙ at)
    ];
    own_listed = λ v vm got here. absurd (omega (arith, s.below v vm got));
  }

-- How many VMs the hosts from `j` on are meant to take.
abbrev pub planned : ℕ → Bool → ℕ → ℕ → ℕ
planned vm_to_host vm_placement_method zero j = 0
planned vm_to_host vm_placement_method (suc left) j =
    share_of vm_to_host vm_placement_method j + planned vm_to_host vm_placement_method left (j + 1)

module _ {D : Type 0} ⦃d : Double D⦄ (vm_cores no_vm vm_to_host : ℕ) (vm_placement_method : Bool)
    (first : ℕ) (room : (j : ℕ) → share_of vm_to_host vm_placement_method j ≤ max_vm_to_pm) where
  pub launch_hosts-Starting :
      (left j i : ℕ) (infos : List (Option HostVmInfo)) (vms : List (GuestVm D))
      → Starting first j infos empty_info vms
      → first ≤ j
      → j + left ≤ length infos
      → length vms ≡ i
      → i ≤ no_vm
      → (infos' : List (Option HostVmInfo)) × (vms' : List (GuestVm D)) × (launch_hosts vm_cores
            no_vm vm_to_host vm_placement_method left j i infos vms
          ≡ some (infos', vms'))
        × Starting first (j + left) infos' empty_info vms'
        × (length vms' ≡ min (i + planned vm_to_host vm_placement_method left j) no_vm)
  unfolding launch_hosts
  launch_hosts-Starting zero j i infos vms s le within size few =
      let ends : j ≡ j + 0 = omega arith in (infos, vms, refl, rw ends at s, omega arith)
  launch_hosts-Starting (suc left) j i infos vms s le within size few =
      let share = room j in
      let n = started_on no_vm vm_to_host vm_placement_method j i in
      let (hvi, vms1, done, s1, size1, many) =
        start_vms-Starting vm_cores first j infos le n i empty_info vms s size (omega arith) in
      let s2 = Starting-set vm_cores first j infos le hvi vms1 (omega arith) s1 in
      let (infos', vms', rest, s', all) =
        launch_hosts-Starting left (j + 1) (i + n) (set infos j (some hvi)) vms1 s2 (omega arith)
          (omega (arith, length-set infos j (some hvi))) size1 (omega arith) in
      let inside : ltb j (length infos) ≡ true = ground arith in
      let ends : j + 1 + left ≡ j + suc left = omega arith in
      (infos', vms', rw (inside, done) rest, rw ends at s', omega arith)

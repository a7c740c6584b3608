-- ===== src/Project/Place/Laws.antt =====
-- What `place_vm` does, and which VM it cannot move.
use hpv_c.Base.{
  ℕ, ◌+◌, ◌-◌, ◌*◌, ◌<◌, ◌≡◌, ◌≢◌, refl, sym, ◌∙◌, ◌⊎◌, inl, inr, true, false, Bool-cases,
  Option-cases, none, some, arith, leb, lt→ltb, ◌==◌, set, get_elem?, >>=-eq-some,
}
use hpv_c.Utility.{int_bound}
use hpv_c.Project.Pool.{HostVmInfo, GuestVm, VmPlacement, Pool, host_vm_info, max_vm_to_pm}
use hpv_c.Project.Place.{index_of, unlist, raise_limit, moved_pool, move_vm, place_vm}
use hpv_c.Project.Place.Bytes.{move_bytes_at_total, move_bytes_at_end}
use hpv_c.Project.Place.Counts.{
  on_pm, IsCounted, host_vm_info-set, host_vm_info_bound, list_target-IsInfo,
}
use hpv_c.Project.Place.Moved.{Moved, move_vm-Moved}

module _ {D : Type 0} where
  place_vm_full :
      (placement : VmPlacement) (p : Pool D) (target : HostVmInfo)
      → IsCounted p.infos p.vms
      → host_vm_info p.infos placement.target_pm ≡ some target
      → on_pm placement.target_pm p.vms ≡ max_vm_to_pm
      → place_vm placement p ≡ some p
  unfolding place_vm
  place_vm_full placement p target c at_t full =
      let i = c.counts placement.target_pm target at_t in
      let fits : leb max_vm_to_pm target.number_of_vms ≡ true = ground (arith, i.counted) in
      rw (at_t, fits) refl

  pub place_vm_outcome :
      (placement : VmPlacement) (p p' : Pool D)
      → IsCounted p.infos p.vms
      → place_vm placement p ≡ some p'
      → IsCounted p'.infos p'.vms
        × (((p' ≡ p) × (on_pm placement.target_pm p.vms ≡ max_vm_to_pm)) ⊎ Moved placement p p')
  unfolding place_vm
  place_vm_outcome placement p p' c h =
      let (target, at_t, h1) = >>=-eq-some (host_vm_info p.infos placement.target_pm) _ h in
      let i = c.counts placement.target_pm target at_t in
      elim (Bool-cases (leb max_vm_to_pm target.number_of_vms)) [
        | inl full ↦
            let same : p ≡ p' = cc (rw full at h1) in
            (rw (← same) c, inl (sym same, ground (arith, i.counted, i.fits)))
        | inr room ↦
            let (c', moved) =
              move_vm-Moved placement target p p' c at_t (ground arith) (rw room at h1) in
            (c', inr moved)
      ]

  -- From a pool whose counts are right, whatever the lists hold, `place_vm` does nothing and does not
  -- fault when the target is full. Else, where it does not fault, it moves the VM, and no other, to
  -- the target, counts one migration and leaves right counts: the count of each host is that of the
  -- VMs on it, and 5 at most.
  pub place_vm-IsCounted :
      (placement : VmPlacement) (p : Pool D) (target : HostVmInfo)
      → IsCounted p.infos p.vms
      → host_vm_info p.infos placement.target_pm ≡ some target
      → ((on_pm placement.target_pm p.vms ≡ max_vm_to_pm) × (place_vm placement p ≡ some p))
        ⊎ ((on_pm placement.target_pm p.vms < max_vm_to_pm)
            × ((place_vm placement p ≡ none)
                ⊎ ((p' : Pool D) × (place_vm placement p ≡ some p')
                    × IsCounted p'.infos p'.vms
                    × Moved placement p p')))
  place_vm-IsCounted placement p target c at_t =
      let i = c.counts placement.target_pm target at_t in
      elim (Bool-cases (leb max_vm_to_pm target.number_of_vms)) [
        | inl full ↦
            let here : on_pm placement.target_pm p.vms ≡ max_vm_to_pm =
              ground (arith, i.counted, i.fits) in
            inl (here, place_vm_full placement p target c at_t here)
        | inr free ↦
            let room : on_pm placement.target_pm p.vms < max_vm_to_pm = ground (arith, i.counted) in
            inr (
              room,
              elim (Option-cases (place_vm placement p)) [
                | inl fault ↦ inl fault
                | inr (p', placed) ↦
                    let (c', result) = place_vm_outcome placement p p' c placed in
                    elim result [
                      | inl (same, full) ↦ absurd (omega arith)
                      | inr moved ↦ inr (p', placed, c', moved)
                    ]
              ],
            )
      ]

raise_limit_total :
    {D : Type 0} (p : Pool D) (info : HostVmInfo)
    → p.max_pm_vm * 2 < int_bound
    → (l : ℕ) × (raise_limit p info ≡ some l)
raise_limit_total p info room = elim (Bool-cases (leb p.max_pm_vm info.number_of_vms)) [
  | inl full ↦ (p.max_pm_vm * 2, rw (full, lt→ltb (p.max_pm_vm * 2) int_bound room) refl)
  | inr free ↦ (p.max_pm_vm, rw free refl)
]

module _ {D : Type 0} (placement : VmPlacement) (p : Pool D) (c : IsCounted p.infos p.vms)
    (target source : HostVmInfo) (vm : GuestVm D) (i : ℕ)
    (got : get_elem? p.vms placement.vm ≡ some vm)
    (at_t : host_vm_info p.infos placement.target_pm ≡ some target)
    (from : host_vm_info p.infos vm.pm ≡ some source) (other : placement.target_pm ≢ vm.pm)
    (room : target.number_of_vms < max_vm_to_pm)
    (listed : index_of placement.vm source.number_of_vms 0 source.vms_index ≡ some i)
    (in_use : i < source.number_of_vms) where
  unlist-some : i ≢ 4 → (source' : HostVmInfo) × (unlist placement.vm source ≡ some source')
  unfolding unlist
  unlist-some early =
      let s = c.counts vm.pm source from in
      let (words, moved, n) =
        move_bytes_at_total i (source.number_of_vms - i) source.vms_index
          (omega (arith, s.counted, s.fits, s.slots)) in
      (
        record { number_of_vms = source.number_of_vms - 1; vms_index = words },
        rw (listed, moved) refl,
      )

  unlist-none : i ≡ 4 → unlist placement.vm source ≡ none
  unfolding unlist
  unlist-none last =
      let s = c.counts vm.pm source from in
      rw
        (
          listed,
          move_bytes_at_end i (source.number_of_vms - i) source.vms_index (omega (arith, s.slots))
              (omega arith),
        )
        refl

  -- In a pool whose counts are right, a VM that its host lists at place `i`, among those that it counts,
  -- is moved to another host that has room without a fault if
  -- it is one of the first four, and faults if it is the fifth: the words behind it are moved up, and
  -- there is none. (The two counters stay in an int.)
  pub place_vm_fifth :
      p.migration_count + 1 < int_bound
      → p.max_pm_vm * 2 < int_bound
      → (i ≢ 4 → (p' : Pool D) × (place_vm placement p ≡ some p'))
        × (i ≡ 4 → place_vm placement p ≡ none)
  unfolding place_vm move_vm
  place_vm_fifth count limit =
      let t = placement.target_pm in
      let t_info = c.counts t target at_t in
      let (target', grown, t') =
        list_target-IsInfo t (on_pm t p.vms) target t_info (omega (arith, t_info.counted)) in
      let free : leb max_vm_to_pm target.number_of_vms ≡ false = ground arith in
      let counted = lt→ltb (p.migration_count + 1) int_bound count in
      let apart : (t == vm.pm) ≡ false = ground arith in
      let still : host_vm_info (set p.infos t (some target')) vm.pm ≡ some source =
        rw apart at (host_vm_info-set p.infos t vm.pm target' (host_vm_info_bound p.infos t at_t))
        ∙ from in
      (
        λ early.
            let (source', gone) = unlist-some early in
            let (l, raised) = raise_limit_total p target' limit in
            (
              moved_pool placement vm target' source' l (p.migration_count + 1) p,
              rw (at_t, free, got, counted, grown, still, gone, raised) refl,
            ),
        λ last. rw (at_t, free, got, counted, grown, still, unlist-none last) refl,
      )

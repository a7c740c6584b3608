-- ===== src/Project/Place/Moved.antt =====
-- What `move_vm` changes of the pool where it does not fault.
use hpv_c.Base.{
  ℕ, ◌+◌, ◌<◌, ◌≡◌, ◌≢◌, refl, ◌∙◌, true, false, some, arith, lt→ltb, ◌==◌, length, set, store,
  get_elem?-set, get_elem?, >>=-eq-some,
}
use hpv_c.Utility.{checked_int}
use hpv_c.Project.Pool.{HostVmInfo, GuestVm, VmPlacement, Pool, host_vm_info, max_vm_to_pm}
use hpv_c.Project.Place.{list_target, unlist, raise_limit, moved_pool, move_vm}
use hpv_c.Project.Place.Counts.{
  on_pm, IsInfo, IsCounted, host_vm_info-set, host_vm_info_bound, list_target-IsInfo, unlist-IsInfo,
}
use hpv_c.Project.Place.Moves.{moved-IsCounted}

checked_int_lem : (a b : ℕ) → checked_int a ≡ some b → b ≡ a
checked_int_lem a b h = ground arith

list_target_only :
    (t n : ℕ) (info info' : HostVmInfo)
    → IsInfo n info
    → n < max_vm_to_pm
    → list_target t info ≡ some info'
    → IsInfo (n + 1) info' × (get_elem? info'.vms_index n ≡ some t)
unfolding list_target
list_target_only t n info info' i room listed =
    let (x, made, i') = list_target-IsInfo t n info i room in
    let (words, stored, rest) = >>=-eq-some (store info.vms_index info.number_of_vms t) _ listed in
    let same : x ≡ info' = cc in
    let lt : info.number_of_vms < length info.vms_index = omega (arith, i.counted, i.slots) in
    let fits = lt→ltb info.number_of_vms (length info.vms_index) lt in
    let result : record {
      number_of_vms = info.number_of_vms + 1;
      vms_index = set info.vms_index info.number_of_vms t;
    }
        ≡ info' =
      cc (rw fits at listed) in
    (
      rw same at i',
      rw (← result)
          (ground (arith, i.counted, get_elem?-set info.vms_index info.number_of_vms n t lt)),
    )

module _ {D : Type 0} where
  -- What a move changes: the VM's host and the number of migrations, and the target's list ends
  -- with the number of the target.
  pub record Moved (placement : VmPlacement) (p p' : Pool D) : Type 0 where
    pub vm : GuestVm D
    pub known : get_elem? p.vms placement.vm ≡ some vm
    pub vms : p'.vms ≡ set p.vms placement.vm (record vm { pm = placement.target_pm })
    pub count : p'.migration_count ≡ p.migration_count + 1
    pub decisions : p'.migration_decision_count ≡ p.migration_decision_count
    pub listed :
        placement.target_pm ≢ vm.pm
        → (info : HostVmInfo) × (host_vm_info p'.infos placement.target_pm ≡ some info)
          × (get_elem? info.vms_index (on_pm placement.target_pm p.vms) ≡ some placement.target_pm)

  moved_pool-Moved :
      (placement : VmPlacement) (vm : GuestVm D) (target target' source source' : HostVmInfo)
      (limit count : ℕ) (p p' : Pool D)
      → IsCounted p.infos p.vms
      → get_elem? p.vms placement.vm ≡ some vm
      → host_vm_info p.infos placement.target_pm ≡ some target
      → IsInfo (on_pm placement.target_pm p.vms + 1) target'
      → get_elem? target'.vms_index (on_pm placement.target_pm p.vms) ≡ some placement.target_pm
      → host_vm_info (set p.infos placement.target_pm (some target')) vm.pm ≡ some source
      → unlist placement.vm source ≡ some source'
      → count ≡ p.migration_count + 1
      → some (moved_pool placement vm target' source' limit count p) ≡ some p'
      → IsCounted p'.infos p'.vms × Moved placement p p'
  moved_pool-Moved placement vm target target' source source' limit count p p' c got at_t t' last
        from gone counted result =
      let same : moved_pool placement vm target' source' limit count p ≡ p' = cc in
      rw (← same) (
        moved-IsCounted p.infos p.vms placement.vm placement.target_pm vm target target' source
            source' c got at_t t' from (λ n i. unlist-IsInfo placement.vm n source source' i gone),
        record {
          vm = vm;
          known = got;
          vms = refl;
          count = counted;
          decisions = refl;
          listed = λ ne.
              let t_lt = host_vm_info_bound p.infos placement.target_pm at_t in
              let infos1 = set p.infos placement.target_pm (some target') in
              let apart : (vm.pm == placement.target_pm) ≡ false = ground arith in
              let here : (placement.target_pm == placement.target_pm) ≡ true = ground arith in
              (
                target',
                rw apart at (
                      host_vm_info-set infos1 vm.pm placement.target_pm source'
                        (host_vm_info_bound infos1 vm.pm from))
                    ∙ rw here at (
                        host_vm_info-set p.infos placement.target_pm placement.target_pm target'
                          t_lt),
                last,
              );
        },
      )

  pub move_vm-Moved :
      (placement : VmPlacement) (target : HostVmInfo) (p p' : Pool D)
      → IsCounted p.infos p.vms
      → host_vm_info p.infos placement.target_pm ≡ some target
      → target.number_of_vms < max_vm_to_pm
      → move_vm placement target p ≡ some p'
      → IsCounted p'.infos p'.vms × Moved placement p p'
  unfolding move_vm
  move_vm-Moved placement target p p' c at_t room h =
      let t = placement.target_pm in
      let t_info = c.counts t target at_t in
      let (vm, got, h1) = >>=-eq-some (get_elem? p.vms placement.vm) _ h in
      let (count, counted, h2) = >>=-eq-some (checked_int (p.migration_count + 1)) _ h1 in
      let (target', listed, h3) = >>=-eq-some (list_target t target) _ h2 in
      let (source, from, h4) =
        >>=-eq-some (host_vm_info (set p.infos t (some target')) vm.pm) _ h3 in
      let (source', gone, h5) = >>=-eq-some (unlist placement.vm source) _ h4 in
      let (limit, raised, h6) = >>=-eq-some (raise_limit p target') _ h5 in
      let (t', last) =
        list_target_only t (on_pm t p.vms) target target' t_info (omega (arith, t_info.counted))
          listed in
      moved_pool-Moved placement vm target target' source source' limit count p p' c got at_t t'
        last from gone (checked_int_lem (p.migration_count + 1) count counted) h6

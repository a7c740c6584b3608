-- ===== src/Project/Place/Moves.antt =====
-- The guard and the steps of `place_vm`: what it does where it does not fault, and when it faults.
use hpv_c.Base.{
  ℕ, ◌+◌, ◌<◌, ◌≡◌, refl, ap, sym, ◌∙◌, inl, inr, Bool-cases, Option, some, List, arith, ◌==◌,
  length, set, get_elem?-set, get_elem?, get_elem?_bound,
}
use hpv_c.Project.Pool.{HostVmInfo, GuestVm, host_vm_info}
use hpv_c.Project.Place.Counts.{
  on_pm, on_pm-set, IsInfo, IsCounted, host_vm_info-set, host_vm_info_bound,
}

still_set :
    (infos : List (Option HostVmInfo)) (h j : ℕ) (x info : HostVmInfo)
    → h < length infos
    → host_vm_info infos j ≡ some info
    → (info' : HostVmInfo) × (host_vm_info (set infos h (some x)) j ≡ some info')
still_set infos h j x info lt got = elim (Bool-cases (h == j)) [
  | inl here ↦ (x, rw (host_vm_info-set infos h j x lt, here) refl)
  | inr other ↦ (info, rw (host_vm_info-set infos h j x lt, other) got)
]

IsInfo-as : {n m : ℕ} {a b : HostVmInfo} → IsInfo n a → some a ≡ some b → n ≡ m → IsInfo m b
IsInfo-as {a = a} {b = b} i e k = let same : a ≡ b = cc in rw (← same, ← k) i

module _ {D : Type 0} where
  -- The two hosts' new properties are right for the VMs after the move.
  pub moved-IsCounted :
      (infos : List (Option HostVmInfo)) (vms : List (GuestVm D)) (v t : ℕ) (vm : GuestVm D)
      (target target' source source' : HostVmInfo)
      → IsCounted infos vms
      → get_elem? vms v ≡ some vm
      → host_vm_info infos t ≡ some target
      → IsInfo (on_pm t vms + 1) target'
      → host_vm_info (set infos t (some target')) vm.pm ≡ some source
      → ((n : ℕ) → IsInfo (n + 1) source → IsInfo n source')
      → IsCounted
          (set (set infos t (some target')) vm.pm (some source'))
          (set vms v (record vm { pm = t }))
  moved-IsCounted infos vms v t vm target target' source source' c got at_t t' from less =
      let t_lt = host_vm_info_bound infos t at_t in
      let infos1 = set infos t (some target') in
      let q_lt = host_vm_info_bound infos1 vm.pm from in
      let vms' = set vms v (record vm { pm = t }) in
      let shift = λ (h : ℕ). on_pm-set h v vms vm (record vm { pm = t }) got in
      let source-IsInfo : IsInfo (on_pm vm.pm vms' + 1) source = elim (Bool-cases (t == vm.pm)) [
        | inl same ↦
            IsInfo-as t' (rw same at (sym (host_vm_info-set infos t vm.pm target' t_lt)) ∙ from)
              (ground (arith, shift vm.pm))
        | inr other ↦
            let old : host_vm_info infos vm.pm ≡ some source =
              sym (rw other at (host_vm_info-set infos t vm.pm target' t_lt)) ∙ from in
            IsInfo-as (c.counts vm.pm source old) refl (ground (arith, shift vm.pm))
      ] in
      record {
        counts = λ h info at. elim (Bool-cases (vm.pm == h)) [
          | inl left ↦
              let place : vm.pm ≡ h = ground arith in
              IsInfo-as (less (on_pm vm.pm vms') source-IsInfo)
                (rw left at (sym (host_vm_info-set infos1 vm.pm h source' q_lt)) ∙ at)
                (ap (λ k. on_pm k vms') place)
          | inr stays ↦
              let before : host_vm_info infos1 h ≡ some info =
                sym (rw stays at (host_vm_info-set infos1 vm.pm h source' q_lt)) ∙ at in
              elim (Bool-cases (t == h)) [
                | inl here ↦
                    let place : t ≡ h = ground arith in
                    IsInfo-as t'
                      (rw here at (sym (host_vm_info-set infos t h target' t_lt)) ∙ before)
                      (ground (arith, shift h, ap (λ k. on_pm k vms) place))
                | inr other ↦
                    let old : host_vm_info infos h ≡ some info =
                      sym (rw other at (host_vm_info-set infos t h target' t_lt)) ∙ before in
                    IsInfo-as (c.counts h info old) refl (ground (arith, shift h))
              ]
        ];
        homes = λ w vm' at.
            let here = get_elem?-set vms v w (record vm { pm = t }) (get_elem?_bound vms v got) in
            elim (Bool-cases (v == w)) [
              | inl it ↦
                  let same : record vm { pm = t } ≡ vm' = cc (rw it at here, at) in
                  let (x, e) = still_set infos t t target' target t_lt at_t in
                  rw (← same) (still_set infos1 vm.pm t source' x q_lt e)
              | inr other ↦
                  let (x, e) = c.homes w vm' (sym (rw other at here) ∙ at) in
                  let (y, e1) = still_set infos t vm'.pm target' x t_lt e in
                  still_set infos1 vm.pm vm'.pm source' y q_lt e1
            ];
      }

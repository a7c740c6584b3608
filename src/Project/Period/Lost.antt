-- ===== src/Project/Period/Lost.antt =====
-- What a list that names a VM that does not exist does to the periods.
use hpv_c.Base.{
  ltb, ◌*◌, ℕ, zero, suc, ◌+◌, ◌≤◌, ◌<◌, ◌≡◌, ◌≢◌, refl, ◌∙◌, ◌⊎◌, inl, inr, true, false, ◌&&◌,
  Bool-cases, Option-cases, none, some, List, [], ◌∷◌, arith, leb, ltb, ◌==◌, length, length-set,
  get_elem?, get_elem?_out, count,
}
use hpv_c.Double.{Double}
use hpv_c.Utility.{int_bound}
use hpv_c.Project.Pool.{HostVmInfo, GuestVm, VmPlacement, Pool, host_vm_info}
use hpv_c.Project.Place.{place_vm}
use hpv_c.Project.Place.Counts.{on_pm, on_pm-set, IsCounted}
use hpv_c.Project.Place.Moved.{Moved}
use hpv_c.Project.Place.Laws.{place_vm_outcome}
use hpv_c.Project.Policy.{
  Usage, Bounds, Selection, sum_usage, no_usage, vm_load, usage_of, cost_to, compare_costs,
  compare_targets, compare_vms, inhabitancy_cost, select,
}
use hpv_c.Project.Period.{place_selected, visit_host, period}
use hpv_c.Project.Period.Visits.{visit_all, visiting_order, period-visit_all}

module _ {D : Type 0} ⦃d : Double D⦄ where
  sum_usage-none :
      (vms : List (GuestVm D)) (n v : ℕ) (listed : List ℕ) (u : Usage D)
      → get_elem? listed n ≡ some v
      → get_elem? vms v ≡ none
      → sum_usage vms (suc n) listed u ≡ none
  unfolding sum_usage
  sum_usage-none vms n v [] u at out = refl
  sum_usage-none vms zero v (w ∷ listed) u at out = let same : w ≡ v = cc in rw (same, out) refl
  sum_usage-none vms (suc n) v (w ∷ listed) u at out = elim (Option-cases (get_elem? vms w)) [
    | inl gone ↦ rw gone refl
    | inr (vm, got) ↦ rw got (
        sum_usage-none vms n v listed
          (record {
            memory = d.add u.memory vm.mem;
            net = d.add u.net vm.net;
            load = u.load + vm_load vm;
          })
          at out)
  ]

  -- The usage of the host cannot be summed up.
  pub record IsLost (t : ℕ) (p : Pool D) : Type 0 where
    pub info : HostVmInfo
    pub got : host_vm_info p.infos t ≡ some info
    pub fault : usage_of p info ≡ none

  module _ (b : Bounds D) (p : Pool D) (t : ℕ) (lost : IsLost t p) where
    compare_targets-none :
        (m v : ℕ) (vm : GuestVm D) (stay : D) (left k : ℕ) (s : Selection D)
        → t ≢ m
        → k ≤ t
        → t < k + left
        → compare_targets b p m v vm stay left k s ≡ none
    unfolding compare_targets
    compare_targets-none m v vm stay zero k s other lo hi = absurd (omega arith)
    compare_targets-none m v vm stay (suc left) k s other lo hi = elim (Bool-cases (k == t)) [
      | inl here ↦
          let same : k ≡ t = ground arith in
          let away : (t == m) ≡ false = ground arith in
          let gone : cost_to b p vm t ≡ none = rw (lost.got, lost.fault) refl in
          rw (same, away, gone) refl
      | inr before ↦ elim (Bool-cases (k == m)) [
        | inl home ↦
            rw home
              (compare_targets-none m v vm stay left (k + 1) s other (ground arith) (omega arith))
        | inr away ↦ elim (Option-cases (cost_to b p vm k)) [
          | inl gone ↦ rw (away, gone) refl
          | inr (c, cost) ↦
              rw (away, cost)
                (compare_targets-none m v vm stay left (k + 1) (compare_costs v stay k c s) other
                  (ground arith) (omega arith))
        ]
      ]
    ]

    compare_vms-none :
        (m : ℕ) (u : Usage D) (n : ℕ) (listed : List ℕ) (s : Selection D)
        → t ≢ m
        → b.host ≤ t
        → t < b.host + b.involved
        → (compare_vms b p m u n listed s ≡ none) ⊎ (compare_vms b p m u n listed s ≡ some s)
    unfolding compare_vms
    compare_vms-none m u zero listed s other lo hi = inr refl
    compare_vms-none m u (suc n) [] s other lo hi = inl refl
    compare_vms-none m u (suc n) (v ∷ listed) s other lo hi =
        elim (Option-cases (get_elem? p.vms v)) [
          | inl gone ↦ inl (rw gone refl)
          | inr (vm, got) ↦
              let gone =
                compare_targets-none m v vm (inhabitancy_cost b p m u vm) b.involved b.host s other
                  lo hi in
              elim (Bool-cases (ltb (p.max_pm_vm * b.cores m) int_bound)) [
                | inl fits ↦ inl (rw (got, fits, gone) refl)
                | inr out ↦ inl (rw (got, out) refl)
              ]
        ]

    select-none : select b p t ≡ none
    unfolding select
    select-none = rw (lost.got, lost.fault) refl

    -- The selection for any other host faults, or there is nothing to select from.
    select_idle :
        (m : ℕ)
        → t ≢ m
        → b.host ≤ t
        → t < b.host + b.involved
        → (select b p m ≡ none)
          ⊎ ((s : Selection D) × (select b p m ≡ some s) × (s.placement ≡ none))
    unfolding select
    select_idle m other lo hi = elim (Option-cases (host_vm_info p.infos m)) [
      | inl gone ↦ inl (rw gone refl)
      | inr (info, got) ↦ elim (Option-cases (usage_of p info)) [
        | inl fault ↦ inl (rw (got, fault) refl)
        | inr (u, used) ↦
            let s : Selection D = record {
              min_cost = b.dbl_max;
              placement = none;
              decisions = p.migration_decision_count;
            } in
            elim (compare_vms-none m u info.number_of_vms info.vms_index s other lo hi) [
              | inl e ↦ inl (rw (got, used, e) refl)
              | inr e ↦ elim (Bool-cases (ltb p.migration_decision_count int_bound)) [
                | inl fits ↦ inr (s, rw (got, used, e, fits) refl, refl)
                | inr out ↦ inl (rw (got, used, e, out) refl)
              ]
            ]
      ]
    ]

    visit_host_idle :
        (m : ℕ)
        → b.host ≤ t
        → t < b.host + b.involved
        → (visit_host b m p ≡ none)
          ⊎ ((t ≢ m) × (p' : Pool D) × (visit_host b m p ≡ some p') × IsLost t p')
    unfolding visit_host place_selected usage_of
    visit_host_idle m lo hi = elim (Bool-cases (t == m)) [
      | inl same ↦ let here : t ≡ m = ground arith in inl (rw (← here, select-none) refl)
      | inr apart ↦
          let other : t ≢ m = ground arith in
          elim (select_idle m other lo hi) [
            | inl e ↦ inl (rw e refl)
            | inr (s, e, idle) ↦ inr (
              other,
              record p { migration_decision_count = s.decisions },
              rw (e, idle) refl,
              record { info = lost.info; got = lost.got; fault = lost.fault },
            )
          ]
    ]

  visit_all-none :
      (b : Bounds D) (t : ℕ) (order : List ℕ) (p : Pool D)
      → IsLost t p
      → b.host ≤ t
      → t < b.host + b.involved
      → 0 < count t order
      → visit_all b order p ≡ none
  visit_all-none b t [] p lost lo hi some_visit = absurd (omega arith)
  visit_all-none b t (m ∷ order) p lost lo hi some_visit =
      elim (visit_host_idle b p t lost m lo hi) [
        | inl e ↦ rw e refl
        | inr (other, p', e, lost') ↦ rw e (visit_all-none b t order p' lost' lo hi (ground arith))
      ]

  -- The last word of the target's list.
  Moved-last :
      (placement : VmPlacement) (p p' : Pool D) (moved : Moved placement p p')
      → IsCounted p'.infos p'.vms
      → placement.target_pm ≢ moved.vm.pm
      → (info : HostVmInfo) × (n : ℕ) × (host_vm_info p'.infos placement.target_pm ≡ some info)
        × (info.number_of_vms ≡ suc n)
        × (get_elem? info.vms_index n ≡ some placement.target_pm)
  Moved-last placement p p' moved c other =
      let t = placement.target_pm in
      let (info, got, last) = moved.listed other in
      let i = c.counts t info got in
      let apart : (moved.vm.pm == t) ≡ false = ground arith in
      let grown : on_pm t p'.vms ≡ on_pm t p.vms + 1 = rw moved.vms (
        ground (
          arith,
          on_pm-set t placement.vm p.vms moved.vm (record moved.vm { pm = t }) moved.known,
        )) in
      (info, on_pm t p.vms, got, omega (arith, i.counted), last)

  IsLost-later :
      (t : ℕ) (p later : Pool D)
      → (info : HostVmInfo) × (n : ℕ) × (host_vm_info p.infos t ≡ some info)
        × (info.number_of_vms ≡ suc n)
        × (get_elem? info.vms_index n ≡ some t)
      → later.infos ≡ p.infos
      → length later.vms ≤ t
      → IsLost t later
  unfolding usage_of
  IsLost-later t p later (info, n, got, size, last) same beyond = record {
    info = info;
    got = rw same got;
    fault =
        let out =
          sum_usage-none later.vms n t info.vms_index no_usage last
            (get_elem?_out later.vms t beyond) in
        rw (size, out) refl;
  }

  -- In a pool whose counts are right the list of the target takes the number of the target in place of
  -- the VM's. Once a VM was moved to another host of the cluster, which had room and whose number is
  -- that of no VM, the next period faults, whatever `rand` gives and whatever the loads are by then:
  -- the load of the target is asked for.
  pub period_lost :
      (b : Bounds D) (placement : VmPlacement) (p p' later : Pool D) (vm : GuestVm D) (random : ℕ)
      → IsCounted p.infos p.vms
      → place_vm placement p ≡ some p'
      → on_pm placement.target_pm p.vms ≢ 5
      → get_elem? p.vms placement.vm ≡ some vm
      → placement.target_pm ≢ vm.pm
      → length p.vms ≤ placement.target_pm
      → b.host ≤ placement.target_pm
      → placement.target_pm < b.host + b.involved
      → later.infos ≡ p'.infos
      → length later.vms ≡ length p'.vms
      → period b random later ≡ none
  period_lost b placement p p' later vm random c placed room got other beyond lo hi same size =
      let t = placement.target_pm in
      let (c', result) = place_vm_outcome placement p p' c placed in
      elim result [
        | inl (unmoved, full) ↦ absurd (room full)
        | inr moved ↦
            let it : vm ≡ moved.vm = cc (moved.known) in
            let many : length p'.vms ≡ length p.vms =
              rw moved.vms (length-set p.vms placement.vm (record moved.vm { pm = t })) in
            let lost =
              IsLost-later t p' later (Moved-last placement p p' moved c' (rw (← it) other)) same
                (omega arith) in
            let (visits, once) = period-visit_all b random later (omega arith) in
            let inside : (leb b.host t && ltb t (b.host + b.involved)) ≡ true = ground arith in
            visits
            ∙ visit_all-none b t (visiting_order b random) later lost lo hi
                (rw (once t, inside) (omega arith))
      ]

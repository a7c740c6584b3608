-- ===== src/Placement/Launch/Laws.antt =====
-- What `launch_master` leaves, and when it cannot run.
use hpv_c.Base.{
  ℕ, zero, suc, ◌+◌, ◌*◌, ◌/◌, ◌%◌, ◌≤◌, ◌<◌, ◌≡◌, ◌≢◌, refl, inl, inr, none, some, [], arith,
  get_elem?, replicate, length, length-replicate, get_elem?-replicate, get_elem?_bound,
  get_elem?_out, Bool-cases, leb,
}
use native.Mathlib.Decide.{dec_lt}
use native.Mathlib.Nat.{mul-div_cancel_left, div-lt_iff_lt-mul, div-add-mod}
use hpv_c.Double.{Double}
use hpv_c.Placement.Platform.{Platform, DataOfPm, Cluster, pm_capacity}
use hpv_c.Placement.Invariant.{IsPm-owns, IsPlaced, owner}
use hpv_c.Placement.Launch.{Launched, empty_pm, place_vm, place_vms, launched, launch_master}
use hpv_c.Placement.Launch.Loop.{Loading, row_le, place_vm-Loading}

lt_of_rows : (a b per : ℕ) → a * per < b * per → a < b
lt_of_rows a b per h = elim (dec_lt a b) [ yes lt ↦ lt | no ge ↦ grind arith ]

last_row : (a h per : ℕ) → 0 < per → a * per ≤ h * per + per → h < a → h + 1 ≡ a
last_row a h per used le lt = elim (dec_lt (h + 1) a) [
  | yes more ↦ absurd (omega (arith, row_le per (h + 1) a more))
  | no ge ↦ omega arith
]

module _ {D : Type 0} ⦃d : Double D⦄ (p : Platform) (involved per : ℕ) where
  module _ (hosts : involved < p.number_of_hosts) (fits : per ≤ pm_capacity) (used : 0 < per) where
    -- The loop fills the hosts in order.
    place_vms-Loading :
        (n i j h m : ℕ) (c : Cluster D)
        → i + n ≡ m
        → m ≤ involved * per
        → i ≡ h * per + j
        → j ≤ per
        → h < involved
        → Loading p involved per i c
        → (c' : Cluster D) × (h' : ℕ) × (place_vms p per n i j h h c ≡ some (c', h'))
          × Loading p involved per m c'
          × (m ≤ h' * per + per)
          × (h' < involved)
    unfolding place_vms
    place_vms-Loading zero i j h m c sum room e le in_h l =
        let same : i ≡ m = omega arith in (c, h, refl, rw (← same) l, omega arith, in_h)
    place_vms-Loading (suc n) i j h m c sum room e le in_h l = elim (Bool-cases (leb per j)) [
      | inl next ↦
          let full : i ≡ (h + 1) * per = ground arith in
          let in_h' : h + 1 < involved = lt_of_rows (h + 1) involved per (omega arith) in
          let (c1, done, l1) =
            place_vm-Loading p involved per i (h + 1) c hosts fits in_h' (omega arith) (omega arith)
              l in
          let (c', h', rest, l', le', in') =
            place_vms-Loading n (i + 1) (0 + 1) (h + 1) m c1 (omega arith) room (omega arith)
              (omega arith) in_h' l1 in
          (c', h', rw (next, done) rest, l', le', in')
      | inr stay ↦
          let j_lt : j < per = ground arith in
          let (c1, done, l1) =
            place_vm-Loading p involved per i h c hosts fits in_h (omega arith) (omega arith) l in
          let (c', h', rest, l', le', in') =
            place_vms-Loading n (i + 1) (j + 1) h m c1 (omega arith) room (omega arith)
              (omega arith) in_h l1 in
          (c', h', rw (stay, done) rest, l', le', in')
    ]

  start_cluster : Cluster D
  start_cluster = record { data_of_pms = replicate involved empty_pm; vm_list = [] }

  start-Loading : Loading p involved per 0 start_cluster
  unfolding start_cluster
  start-Loading = record {
    size = length-replicate involved empty_pm;
    filled = λ k pm got.
        let is_empty : empty_pm ≡ pm = ground (
          arith,
          get_elem?-replicate involved empty_pm k,
          get_elem?_bound (replicate involved empty_pm) k got,
          length-replicate involved empty_pm,
        ) in
        rw (← is_empty) (record {
          placed = record { slots = refl; room = omega arith; holds = λ v. ground arith };
          load = omega arith;
          named = λ h. absurd (omega arith);
        });
    started = refl;
    owners = λ v. ground arith;
  }

  -- With every VM started the placement is consistent.
  Loading-IsPlaced :
      (c : Cluster D) → 0 < per → Loading p involved per (involved * per) c → IsPlaced p involved c
  Loading-IsPlaced c used l = record {
    pms = l.size;
    known = λ i pm got. IsPm-owns _ (owner c) i pm l.owners (l.filled i pm got).placed;
    named = λ i pm got. (l.filled i pm got).named (
        omega (
          arith,
          (l.filled i pm got).load,
          row_le per i involved (rw (← l.size) (get_elem?_bound _ i got)),
        ));
    in_range = λ v h own.
        let lt : v / per < involved = (div-lt_iff_lt-mul used).1 (ground (arith, l.owners v)) in
        ground (arith, l.owners v);
  }

  place_vms_overrun :
      involved < p.number_of_hosts
      → per ≤ pm_capacity
      → 0 < per
      → (n i j h : ℕ) (c : Cluster D) → involved * per < i + n
      → i ≤ involved * per
      → i ≡ h * per + j
      → j ≤ per
      → h < involved
      → Loading p involved per i c
      → place_vms p per n i j h h c ≡ none
  unfolding place_vms place_vm
  place_vms_overrun hosts fits used zero i j h c over le e lj in_h l = absurd (omega arith)
  place_vms_overrun hosts fits used (suc n) i j h c over le e lj in_h l =
      elim (Bool-cases (leb per j)) [
        | inl next ↦
            let full : i ≡ (h + 1) * per = ground arith in
            elim (dec_lt (h + 1) involved) [
              | yes in_h' ↦
                  let (c1, done, l1) =
                    place_vm-Loading p involved per i (h + 1) c hosts fits in_h' (omega arith)
                      (omega arith) l in
                  rw (next, done)
                    (place_vms_overrun hosts fits used n (i + 1) (0 + 1) (h + 1) c1 (omega arith)
                      (omega (arith, row_le per (h + 1) involved in_h')) (omega arith) (omega arith)
                      in_h' l1)
              | no out ↦ rw next (ground (arith, get_elem?_out c.data_of_pms (h + 1), l.size))
            ]
        | inr stay ↦
            let j_lt : j < per = ground arith in
            let (c1, done, l1) =
              place_vm-Loading p involved per i h c hosts fits in_h (omega arith) (omega arith) l in
            rw (stay, done)
              (place_vms_overrun hosts fits used n (i + 1) (j + 1) h c1 (omega arith)
                (omega (arith, row_le per h involved in_h)) (omega arith) (omega arith) in_h l1)
      ]

-- With `per` VMs for each of the involved hosts, from 1 to 5, and one host more on the platform,
-- `launch_master` does not fault, and leaves a consistent placement: VM `v` runs on host `v / per`,
-- each PM lists `per` VMs, there are no further VMs, `slow_down` has an entry for each process, and the load balancer runs
-- on the host after the last one involved.
pub launch_master-IsPlaced :
    {D : Type 0} ⦃d : Double D⦄ (p : Platform) (host_speed : D) (involved per no_process : ℕ)
    → 0 < involved
    → involved < p.number_of_hosts
    → 0 < per
    → per ≤ pm_capacity
    → (l : Launched D) × (launch_master p host_speed involved (involved * per) no_process ≡ some l)
      × IsPlaced p involved l.cluster
      × ((v : ℕ) → v < involved * per → owner l.cluster v ≡ some (v / per))
      × ((i : ℕ) (pm : DataOfPm)
          → get_elem? l.cluster.data_of_pms i ≡ some pm
          → pm.number_of_vms ≡ per)
      × (length l.cluster.vm_list ≡ involved * per)
      × (length l.slow_down ≡ no_process)
      × (l.load_balancer_host ≡ involved)
unfolding launch_master start_cluster
launch_master-IsPlaced {D} p host_speed involved per no_process pos hosts used fits =
    let each : involved * per / involved ≡ per = mul-div_cancel_left per pos in
    let (c, h, done, l, last, in_h) =
      place_vms-Loading p involved per hosts fits used (involved * per) 0 0 0 (involved * per)
        (start_cluster p involved per) (omega arith) (omega arith) (omega arith) (omega arith) pos
        (start-Loading p involved per) in
    let h_eq : h + 1 ≡ involved = last_row involved h per used last in_h in
    (
      launched p host_speed per no_process c h,
      rw (each, done) (ground arith),
      Loading-IsPlaced p involved per c used l,
      λ v lt. ground (arith, l.owners v),
      λ i pm got. omega (
        arith,
        (l.filled i pm got).load,
        row_le per i involved (rw (← l.size) (get_elem?_bound _ i got)),
      ),
      l.started,
      length-replicate no_process _,
      h_eq,
    )

-- If the number of VMs is not a multiple of the number of involved hosts, and the quotient is from
-- 1 to 5, `launch_master` faults: it places the VMs that are left over on a host that `dataOfPMs`
-- has no entry for. (The platform has at least one host more.)
pub launch_master_remainder :
    {D : Type 0} ⦃d : Double D⦄ (p : Platform) (host_speed : D) (involved no_vm no_process : ℕ)
    → 0 < involved
    → involved < p.number_of_hosts
    → 0 < no_vm / involved
    → no_vm / involved ≤ pm_capacity
    → no_vm % involved ≢ 0
    → launch_master p host_speed involved no_vm no_process ≡ none
unfolding launch_master start_cluster
launch_master_remainder p host_speed involved no_vm no_process pos hosts used fits rest =
    let per = no_vm / involved in
    let over : involved * per < no_vm = omega (arith, div-add-mod no_vm involved) in
    rw
      (place_vms_overrun p involved per hosts fits used no_vm 0 0 0 (start_cluster p involved per)
        (omega arith) (omega arith) (omega arith) (omega arith) pos (start-Loading p involved per))
      (ground arith)

-- ===== src/Project/Period/Total.antt =====
-- A visit to a host whose list, and those of the cluster, name the VMs that run there.
use hpv_c.Base.{
  ℕ, zero, suc, ◌+◌, ◌*◌, ◌≤◌, ◌<◌, ◌≡◌, ◌≢◌, refl, ap, ◌∙◌, ◌⊎◌, inl, inr, true, Bool-cases, none,
  some, List, [], ◌∷◌, All, arith, leb, ◌==◌, length, get_elem?, get_elem?_bound,
}
use hpv_c.Double.{Double}
use hpv_c.Utility.{int_bound}
use hpv_c.Project.Pool.{HostVmInfo, GuestVm, VmPlacement, Pool, host_vm_info, max_vm_to_pm}
use hpv_c.Project.Place.{index_of, place_vm}
use hpv_c.Project.Place.Counts.{on_pm, IsCounted}
use hpv_c.Project.Place.Moved.{Moved}
use hpv_c.Project.Place.Laws.{place_vm_outcome, place_vm_fifth}
use hpv_c.Project.Policy.{Usage, Bounds, Selection, compare_costs}
use hpv_c.Project.Policy.Light.{IsLight}
use hpv_c.Project.Policy.Lists.{StandsFirst-get, FirstBelow-all, ListsVms, StandsFirst}
use hpv_c.Project.Policy.Offers.{Offer, IsListed, consider, consider_all, no_selection, select_lem}
use hpv_c.Project.Policy.Offers.Cheapest.{placement_of}
use hpv_c.Project.Period.{place_selected, visit_host}

index_of-StandsFirst :
    (v n start : ℕ) (listed : List ℕ)
    → StandsFirst v n listed
    → (i : ℕ) × (index_of v n start listed ≡ some i) × (i < start + n)
unfolding index_of
index_of-StandsFirst v zero start listed h = elim h [ ]
index_of-StandsFirst v (suc n) start [] h = elim h [ ]
index_of-StandsFirst v (suc n) start (x ∷ listed) (inl e) =
    let it : (x == v) ≡ true = ground arith in (start, rw it refl, omega arith)
index_of-StandsFirst v (suc n) start (x ∷ listed) (inr h) =
    let (i, at, lt) = index_of-StandsFirst v n (start + 1) listed h in
    elim (Bool-cases (x == v)) [
      | inl it ↦ (start, rw it refl, omega arith)
      | inr other ↦ (i, rw other at, omega arith)
    ]

module _ {D : Type 0} where
  -- Every host counts its VMs, and lists VMs that run on it.
  pub record IsTidy (p : Pool D) : Type 0 where
    pub counted : IsCounted p.infos p.vms
    pub lists :
        (h i : ℕ) (info : HostVmInfo)
        → host_vm_info p.infos h ≡ some info
        → i < info.number_of_vms
        → (v : ℕ) × (vm : GuestVm D) × (get_elem? info.vms_index i ≡ some v)
          × (get_elem? p.vms v ≡ some vm)
          × (vm.pm ≡ h)

  pub IsTidy-ListsVms :
      (p : Pool D) (h : ℕ) (info : HostVmInfo)
      → IsTidy p
      → host_vm_info p.infos h ≡ some info
      → ListsVms p h
  IsTidy-ListsVms p h info tidy got = (
    info,
    got,
    FirstBelow-all (length p.vms) info.number_of_vms info.vms_index (λ i lt.
        let (v, vm, at, known, home) = tidy.lists h i info got lt in
        (v, at, get_elem?_bound p.vms v known)),
  )

module _ {D : Type 0} ⦃d : Double D⦄ where
  consider-placement :
      (o : Offer D) (s : Selection D)
      → (consider o s ≡ s) ⊎ ((consider o s).placement ≡ some (placement_of o))
  unfolding consider compare_costs
  consider-placement o s = ground arith

  -- What holds of the placement of all offers holds of the selection's.
  consider_all-placement :
      (P : Offer D → Type 0) (offers : List (Offer D)) (s : Selection D)
      → All P offers
      → (s.placement ≡ none) ⊎ ((o : Offer D) × P o × (s.placement ≡ some (placement_of o)))
      → ((consider_all offers s).placement ≡ none)
        ⊎ ((o : Offer D) × P o × ((consider_all offers s).placement ≡ some (placement_of o)))
  consider_all-placement P [] s h first = first
  consider_all-placement P (o ∷ offers) s h first = elim (consider-placement o s) [
    | inl same ↦ consider_all-placement P offers (consider o s) h.1 (rw same first)
    | inr taken ↦ consider_all-placement P offers (consider o s) h.1 (inr (o, h.0, taken))
  ]

  -- What a visit makes of the pool, the decisions being counted: nothing, or the move of a VM of host
  -- `m` to another host of the cluster that had room.
  pub record Visited (b : Bounds D) (m : ℕ) (p p' : Pool D) : Type 0 where
    pub counted : IsCounted p'.infos p'.vms
    pub result :
        (p' ≡ p)
        ⊎ ((placement : VmPlacement) × (moved : Moved placement p p') × (moved.vm.pm ≡ m)
            × (b.host ≤ placement.target_pm)
            × (placement.target_pm < b.host + b.involved)
            × (placement.target_pm ≢ m)
            × (on_pm placement.target_pm p.vms < max_vm_to_pm))

  module _ (b : Bounds D) (p : Pool D) (m : ℕ) (tidy : IsTidy p)
      (in_cluster : (b.host ≤ m) × (m < b.host + b.involved))
      (known : (h : ℕ)
        → b.host ≤ h
        → h < b.host + b.involved
        → (info : HostVmInfo) × (host_vm_info p.infos h ≡ some info))
      (few : on_pm m p.vms < max_vm_to_pm) (count : p.migration_count + 1 < int_bound)
      (limit : p.max_pm_vm * 2 < int_bound) (light : IsLight b p m) where
    abbrev counting : ℕ → Pool D
    counting decisions = record p { migration_decision_count = decisions }

    visit_placed :
        (u : Usage D) (info : HostVmInfo) (o : Offer D) (decisions : ℕ)
        → host_vm_info p.infos m ≡ some info
        → IsListed b p m u info.number_of_vms info.vms_index o
        → (p' : Pool D) × (place_vm (placement_of o) (counting decisions) ≡ some p')
          × Visited b m (counting decisions) p'
    unfolding place_vm
    visit_placed u info o decisions got (offer, listed, lo, hi) =
        let c = tidy.counted in
        let n = c.counts m info got in
        let (target, at_t) = known o.target lo hi in
        let (i, at, lt) = index_of-StandsFirst o.vm info.number_of_vms 0 info.vms_index listed in
        let (j, below, named) = StandsFirst-get o.vm info.number_of_vms info.vms_index listed in
        let (v, vm, named', vm_got, home) = tidy.lists m j info got below in
        let same : v ≡ o.vm = cc in
        let home' : offer.vm.pm ≡ m =
          let it : vm ≡ offer.vm = cc (rw same at vm_got, offer.known) in rw it at home in
        let other : o.target ≢ m = ground (arith, offer.away) in
        elim (Bool-cases (leb max_vm_to_pm target.number_of_vms)) [
          | inl full ↦
              (counting decisions, rw (at_t, full) refl, record { counted = c; result = inl refl })
          | inr free ↦
              let room : target.number_of_vms < max_vm_to_pm = ground arith in
              let (p', placed) =
                (place_vm_fifth (placement_of o) (counting decisions) c target info offer.vm i
                    offer.known at_t (rw home' got) (rw home' other) room at (omega arith) count
                    limit).0
                  (omega (arith, n.counted)) in
              let (c', result) =
                place_vm_outcome (placement_of o) (counting decisions) p' c placed in
              let t = c.counts o.target target at_t in
              (
                p',
                placed,
                record {
                  counted = c';
                  result = elim result [
                    | inl (same, full) ↦ absurd (omega (arith, t.counted))
                    | inr moved ↦
                        let it : moved.vm ≡ offer.vm = cc (moved.known, offer.known) in
                        inr (
                          placement_of o,
                          moved,
                          ap (λ x. x.pm) it ∙ home',
                          lo,
                          hi,
                          other,
                          omega (arith, t.counted),
                        )
                  ];
                },
              )
        ]

    place_selected_idle :
        (s : Selection D) → s.placement ≡ none → place_selected b s p ≡ some (counting s.decisions)
    unfolding place_selected
    place_selected_idle s idle = rw idle refl

    place_selected_lem :
        (s : Selection D) (placement : VmPlacement)
        → s.placement ≡ some placement
        → place_selected b s p ≡ place_vm placement (counting s.decisions)
    unfolding place_selected
    place_selected_lem s placement chosen = rw chosen refl

    -- In a pool whose hosts all count and list their VMs, every host of the cluster having its list, a
    -- visit to a host of the cluster with 4 VMs at most does not fault (the counters, the
    -- loads and the powers of the hosts stay in an int). Besides the decisions that it counts it changes nothing, or moves exactly one VM of this
    -- host to another host of the cluster, that had room, and leaves right counts.
    pub visit_host_total :
        (decisions : ℕ) × (p' : Pool D) × (visit_host b m p ≡ some p')
        × Visited b m (record p { migration_decision_count = decisions }) p'
    unfolding visit_host
    visit_host_total =
        let (info0, got0) = known m in_cluster.0 in_cluster.1 in
        let (info, u, offers, got, used, e, all) =
          select_lem b p m light (IsTidy-ListsVms p m info0 tidy got0)
            (λ j lo hi. let (info', got') = known j lo hi in IsTidy-ListsVms p j info' tidy got') in
        let s = consider_all offers (no_selection b p) in
        elim (consider_all-placement (IsListed b p m u info.number_of_vms info.vms_index) offers
          (no_selection b p) all.sound (inl refl)) [
            | inl idle ↦ (
              s.decisions,
              counting s.decisions,
              rw e (place_selected_idle s idle),
              record { counted = tidy.counted; result = inl refl },
            )
            | inr (o, listed, chosen) ↦
                let (p', placed, visited) = visit_placed u info o s.decisions got listed in
                (
                  s.decisions,
                  p',
                  rw e (place_selected_lem s (placement_of o) chosen ∙ placed),
                  visited,
                )
          ]

-- ===== src/Organizer/Manager/Period.antt =====
-- A whole period of the organizer.
use hpv_c.Base.{
  ℕ, ◌+◌, ◌≤◌, ◌<◌, ◌≡◌, refl, ◌⊎◌, inl, inr, true, some, List, [], ◌∷◌, ◌++◌, arith, All, length,
  count, get_elem?-in,
}
use hpv_c.Double.{Double}
use hpv_c.Utility.{int_bound}
use hpv_c.Placement.Platform.{NamesDiffer}
use hpv_c.Placement.Invariant.{IsPlaced}
use hpv_c.Organizer.Matrix.{IsSized}
use hpv_c.Organizer.Period.{blends_fit, remember, clear, remember-IsSized, clear-IsSized}
use hpv_c.Organizer.Candidate.{heats, candidate}
use hpv_c.Organizer.Candidate.Total.{heats_total, candidate_index}
use hpv_c.Organizer.NextCost.{next_costs}
use hpv_c.Organizer.NextCost.Total.{next_costs_total}
use hpv_c.Organizer.Sort.{sort_hosts}
use hpv_c.Organizer.Sort.Order.{count-sort_hosts}
use hpv_c.Organizer.Manager.{Settings, Organizer, cost_at, organize}
use hpv_c.Organizer.Manager.Choice.{IsMoved, IsWorth, choose-Chosen}

All-below : (n : ℕ) (xs : List ℕ) → ((v : ℕ) → 0 < count v xs → v < n) → All (λ t. t < n) xs
All-below n [] h = tt
All-below n (x ∷ xs) h = (h x (ground arith), All-below n xs (λ v k. h v (omega arith)))

-- What the program is run with: a platform as SimGrid makes it, and at least one VM.
pub record IsProper {D : Type 0} (s : Settings D) : Type 0 where
  pub names : NamesDiffer s.platform
  pub hosts : s.involved ≤ s.platform.number_of_hosts
  pub some_vm : 0 < s.number_of_vms

-- The state between two periods.
pub record IsReady {D : Type 0} (s : Settings D) (o : Organizer D) : Type 0 where
  pub placed : IsPlaced s.platform s.involved o.cluster
  pub vms : length o.cluster.vm_list ≡ s.number_of_vms
  pub measured : IsSized s.number_of_vms o.measured
  pub tmp : IsSized s.number_of_vms o.tmp

module _ {D : Type 0} ⦃d : Double D⦄ (s : Settings D) where
  -- The state after the matrices are copied and cleared.
  abbrev pub refreshed : Organizer D → Organizer D
  refreshed o = record o { tmp = remember s.alpha o.tmp o.measured; measured = clear o.measured }

  -- One VM moves at most: the candidate, to the first host of the sorted ones that is worth it.
  pub record Outcome (o o' : Organizer D) : Type 0 where
    pub hs : List D
    pub costs : List D
    pub heated : heats s.number_of_vms (refreshed o).tmp s.number_of_vms 0 ≡ some hs
    pub cost :
        next_costs s.platform s.same_cluster s.other_cluster s.number_of_vms
          (refreshed o).tmp
          (candidate o.last hs).index
          o.cluster
          s.involved
          0
        ≡ some costs
    pub chosen :
        ((o' ≡ refreshed o)
          × All
              (λ t. ¬ IsWorth s (candidate o.last hs).current_h costs o t)
              (sort_hosts (cost_at s costs) s.involved))
        ⊎ ((before : List ℕ) × (t : ℕ) × (after : List ℕ) × (sort_hosts (cost_at s costs) s.involved
              ≡ before ++ t ∷ after)
            × All (λ q. ¬ IsWorth s (candidate o.last hs).current_h costs o q) before
            × IsWorth s (candidate o.last hs).current_h costs o t
            × IsMoved s (candidate o.last hs).index t (refreshed o) o')

  refreshed-IsReady : (o : Organizer D) → IsReady s o → IsReady s (refreshed o)
  refreshed-IsReady o r = record {
    placed = r.placed;
    vms = r.vms;
    measured = clear-IsSized s.number_of_vms o.measured r.measured;
    tmp = remember-IsSized s.alpha s.number_of_vms o.tmp o.measured r.tmp r.measured;
  }

  IsMoved-IsReady :
      (vm t : ℕ) (o o' : Organizer D) → IsReady s o → IsMoved s vm t o o' → IsReady s o'
  IsMoved-IsReady vm t o o' r m = record {
    placed = m.placed;
    vms = rw m.vms r.vms;
    measured = rw m.measured r.measured;
    tmp = rw m.tmp r.tmp;
  }

  Outcome-IsReady : (o o' : Organizer D) → IsReady s o → Outcome o o' → IsReady s o'
  Outcome-IsReady o o' r out = elim out.chosen [
    | inl (same, poor) ↦ rw same (refreshed-IsReady o r)
    | inr (before, t, after, split, skipped, worth, moved) ↦
        IsMoved-IsReady _ t (refreshed o) o' (refreshed-IsReady o r) moved
  ]

-- What every period does: the measurements start anew, and one migration at most is counted.
pub Outcome-after :
    {D : Type 0} ⦃d : Double D⦄ (s : Settings D) (o o' : Organizer D)
    → Outcome s o o'
    → (o'.measured ≡ clear o.measured)
      × (o'.tmp ≡ remember s.alpha o.tmp o.measured)
      × (o'.migrate_counter ≤ o.migrate_counter + 1)
Outcome-after s o o' out = elim out.chosen [
  | inl (same, poor) ↦ rw same (refl, refl, omega arith)
  | inr (before, t, after, split, skipped, worth, moved) ↦
      (moved.measured, moved.tmp, omega (arith, moved.counted))
]

-- A period started in a good state does not fault and ends in a good state. Either it moves no VM,
-- and no host is worth it, or it moves the candidate, and no other VM, to the first host in the
-- order of nextH that has room and where the gain is above 5.5. (Fewer than 2^31 - 2 migrations
-- were made before, and each blend of the rates fits in the int that it is cut to.)
pub organize-Outcome :
    {D : Type 0} ⦃d : Double D⦄ (s : Settings D) (o : Organizer D)
    → IsProper s
    → IsReady s o
    → o.migrate_counter + 1 < int_bound
    → blends_fit s.alpha o.tmp.rate o.measured.rate ≡ true
    → (o' : Organizer D) × (organize s o ≡ some o') × IsReady s o' × Outcome s o o'
unfolding organize
organize-Outcome s o proper r few fit =
    let n = s.number_of_vms in
    let o1 = refreshed s o in
    let tmp_sized : IsSized n o1.tmp =
      remember-IsSized s.alpha n o.tmp o.measured r.tmp r.measured in
    let (hs, heated, len) = heats_total n o1.tmp tmp_sized n 0 (omega arith) in
    let c = candidate o.last hs in
    let c_lt : c.index < n = rw (← len) (candidate_index o.last hs (rw len proper.some_vm)) in
    let (costs, cost, cost_len) =
      next_costs_total s.platform n s.involved o1.tmp tmp_sized o.cluster r.placed r.vms
        s.same_cluster s.other_cluster c.index s.involved 0 c_lt (omega arith) in
    let (vm, at) = get_elem?-in o.cluster.vm_list c.index (rw r.vms c_lt) in
    let (o', done, chosen) =
      choose-Chosen s o1 c.index vm.pm proper.names proper.hosts r.placed (rw at refl) few
        c.current_h costs (sort_hosts (cost_at s costs) s.involved)
        (All-below s.involved _
          (λ v h. ground (arith, count-sort_hosts (cost_at s costs) s.involved v))) in
    let out : Outcome s o o' = record {
      hs = hs;
      costs = costs;
      heated = heated;
      cost = cost;
      chosen = chosen;
    } in
    (o', rw (fit, heated, cost) done, Outcome-IsReady s o o' r out, out)

-- ===== src/Organizer/Manager.antt =====
-- A period of `organization_manager` (simgrid/organizer/hpvc.c), from one sleep to the next.
pub mod Choice
pub mod Period
pub mod Run
use hpv_c.Base.{
  ℕ, zero, suc, ◌+◌, Bool, true, false, Option, none, some, List, [], ◌∷◌, ltb, ◌==◌, ◌&&◌,
  get_elem?, if◌then◌else◌, ◌>>=◌, ◌>>◌, require,
}
use hpv_c.Double.{Double, sub_float}
use hpv_c.Utility.{checked_int}
use hpv_c.Placement.Platform.{Platform, DataOfPm, Vm, Cluster, pm_capacity}
use hpv_c.Placement.Migrate.{find_pm, migrate_vm}
use hpv_c.Organizer.Matrix.{Matrices, create_organization_matrix}
use hpv_c.Organizer.Period.{blends_fit, remember, clear}
use hpv_c.Organizer.Candidate.{heats, candidate}
use hpv_c.Organizer.NextCost.{next_costs}
use hpv_c.Organizer.Sort.{sort_hosts}

-- What is fixed while the organizer runs. The two down times are its arguments.
pub record Settings (D : Type 0) : Type 0 where
  pub platform : Platform
  pub number_of_vms : ℕ
  pub involved : ℕ
  pub alpha : D
  pub same_cluster : D
  pub other_cluster : D

-- Its variables that last from period to period, and the state that it shares: the placement and
-- the matrices. `last` is `lastCandidateVMIndex`.
pub record Organizer (D : Type 0) : Type 0 where
  pub cluster : Cluster D
  pub measured : Matrices D
  pub tmp : Matrices D
  pub last : Option ℕ
  pub migrate_counter : ℕ

module _ {D : Type 0} ⦃d : Double D⦄ (s : Settings D) where
  -- The organizer at its first sleep.
  unfoldable pub start : Cluster D → Matrices D → Organizer D
  start c measured = record {
    cluster = c;
    measured = measured;
    tmp = create_organization_matrix s.number_of_vms;
    last = none;
    migrate_counter = 0;
  }

  -- nextH[i], for a host `i` of the array.
  abbrev pub cost_at : List D → ℕ → D
  cost_at [] i = d.lit 0 0
  cost_at (x ∷ xs) zero = x
  cost_at (x ∷ xs) (suc i) = cost_at xs i

  -- Room on the host, and a gain above 5.5.
  abbrev pub is_worth : D → DataOfPm → D → Bool
  is_worth current_h pm cost =
      ltb pm.number_of_vms pm_capacity && d.lt (d.lit 55 1) (sub_float current_h cost)

  -- What is printed before a migration names the home PM, which is looked up unless the VM is to
  -- stay where it is.
  unfoldable pub report : Vm D → ℕ → Cluster D → Option (Unit {0})
  report vm target c =
      if s.platform.host_name vm.pm == s.platform.host_name target
      then some tt
      else do home ← find_pm (s.platform.host_name vm.pm) s.involved 0 c.data_of_pms; some tt

  -- The body of the `if` of the last loop.
  unfoldable pub migrate : ℕ → ℕ → Organizer D → Option (Organizer D)
  migrate vm target o = do
    require (ltb target s.platform.number_of_hosts)
    handle ← get_elem? o.cluster.vm_list vm
    report handle target o.cluster
    c ← migrate_vm s.platform s.involved vm vm target target o.cluster
    counter ← checked_int (o.migrate_counter + 1)
    some (record o { cluster = c; last = some vm; migrate_counter = counter })

  -- The last loop, over the sorted hosts: it ends at the first that is worth a migration.
  unfoldable pub choose : ℕ → D → List D → List ℕ → Organizer D → Option (Organizer D)
  choose vm current_h costs [] o = some o
  choose vm current_h costs (target ∷ order) o =
      let rest = choose vm current_h costs order o in
      do
        pm ← get_elem? o.cluster.data_of_pms target
        handle ← get_elem? o.cluster.vm_list vm
        if is_worth current_h pm (cost_at costs target) then migrate vm target o else rest

  -- The period.
  unfoldable pub organize : Organizer D → Option (Organizer D)
  organize o =
      let tmp = remember s.alpha o.tmp o.measured in
      do
        require (blends_fit s.alpha o.tmp.rate o.measured.rate)
        hs ← heats s.number_of_vms tmp s.number_of_vms 0
        let c = candidate o.last hs
        costs ←
            next_costs s.platform s.same_cluster s.other_cluster s.number_of_vms tmp c.index
              o.cluster s.involved 0
        choose c.index c.current_h costs (sort_hosts (cost_at costs) s.involved)
            (record o { tmp = tmp; measured = clear o.measured })

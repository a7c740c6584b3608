-- ===== src/Project/Period.antt =====
-- The periods of `policy_func_inhab_mig`: each visits all hosts of the cluster, from one drawn by
-- `rand` on.
pub mod Visits
pub mod Counts
pub mod Lost
pub mod Total
use hpv_c.Base.{
  ℕ, zero, suc, ◌+◌, ◌-◌, ◌*◌, ◌%◌, Bool, Option, none, some, List, [], ◌∷◌, ◌==◌, ltb, set,
  get_elem?, if◌then◌else◌, ◌>>=◌, ◌>>◌, require,
}
use hpv_c.Double.{Double}
use hpv_c.Project.Pool.{HostVmInfo, GuestVm, VmPlacement, Pool, host_vm_info}
use hpv_c.Project.Place.{place_vm}
use hpv_c.Project.Policy.{Bounds, Selection, select}

-- A period, for the number that `rand` gives, or a change of the load of a VM by the processes on it.
pub data Event (D : Type 0) : Type 0 where
  draw : ℕ → Event D
  change : ℕ → D → D → ℕ → Event D

module _ {D : Type 0} where
  -- The VM's properties "mem" and "net" and its process list.
  unfoldable pub change_load : ℕ → D → D → ℕ → Pool D → Option (Pool D)
  change_load v mem net jobs p = do
    vm ← get_elem? p.vms v
    some (record p { vms = set p.vms v (record vm { mem = mem; net = net; jobs = jobs }) })

module _ {D : Type 0} ⦃d : Double D⦄ (b : Bounds D) where
  place_selected : Selection D → Pool D → Option (Pool D)
  place_selected s p =
      let p' : Pool D = record p { migration_decision_count = s.decisions } in
      elim s.placement [ none ↦ some p' | some placement ↦ place_vm placement p' ]

  -- The body of the loop over the hosts.
  unfoldable pub visit_host : ℕ → Pool D → Option (Pool D)
  unfolding place_selected
  visit_host m p = do s ← select b p m; place_selected s p

  -- The loop with `left` rounds left (M - z): behind the last host comes the first.
  unfoldable pub visit_hosts : ℕ → ℕ → Pool D → Option (Pool D)
  visit_hosts zero m p = some p
  visit_hosts (suc left) m p =
      let m' = if m == b.host + b.involved then b.host else m in
      do p' ← visit_host m' p; visit_hosts left (m' + 1) p'

  -- A period, for the number that `rand` gives.
  unfoldable pub period : ℕ → Pool D → Option (Pool D)
  unfolding visit_hosts
  period random p = do
    require (ltb 0 b.involved)
    visit_hosts b.involved (b.host + random % b.involved) p

  unfoldable pub step : Event D → Pool D → Option (Pool D)
  unfolding period change_load
  step (draw random) p = period random p
  step (change v mem net jobs) p = change_load v mem net jobs p

  -- What happens until `finish` is set. The loads stay as they are during a period.
  unfoldable pub periods : List (Event D) → Pool D → Option (Pool D)
  unfolding step
  periods [] p = some p
  periods (event ∷ events) p = do p' ← step event p; periods events p'

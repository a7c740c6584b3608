-- ===== src/Project/Tests.antt =====
-- Runs of the earlier simulator, and the theorems at concrete inputs. The doubles are thousandths.
use hpv_c.Base.{
  get_elem?, All, All-get, ℕ, ◌+◌, ◌*◌, ◌≤◌, ◌<◌, ◌≡◌, ◌≢◌, refl, ◌&&◌, Option, none, some, List,
  [], ◌∷◌, arith, leb, ltb, count, length, subst, ◌⊎◌, if◌then◌else◌,
}
use hpv_c.Double.{Milli, milli_double, Milli-IsOrdered}
use hpv_c.Project.Pool.{HostVmInfo, GuestVm, VmPlacement, Pool, host_vm_info}
use hpv_c.Project.Place.{
  place_vm, list_target, unlist, move_vm, move_bytes_at, index_of, move_bytes,
}
use hpv_c.Project.Place.Counts.{on_pm, IsCounted}
use hpv_c.Project.Place.Moved.{Moved}
use hpv_c.Project.Place.Laws.{place_vm-IsCounted, place_vm_fifth}
use hpv_c.Project.Policy.Light.{IsLight}
use hpv_c.Project.Policy.Lists.{ListsVms}
use hpv_c.Project.Policy.Offers.Cheapest.{Selected, select-Selected}
use hpv_c.Project.Period.Visits.{visit_all, visiting_order, period-visit_all}
use hpv_c.Project.Period.Counts.{After, periods-After}
use hpv_c.Project.Period.Lost.{period_lost}
use hpv_c.Project.Period.Total.{IsTidy-ListsVms, Visited, visit_host_total}
use hpv_c.Placement.Launch.{SlowDown}
use hpv_c.Project.Results.{Statistics, destroy_master}
use hpv_c.Project.Results.Latest.{IsLatest, destroy_master-IsLatest}
use hpv_c.Project.Launch.Laws.{IsStarted, launch_master-IsStarted}
use hpv_c.Project.Policy.{
  Usage, Selection, Bounds, select, compare_vms, compare_targets, compare_costs, usage_of,
  sum_usage, inhabitancy_cost, migration_cost,
}
use hpv_c.Project.Period.{
  Event, draw, change, change_load, visit_host, visit_hosts, period, step, periods,
}
use hpv_c.Project.Launch.{Launched, launched, launched_pool, launch_hosts, start_vms, launch_master}

-- Three hosts with 7 VMs: the middle one takes a third.
abbrev small_bounds : Bounds Milli
small_bounds = record { host = 0; involved = 3; cores = λ h. 1; dbl_max = 1000000000 }

abbrev one_vm : ℕ → ℕ → ℕ → GuestVm Milli
one_vm pm net jobs = record { pm = pm; mem = 0; net = net; jobs = jobs; cores = 1 }

abbrev info_of : ℕ → List ℕ → Option HostVmInfo
info_of number_of_vms vms_index =
    some (record { number_of_vms = number_of_vms; vms_index = vms_index })

abbrev small_pool : Pool Milli
small_pool = launched_pool 2 (
  info_of 2 (0 ∷ 1 ∷ 0 ∷ 0 ∷ 0 ∷ [])
      ∷ info_of 3 (2 ∷ 3 ∷ 4 ∷ 0 ∷ 0 ∷ [])
      ∷ info_of 2 (5 ∷ 6 ∷ 0 ∷ 0 ∷ 0 ∷ [])
      ∷ none
      ∷ [],
  one_vm 0 0 0
      ∷ one_vm 0 0 0
      ∷ one_vm 1 0 0
      ∷ one_vm 1 0 0
      ∷ one_vm 1 0 0
      ∷ one_vm 2 0 0
      ∷ one_vm 2 0 0
      ∷ [],
)

launch_small :
    launch_master {D = Milli} 1 4 1000 3 10 7 2 0
    ≡ some (launched 1000 2 2 0 0 (small_pool.infos, small_pool.vms))
unfolding launch_master launch_hosts start_vms
launch_small = refl

launch_master-IsStarted_example :
    (l : Launched Milli) × (launch_master {D = Milli} 1 4 1000 3 10 7 2 0 ≡ some l)
    × IsStarted 0 3 l.pool
    × (length l.pool.vms ≡ 7)
    × (l.pool.max_pm_vm ≡ 3)
    × (l.pool.migration_count ≡ 0)
launch_master-IsStarted_example =
    launch_master-IsStarted 1 4 1000 3 10 7 2 0 (omega arith) (omega arith) (omega arith)

small_pool-IsStarted : IsStarted 0 3 small_pool
small_pool-IsStarted =
    let (l, done, started, number, limit, migrations) = launch_master-IsStarted_example in
    let same : l ≡ launched 1000 2 2 0 0 (small_pool.infos, small_pool.vms) = cc launch_small in
    subst (λ (k : Launched Milli). IsStarted 0 3 k.pool) same started

small-ListsVms : (h : ℕ) → 0 ≤ h → h < 3 → ListsVms small_pool h
small-ListsVms h lo hi =
    let s = small_pool-IsStarted in
    let (info, got) = s.known h lo hi in IsTidy-ListsVms small_pool h info s.tidy got

small_idle :
    (v : ℕ) (vm : GuestVm Milli) → get_elem? small_pool.vms v ≡ some vm → vm.jobs * vm.cores ≤ 0
small_idle v vm got =
    let idle : All (λ x. x.jobs * x.cores ≤ 0) small_pool.vms = (
      omega arith,
      (omega arith, (omega arith, (omega arith, (omega arith, (omega arith, (omega arith, tt)))))),
    ) in
    All-get (λ x. x.jobs * x.cores ≤ 0) small_pool.vms v idle got

small-IsLight : (m : ℕ) → IsLight small_bounds small_pool m
small-IsLight m = record {
  most = 0;
  vms = small_idle;
  hosts = λ k info got. omega arith;
  powers = λ k. omega arith;
  decisions = λ info got.
      let i = small_pool-IsStarted.tidy.counted.counts m info got in
      omega (arith, i.counted, i.fits);
}

select-Selected_example :
    (info : HostVmInfo) × (u : Usage Milli) × (s : Selection Milli) × (host_vm_info small_pool.infos
        1
      ≡ some info)
    × (usage_of small_pool info ≡ some u)
    × (select small_bounds small_pool 1 ≡ some s)
    × Selected small_bounds small_pool 1 info u s
select-Selected_example =
    select-Selected small_bounds small_pool 1 Milli-IsOrdered (small-IsLight 1)
      (small-ListsVms 1 (omega arith) (omega arith)) small-ListsVms

-- VM 1 has left host 0, and the list of host 2 has the number of that host in its place.
abbrev moved_small : ℕ → ℕ → Pool Milli
moved_small net jobs = record {
  infos =
      info_of 1 (0 ∷ 0 ∷ 0 ∷ 0 ∷ 0 ∷ [])
      ∷ info_of 3 (2 ∷ 3 ∷ 4 ∷ 0 ∷ 0 ∷ [])
      ∷ info_of 3 (5 ∷ 6 ∷ 2 ∷ 0 ∷ 0 ∷ [])
      ∷ none
      ∷ [];
  vms =
      one_vm 0 net jobs
      ∷ one_vm 2 net jobs
      ∷ one_vm 1 0 0
      ∷ one_vm 1 0 0
      ∷ one_vm 1 0 0
      ∷ one_vm 2 0 0
      ∷ one_vm 2 0 0
      ∷ [];
  max_pm_vm = 6;
  migration_count = 1;
  migration_decision_count = jobs;
}

abbrev to_third : VmPlacement
to_third = record { vm = 1; target_pm = 2 }

place_third : place_vm to_third small_pool ≡ some (moved_small 0 0)
unfolding place_vm list_target unlist move_vm move_bytes_at index_of move_bytes
place_third = refl

abbrev third_info : HostVmInfo
third_info = record { number_of_vms = 2; vms_index = 5 ∷ 6 ∷ 0 ∷ 0 ∷ 0 ∷ [] }

third_known : host_vm_info small_pool.infos 2 ≡ some third_info
unfolding host_vm_info
third_known = refl

place_vm-IsCounted_example :
    ((on_pm 2 small_pool.vms ≡ 5) × (place_vm to_third small_pool ≡ some small_pool))
    ⊎ ((on_pm 2 small_pool.vms < 5)
        × ((place_vm to_third small_pool ≡ none)
            ⊎ ((p' : Pool Milli) × (place_vm to_third small_pool ≡ some p')
                × IsCounted p'.infos p'.vms
                × Moved to_third small_pool p')))
place_vm-IsCounted_example =
    place_vm-IsCounted to_third small_pool third_info small_pool-IsStarted.tidy.counted third_known

place_vm_fifth_example :
    (◌≢◌ {A = ℕ} 1 4 → (p' : Pool Milli) × (place_vm to_third small_pool ≡ some p'))
    × (◌≡◌ {A = ℕ} 1 4 → place_vm to_third small_pool ≡ none)
unfolding index_of host_vm_info
place_vm_fifth_example =
    place_vm_fifth to_third small_pool small_pool-IsStarted.tidy.counted
      (record { number_of_vms = 2; vms_index = 5 ∷ 6 ∷ 0 ∷ 0 ∷ 0 ∷ [] })
      (record { number_of_vms = 2; vms_index = 0 ∷ 1 ∷ 0 ∷ 0 ∷ 0 ∷ [] }) (one_vm 0 0 0) 1 refl refl
      refl (omega arith) (omega arith) refl (omega arith) (omega arith) (omega arith)

period-visit_all_example :
    (period small_bounds 5 small_pool
      ≡ visit_all small_bounds (visiting_order small_bounds 5) small_pool)
    × ((h : ℕ)
        → count h (visiting_order small_bounds 5) ≡ (if leb 0 h && ltb h (0 + 3) then 1 else 0))
period-visit_all_example = period-visit_all small_bounds 5 small_pool (omega arith)

visit_host_total_example :
    (decisions : ℕ) × (p' : Pool Milli) × (visit_host small_bounds 1 small_pool ≡ some p')
    × Visited small_bounds 1 (record small_pool { migration_decision_count = decisions }) p'
visit_host_total_example =
    visit_host_total small_bounds small_pool 1 small_pool-IsStarted.tidy (omega arith, omega arith)
      small_pool-IsStarted.known (omega arith) (omega arith) (omega arith) (small-IsLight 1)

-- The first two VMs get busy, and one of them is moved.
abbrev busy : List (Event Milli)
busy = change 0 0 125000000000 4 ∷ change 1 0 125000000000 4 ∷ draw 0 ∷ []

run_busy : periods small_bounds busy small_pool ≡ some (moved_small 125000000000 4)
unfolding periods step change_load period visit_hosts visit_host select compare_vms compare_targets
    compare_costs usage_of sum_usage inhabitancy_cost migration_cost place_vm list_target unlist
    move_vm move_bytes_at index_of move_bytes host_vm_info
run_busy = refl

periods-After_example : After (1 * 3) small_pool (moved_small 125000000000 4)
periods-After_example =
    periods-After small_bounds busy small_pool (moved_small 125000000000 4)
      small_pool-IsStarted.tidy.counted run_busy

-- One VM, and three hosts.
abbrev lone_pool : ℕ → Option HostVmInfo → Option HostVmInfo → ℕ → ℕ → Pool Milli
lone_pool pm second third max_pm_vm migration_count = record {
  infos = info_of 0 (0 ∷ 0 ∷ 0 ∷ 0 ∷ 0 ∷ []) ∷ second ∷ third ∷ [];
  vms = one_vm pm 0 0 ∷ [];
  max_pm_vm = max_pm_vm;
  migration_count = migration_count;
  migration_decision_count = 0;
}

abbrev lone_before : Pool Milli
lone_before =
    lone_pool 1 (info_of 1 (0 ∷ 0 ∷ 0 ∷ 0 ∷ 0 ∷ [])) (info_of 0 (0 ∷ 0 ∷ 0 ∷ 0 ∷ 0 ∷ [])) 1 0

abbrev lone_after : Pool Milli
lone_after =
    lone_pool 2 (info_of 0 (0 ∷ 0 ∷ 0 ∷ 0 ∷ 0 ∷ [])) (info_of 1 (2 ∷ 0 ∷ 0 ∷ 0 ∷ 0 ∷ [])) 2 1

abbrev lone_placement : VmPlacement
lone_placement = record { vm = 0; target_pm = 2 }

place_lone : place_vm lone_placement lone_before ≡ some lone_after
unfolding place_vm list_target unlist move_vm move_bytes_at index_of move_bytes
place_lone = refl

launch_lone :
    launch_master {D = Milli} 1 3 1000 3 10 1 2 0
    ≡ some (launched 1000 0 2 0 0 (lone_before.infos, lone_before.vms))
unfolding launch_master launch_hosts start_vms
launch_lone = refl

lone-IsCounted : IsCounted lone_before.infos lone_before.vms
lone-IsCounted =
    let (l, done, started, number, limit, migrations) =
      launch_master-IsStarted {D = Milli} 1 3 1000 3 10 1 2 0 (omega arith) (omega arith)
        (omega arith) in
    let same : l ≡ launched 1000 0 2 0 0 (lone_before.infos, lone_before.vms) = cc launch_lone in
    subst (λ (k : Launched Milli). IsCounted k.pool.infos k.pool.vms) same started.tidy.counted

period_lost_example : period small_bounds 7 lone_after ≡ none
period_lost_example =
    period_lost small_bounds lone_placement lone_before lone_after lone_after (one_vm 1 0 0) 7
      lone-IsCounted place_lone (omega arith) refl (omega arith) (omega arith) (omega arith)
      (omega arith) refl refl

abbrev two_slow_downs : List (SlowDown Milli)
two_slow_downs =
    record { expected_time = 2000; actual_time = 3000 }
    ∷ record { expected_time = 4000; actual_time = 5000 }
    ∷ []

destroy_master-IsLatest_example :
    (s : Statistics Milli) × (destroy_master 2 0 two_slow_downs
        (9000 ∷ 7000 ∷ [])
        (8000 ∷ 9000 ∷ [])
      ≡ some s)
    × IsLatest 2 0 (9000 ∷ 7000 ∷ []) 0 s.max_finish_time
destroy_master-IsLatest_example =
    destroy_master-IsLatest Milli-IsOrdered 2 two_slow_downs (9000 ∷ 7000 ∷ []) (8000 ∷ 9000 ∷ [])
      (omega arith) (omega arith) (omega arith) (omega arith)

-- ===== src/Project/Policy.antt =====
-- `policy_func_inhab_mig` of simgrid-project/hpvc.c: which VM of a host is moved, and where to.
pub mod Lists
pub mod Light
pub mod Offers
use hpv_c.Base.{
  ltb, ◌>>◌, require, ℕ, zero, suc, ◌+◌, ◌-◌, ◌*◌, Bool, Option, none, some, List, [], ◌∷◌, ◌==◌,
  get_elem?, if◌then◌else◌, ◌>>=◌,
}
use hpv_c.Double.{Double}
use hpv_c.Utility.{int_bound}
use hpv_c.Project.Pool.{HostVmInfo, GuestVm, VmPlacement, Pool, host_vm_info}

-- The sums over the VMs that a host lists.
pub record Usage (D : Type 0) : Type 0 where
  pub memory : D
  pub net : D
  pub load : ℕ

-- What is fixed: the first host of the cluster and their number, the cores of each host, and DBL_MAX.
pub record Bounds (D : Type 0) : Type 0 where
  pub host : ℕ
  pub involved : ℕ
  pub cores : ℕ → ℕ
  pub dbl_max : D

-- The cheapest placement up to now, `none` while both its fields are -1.
pub record Selection (D : Type 0) : Type 0 where
  pub min_cost : D
  pub placement : Option VmPlacement
  pub decisions : ℕ

module _ {D : Type 0} ⦃d : Double D⦄ where
  abbrev pub vm_load : GuestVm D → ℕ
  vm_load vm = vm.jobs * vm.cores

  -- The loop over the `n` VMs that are left of the list.
  unfoldable pub sum_usage : List (GuestVm D) → ℕ → List ℕ → Usage D → Option (Usage D)
  sum_usage vms zero listed u = some u
  sum_usage vms (suc n) [] u = none
  sum_usage vms (suc n) (v ∷ listed) u = do
    vm ← get_elem? vms v
    sum_usage vms n listed (record {
      memory = d.add u.memory vm.mem;
      net = d.add u.net vm.net;
      load = u.load + vm_load vm;
    })

  abbrev pub no_usage : Usage D
  no_usage = record { memory = d.lit 0 0; net = d.lit 0 0; load = 0 }

  -- The load is an int, and it only grows.
  unfoldable pub usage_of : Pool D → HostVmInfo → Option (Usage D)
  unfolding sum_usage
  usage_of p info = do
    u ← sum_usage p.vms info.number_of_vms info.vms_index no_usage
    require (ltb u.load int_bound)
    some u

  -- The two comparisons.
  unfoldable pub compare_costs : ℕ → D → ℕ → D → Selection D → Selection D
  compare_costs v inhabitancy k migration s =
      let better : Selection D = record {
        min_cost = migration;
        placement = some (record { vm = v; target_pm = k });
        decisions = s.decisions + 1;
      } in
      if d.lt migration (d.div inhabitancy (d.of_int 2))
      then (if d.le migration s.min_cost then better else s)
      else s

  module _ (b : Bounds D) (p : Pool D) where
    -- A power of the number of hosts, by the share of the load that the host's cores allow, or of
    -- the net (MAX_PM_NET is 1.25e8). The product and the sums that it is given are ints, which
    -- `compare_vms`, `usage_of` and `cost_to` require.
    abbrev pub load_power : ℕ → ℕ → D
    load_power cores load =
        d.pow (d.of_int b.involved) (d.div (d.of_int load) (d.of_int (p.max_pm_vm * cores)))

    abbrev pub net_power : D → D
    net_power net = d.pow (d.of_int b.involved) (d.div net (d.lit 125000000 0))

    -- The load of the host includes that of the VM.
    unfoldable pub inhabitancy_cost : ℕ → Usage D → GuestVm D → D
    inhabitancy_cost m u vm =
        let with_vm = d.add (load_power (b.cores m) u.load) (net_power u.net) in
        let less_load = d.sub with_vm (load_power (b.cores m) (u.load - vm_load vm)) in
        d.sub less_load (net_power (d.sub u.net vm.net))

    unfoldable pub migration_cost : ℕ → Usage D → GuestVm D → D
    migration_cost k u vm =
        let with_vm =
          d.add (load_power (b.cores k) (u.load + vm_load vm)) (net_power (d.add u.net vm.net)) in
        let less_load = d.sub with_vm (load_power (b.cores k) u.load) in
        d.sub less_load (net_power u.net)

    -- The target's usage and cost.
    abbrev pub cost_to : GuestVm D → ℕ → Option D
    cost_to vm k = do
      info ← host_vm_info p.infos k
      u ← usage_of p info
      require (ltb (p.max_pm_vm * b.cores k) int_bound)
      require (ltb (u.load + vm_load vm) int_bound)
      some (migration_cost k u vm)

    -- The loop over the targets with `left` hosts left, for the VM `v` of host `m`.
    unfoldable pub compare_targets :
        ℕ → ℕ → GuestVm D → D → ℕ → ℕ → Selection D → Option (Selection D)
    compare_targets m v vm inhabitancy zero k s = some s
    compare_targets m v vm inhabitancy (suc left) k s =
        let skip = compare_targets m v vm inhabitancy left (k + 1) s in
        let next = cost_to vm k >>= λ migration.
        compare_targets m v vm inhabitancy left (k + 1)
          (compare_costs v inhabitancy k migration s) in
        if k == m then skip else next

    -- The loop over the `n` VMs that are left of host `m`, whose usage is `u`.
    unfoldable pub compare_vms : ℕ → Usage D → ℕ → List ℕ → Selection D → Option (Selection D)
    unfolding compare_targets
    compare_vms m u zero listed s = some s
    compare_vms m u (suc n) [] s = none
    compare_vms m u (suc n) (v ∷ listed) s = do
      vm ← get_elem? p.vms v
      require (ltb (p.max_pm_vm * b.cores m) int_bound)
      s' ← compare_targets m v vm (inhabitancy_cost m u vm) b.involved b.host s
      compare_vms m u n listed s'

    -- The selection for host `m`. The count of the decisions is an int, and it only grows.
    unfoldable pub select : ℕ → Option (Selection D)
    unfolding compare_vms
    select m = do
      info ← host_vm_info p.infos m
      u ← usage_of p info
      s ← compare_vms m u info.number_of_vms info.vms_index (record {
        min_cost = b.dbl_max;
        placement = none;
        decisions = p.migration_decision_count;
      })
      require (ltb s.decisions int_bound)
      some s

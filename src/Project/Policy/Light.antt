-- ===== src/Project/Policy/Light.antt =====
-- The sums and costs of the policy of simgrid-project/hpvc.c are ints where the VMs are light enough.
use hpv_c.Base.{ℕ, ◌+◌, ◌*◌, ◌≤◌, ◌<◌, ◌≡◌, refl, some, arith, lt→ltb, length, get_elem?}
use hpv_c.Double.{Double}
use hpv_c.Utility.{int_bound}
use hpv_c.Project.Pool.{HostVmInfo, GuestVm, Pool, host_vm_info}
use hpv_c.Project.Policy.{Usage, Bounds, no_usage, vm_load, usage_of, migration_cost, cost_to}
use hpv_c.Project.Policy.Lists.{FirstBelow, ListsVms, sum_usage_total}

-- The ints of the policy for host `m` do not overflow: no VM has a higher load than `most`, and no host
-- lists so many that as many such loads and one more, or its power, are no int; each of the offers can
-- be counted as a decision.
pub record IsLight {D : Type 0} (b : Bounds D) (p : Pool D) (m : ℕ) : Type 0 where
  pub most : ℕ
  pub vms : (v : ℕ) (vm : GuestVm D) → get_elem? p.vms v ≡ some vm → vm.jobs * vm.cores ≤ most
  pub hosts :
      (k : ℕ) (info : HostVmInfo)
      → host_vm_info p.infos k ≡ some info
      → (info.number_of_vms + 1) * most < int_bound
  pub powers : (k : ℕ) → p.max_pm_vm * b.cores k < int_bound
  pub decisions :
      (info : HostVmInfo)
      → host_vm_info p.infos m ≡ some info
      → p.migration_decision_count + info.number_of_vms * b.involved < int_bound

module _ {D : Type 0} ⦃d : Double D⦄ (b : Bounds D) (p : Pool D) where
  pub usage_of_total :
      (h k : ℕ) (info : HostVmInfo) (light : IsLight b p h)
      → host_vm_info p.infos k ≡ some info
      → FirstBelow (length p.vms) info.number_of_vms info.vms_index
      → (u : Usage D) × (usage_of p info ≡ some u) × (u.load + light.most < int_bound)
  unfolding usage_of
  usage_of_total h k info light got f =
      let n = info.number_of_vms in
      let (u, e, le) = sum_usage_total p.vms light.most n info.vms_index no_usage light.vms f in
      let room = light.hosts k info got in
      let all : (n + 1) * light.most ≡ n * light.most + light.most = grind arith in
      let fits = lt→ltb u.load int_bound (omega (arith, le, room, all)) in
      (u, rw (e, fits) refl, omega (arith, le, room, all))

  pub cost_to_total :
      (h v : ℕ) (vm : GuestVm D) (k : ℕ)
      → IsLight b p h
      → get_elem? p.vms v ≡ some vm
      → ListsVms p k
      → (c : D) × (cost_to b p vm k ≡ some c)
  cost_to_total h v vm k light at (info, got, f) =
      let (u, e, room) = usage_of_total h k info light got f in
      let power = lt→ltb (p.max_pm_vm * b.cores k) int_bound (light.powers k) in
      let fits = lt→ltb (u.load + vm_load vm) int_bound (omega (arith, room, light.vms v vm at)) in
      (migration_cost b p k u vm, rw (got, e, power, fits) refl)

-- ===== src/Project/Run/Steps.antt =====
-- Each step of the run of the two clusters keeps the invariant, and the steps of a process do not
-- fault.
use hpv_c.Base.{
  ℕ, ◌+◌, ◌*◌, ◌%◌, ◌≤◌, ◌<◌, ◌≡◌, refl, false, true, inl, inr, none, some, List, ◌∷◌, arith, ◌==◌,
  length, set, get_elem?, get_elem?-in, All-get,
}
use native.Mathlib.Nat.{mod-lt}
use hpv_c.Double.{Double, IsOrdered}
use hpv_c.Utility.{int_bound}
use hpv_c.Process.Need.{ResourceNeed}
use hpv_c.Guest.Balance.{Balancer}
use hpv_c.Guest.Balance.Least.{AssignedBy}
use hpv_c.Project.Pool.{GuestVm}
use hpv_c.Project.Balance.{marginal_cost, serve_request-AssignedBy}
use hpv_c.Project.Need.{request_of}
use hpv_c.Project.Results.{home_vm}
use hpv_c.Project.Tasks.{
  Draw, ProcessArgv, Clusters, Setup, need_of, target_of, argv_of, add_process, create_first,
  create_second,
}
use hpv_c.Project.Run.{Simulation}
use hpv_c.Project.Launch.Idle.{All-set}
use hpv_c.Project.Run.Live.{
  HasCores, HasCores-cores_fit, running_on-length, load, IsCluster-jobs, IsCluster-set, half,
  IsLive,
}

module _ {D : Type 0} ⦃d : Double D⦄ (s : Setup D) where
  -- The limit that an answer leaves, where a VM has `most` processes at most.
  answered_limit :
      (vms : List (GuestVm D)) (cost : ℕ → GuestVm D → D) (most : ℕ) (b b' : Balancer)
      → AssignedBy s.dbl_max cost (λ vm. vm.jobs) vms b b'
      → ((v : ℕ) (vm : GuestVm D) → get_elem? vms v ≡ some vm → vm.jobs ≤ most)
      → 0 < b.max_guest_job
      → b.max_guest_job ≤ 2 * most + 4
      → (0 < b'.max_guest_job) × (b'.max_guest_job ≤ 2 * most + 4)
  answered_limit vms cost most b b' a few pos doubled = elim a.choice [
    | inl (same, dear) ↦ rw same (pos, omega arith)
    | inr (vm, got, least, max) ↦ ground (arith, few b'.selected_vm_number vm got, max)
  ]

  pub create_first-IsLive :
      (m : Simulation D) (x : Draw D)
      → IsOrdered D
      → 8 * s.number_of_processes + 4 < int_bound
      → m.created < s.number_of_processes
      → m.pending ≡ none
      → target_of s x < s.number_of_vms
      → IsLive s m
      → (w : Clusters D) × (create_first s m.created x m.clusters ≡ some w)
        × IsLive s (record m { clusters = w; pending = some x })
  unfolding create_first
  create_first-IsLive m x laws room left idle aimed l =
      let b = m.clusters.balancer in
      let vms = m.clusters.first.vms in
      let running = m.clusters.running in
      let none_half : half m.pending ≡ 0 = rw idle refl in
      let need : ResourceNeed D = need_of s x.rand_task x.r x.m x.c in
      let few : length running ≤ 2 * m.created = omega (arith, l.balance, none_half) in
      let (b', answered, a) =
        serve_request-AssignedBy s.dbl_max vms (request_of need) b laws
          (omega (arith, l.first.size, l.selected))
          (HasCores-cores_fit s b.max_guest_job vms (omega (arith, l.doubled, none_half, left))
            l.cores)
          l.limit (omega (arith, l.doubled, none_half)) in
      let (limit, doubled) =
        answered_limit vms (λ max. marginal_cost vms (request_of need) max) (2 * m.created + 1) b b'
          a (λ v vm at. ground (arith, l.first.are v vm at, running_on-length true v running))
          l.limit (omega (arith, l.doubled, none_half)) in
      let h = b'.selected_vm_number in
      let (host, got) = get_elem?-in vms h a.in_vms in
      let in_range : h < s.number_of_vms = omega (arith, a.in_vms, l.first.size) in
      let argv : ProcessArgv D = argv_of s 0 m.created x h in
      (
        record m.clusters {
          first = record m.clusters.first { vms = set vms h (add_process s true need host) };
          balancer = b';
          running = argv ∷ running;
        },
        rw (answered, got) refl,
        record {
          first =
              IsCluster-set (load true (argv ∷ running) m.closed_first) m.clusters.first h
                (add_process s true need host) in_range l.first
                (ground (arith, l.first.are h host got)) (λ v ne. ground arith);
          second = IsCluster-jobs (λ v. ground arith) l.second;
          cores =
              All-set (HasCores s) vms h (add_process s true need host)
                (All-get (HasCores s) vms h l.cores got) l.cores;
          well = ((in_range, aimed, left), l.well);
          drawn = λ y e. let same : x ≡ y = cc in rw (← same) (aimed, left);
          balance = omega (arith, l.balance, none_half);
          all = l.all;
          selected = in_range;
          limit = limit;
          doubled = omega (arith, doubled);
          closing = l.closing;
          over = l.over;
          told = l.told;
        },
      )

  pub create_second-IsLive :
      (m : Simulation D) (x : Draw D)
      → m.pending ≡ some x
      → IsLive s m
      → (w : Clusters D) × (create_second s m.created x m.clusters ≡ some w)
        × IsLive s (record m { clusters = w; pending = none; created = m.created + 1 })
  unfolding create_second home_vm
  create_second-IsLive m x known l =
      let vms = m.clusters.second.vms in
      let running = m.clusters.running in
      let one_half : half m.pending ≡ 1 = rw known refl in
      let (aimed, left) = l.drawn x known in
      let need : ResourceNeed D = need_of s x.rand_task x.r x.m x.c in
      let some_vm : 0 < s.number_of_vms = omega arith in
      let some_vms : (s.number_of_vms == 0) ≡ false = ground arith in
      let h = m.created % s.number_of_vms in
      let in_range : h < s.number_of_vms = mod-lt m.created some_vm in
      let (host, got) = get_elem?-in vms h (omega (arith, in_range, l.second.size)) in
      let argv : ProcessArgv D = argv_of s 1 m.created x h in
      (
        record m.clusters {
          second = record m.clusters.second { vms = set vms h (add_process s false need host) };
          running = argv ∷ running;
        },
        rw (some_vms, got) refl,
        record {
          first = IsCluster-jobs (λ v. ground arith) l.first;
          second =
              IsCluster-set (load false (argv ∷ running) m.closed_second) m.clusters.second h
                (add_process s false need host) in_range l.second
                (ground (arith, l.second.are h host got)) (λ v ne. ground arith);
          cores = l.cores;
          well = ((in_range, aimed, left), l.well);
          drawn = λ y e. cc;
          balance = omega (arith, l.balance, one_half);
          all = omega (arith, left);
          selected = l.selected;
          limit = l.limit;
          doubled = omega (arith, l.doubled, one_half);
          closing = l.closing;
          over = l.over;
          told = l.told;
        },
      )

-- ===== src/Project/Run/Laws.antt =====
-- The run of the two clusters after launches that start every VM.
use hpv_c.Base.{
  Bool, ℕ, zero, suc, ◌+◌, ◌*◌, ◌/◌, ◌%◌, ◌≤◌, ◌<◌, ◌≡◌, refl, sym, ◌∙◌, ap, subst, true, false,
  none, some, List, [], ◌∷◌, arith, length, get_elem?, get_elem?-in, ◌==◌, All,
}
use hpv_c.Double.{Double, IsOrdered}
use hpv_c.Utility.{int_bound}
use hpv_c.Project.Pool.{GuestVm, max_vm_to_pm}
use hpv_c.Project.Launch.{Launched, launch_master}
use hpv_c.Project.Launch.Idle.{launch_master-IsIdle}
use hpv_c.Project.Launch.Laws.{launch_master-IsStarted}
use hpv_c.Project.Tasks.{
  Draw, Clusters, Setup, target_of, create_mailbox_processes, create_first, create_second,
  finish_task,
}
use hpv_c.Project.Run.{Simulation, cluster_from, ready, Reached, starts, steps}
use hpv_c.Project.Run.Live.{IsCluster, load, IsLive}
use hpv_c.Project.Run.Steps.{create_first-IsLive, create_second-IsLive}
use hpv_c.Project.Run.Ends.{finish_task-IsLive}
use hpv_c.Project.Run.Closing.{Step-IsLive}

module _ {D : Type 0} where
  pub length-create_mailbox_processes :
      (vms : List (GuestVm D)) → length (create_mailbox_processes vms) ≡ length vms
  unfolding create_mailbox_processes
  length-create_mailbox_processes [] = refl
  length-create_mailbox_processes (vm ∷ vms) = ap suc (length-create_mailbox_processes vms)

  mailbox_cores :
      (vm_cores p : ℕ) (vms : List (GuestVm D))
      → vm_cores * p < int_bound
      → All (λ x. (x.jobs ≡ 0) × (x.cores ≡ vm_cores)) vms
      → All (λ x. x.cores * p < int_bound) (create_mailbox_processes vms)
  unfolding create_mailbox_processes
  mailbox_cores vm_cores p [] room idle = tt
  mailbox_cores vm_cores p (x ∷ vms) room idle =
      (rw idle.0.1 room, mailbox_cores vm_cores p vms room idle.1)

  mailbox_jobs :
      (vm_cores : ℕ) (vms : List (GuestVm D)) (v : ℕ) (vm : GuestVm D)
      → All (λ x. (x.jobs ≡ 0) × (x.cores ≡ vm_cores)) vms
      → get_elem? (create_mailbox_processes vms) v ≡ some vm
      → vm.jobs ≡ 1
  unfolding create_mailbox_processes
  mailbox_jobs vm_cores [] v vm idle at = cc
  mailbox_jobs vm_cores (x ∷ vms) zero vm idle at =
      let same : record x { jobs = x.jobs + 1 } ≡ vm = cc in rw (← same) (omega (arith, idle.0.0))
  mailbox_jobs vm_cores (x ∷ vms) (suc v) vm idle at = mailbox_jobs vm_cores vms v vm idle.1 at

module _ {D : Type 0} ⦃d : Double D⦄ (s : Setup D) (vm_cores hosts : ℕ) (host_speed : D)
    (involved total_cluster_host : ℕ) {l0 l1 : Launched D} (some_hosts : 0 < involved)
    (platform : total_cluster_host + involved ≤ hosts) (even : s.number_of_vms % involved ≡ 0)
    (share : s.number_of_vms / involved ≤ max_vm_to_pm)
    (fits : vm_cores * (4 * s.number_of_processes) < int_bound)
    (launch0 : launch_master vm_cores hosts host_speed involved total_cluster_host s.number_of_vms
        s.number_of_processes 0
      ≡ some l0)
    (launch1 : launch_master vm_cores hosts host_speed involved total_cluster_host s.number_of_vms
        s.number_of_processes 1
      ≡ some l1) where
  all_started :
      (cluster_id : ℕ) {l : Launched D}
      → cluster_id * total_cluster_host + involved ≤ hosts
      → launch_master vm_cores hosts host_speed involved total_cluster_host s.number_of_vms
          s.number_of_processes cluster_id
        ≡ some l
      → length l.pool.vms ≡ s.number_of_vms
  all_started cluster_id {l} inside made =
      let is_even : (s.number_of_vms % involved == 0) ≡ true = ground arith in
      let (l', made', started, count, _, _) =
        launch_master-IsStarted vm_cores hosts host_speed involved total_cluster_host
          s.number_of_vms s.number_of_processes cluster_id some_hosts inside
          (rw is_even (omega (arith, share))) in
      let same : l' ≡ l = cc in
      subst (λ x. length x.pool.vms ≡ s.number_of_vms) same (rw is_even at count)

  cluster_from-IsCluster :
      (is_first : Bool) (cluster_id : ℕ) {l : Launched D}
      → cluster_id * total_cluster_host + involved ≤ hosts
      → launch_master vm_cores hosts host_speed involved total_cluster_host s.number_of_vms
          s.number_of_processes cluster_id
        ≡ some l
      → IsCluster s.number_of_vms s.number_of_processes
          (load {D = D} is_first [] 0)
          (cluster_from l)
  cluster_from-IsCluster is_first cluster_id {l} inside made =
      let (idle, slots, times) =
        launch_master-IsIdle vm_cores hosts host_speed involved total_cluster_host s.number_of_vms
          s.number_of_processes cluster_id made in
      record {
        size = length-create_mailbox_processes l.pool.vms ∙ all_started cluster_id inside made;
        slots = slots;
        times = times;
        are = λ v vm at. ground (arith, mailbox_jobs vm_cores l.pool.vms v vm idle at);
      }

  ready-IsLive : 0 < s.number_of_vms → IsLive s (ready l0 l1)
  ready-IsLive some_vm = record {
    first = cluster_from-IsCluster true 0 (omega (arith, platform)) launch0;
    second = cluster_from-IsCluster false 1 (omega (arith, platform)) launch1;
    cores =
        mailbox_cores vm_cores (4 * s.number_of_processes) l0.pool.vms fits
          (launch_master-IsIdle vm_cores hosts host_speed involved total_cluster_host
            s.number_of_vms s.number_of_processes 0 launch0).0;
    well = tt;
    drawn = λ x e. cc;
    balance = refl;
    all = omega arith;
    selected = some_vm;
    limit = omega arith;
    doubled = omega arith;
    closing = λ h. absurd (omega arith);
    over = λ e. cc;
    told = λ e. cc;
  }

  run-IsLive :
      {m : Simulation D}
      → IsOrdered D
      → s.final_vms ≡ s.number_of_vms
      → s.final_processes ≡ s.number_of_processes
      → 8 * s.number_of_processes + 4 < int_bound
      → 0 < s.number_of_vms
      → Reached s l0 l1 m
      → IsLive s m
  run-IsLive laws vms processes room some_vm starts = ready-IsLive some_vm
  run-IsLive laws vms processes room some_vm (steps r st) =
      Step-IsLive s laws vms processes room st (run-IsLive laws vms processes room some_vm r)

-- The deployment gives `create_tasks` and `get_finalize` the numbers of VMs and processes of `main`.
pub record IsDeployed {D : Type 0} (s : Setup D) (no_vm no_process : ℕ) : Type 0 where
  pub vms : s.number_of_vms ≡ no_vm
  pub processes : s.number_of_processes ≡ no_process
  pub same_vms : s.final_vms ≡ no_vm
  pub same_processes : s.final_processes ≡ no_process

module _ {D : Type 0} ⦃d : Double D⦄ (s : Setup D) (vm_cores hosts : ℕ) (host_speed : D)
    (involved total_cluster_host no_vm no_process : ℕ) {l0 l1 : Launched D}
    (some_hosts : 0 < involved) (platform : total_cluster_host + involved ≤ hosts)
    (even : no_vm % involved ≡ 0) (share : no_vm / involved ≤ max_vm_to_pm)
    (launch0 : launch_master vm_cores hosts host_speed involved total_cluster_host no_vm no_process
        0
      ≡ some l0)
    (launch1 : launch_master vm_cores hosts host_speed involved total_cluster_host no_vm no_process
        1
      ≡ some l1)
    (deployed : IsDeployed s no_vm no_process) (laws : IsOrdered D)
    (room : 8 * no_process + 4 < int_bound) (fits : vm_cores * (4 * no_process) < int_bound)
    (some_vm : 0 < no_vm) {m : Simulation D} where
  -- Wherever a run comes to after launches of both clusters on their hosts, with an even share of
  -- 5 VMs per host at most, the books of both clusters agree: on each VM run its mailbox process,
  -- until it is told to finish, and the processes that have it as their home, and no others; each
  -- process has an existing home and target and a place for its times; the processes that were
  -- created have sent "fin" or run; the limit is between 1 and four times the processes created,
  -- and 6 more; mailboxes are closed only after all have sent "fin"; "finish" is set only after
  -- the mailboxes of both clusters are closed. (`main`, `create_tasks` and `get_finalize` are given
  -- the same numbers of VMs and processes, there are VMs, `<` is the order of numbers, and eight
  -- times the number of processes, and 4 more, is an int, as is four times the number for each core
  -- of a VM.)
  pub clusters-IsLive : Reached s l0 l1 m → IsLive s m
  clusters-IsLive r =
      let vms : no_vm ≡ s.number_of_vms = sym deployed.vms in
      let processes : no_process ≡ s.number_of_processes = sym deployed.processes in
      run-IsLive s vm_cores hosts host_speed involved total_cluster_host some_hosts platform
        (rw vms at even) (rw vms at share) (rw processes at fits) (rw (vms, processes) at launch0)
        (rw (vms, processes) at launch1) laws (deployed.same_vms ∙ vms)
        (deployed.same_processes ∙ processes) (rw processes at room) (rw vms at some_vm) r

  -- In such a run nothing faults or hangs: the next process is created in the first cluster,
  -- whatever is drawn, and then in the second; whichever running process can end; once all have
  -- sent "fin" the mailbox of each VM is there to be closed.
  pub clusters_total :
      Reached s l0 l1 m
      → ((x : Draw D)
          → m.created < s.number_of_processes
          → m.pending ≡ none
          → target_of s x < s.number_of_vms
          → (w : Clusters D) × (create_first s m.created x m.clusters ≡ some w))
        × ((x : Draw D)
            → m.pending ≡ some x
            → (w : Clusters D) × (create_second s m.created x m.clusters ≡ some w))
        × ((q : ℕ) (actual finish_time : D)
            → q < length m.clusters.running
            → (w : Clusters D) × (finish_task s q actual finish_time m.clusters ≡ some w))
        × ((v : ℕ)
            → v < s.number_of_vms
            → ((vm : GuestVm D) × (get_elem? m.clusters.first.vms v ≡ some vm))
              × ((vm : GuestVm D) × (get_elem? m.clusters.second.vms v ≡ some vm)))
  clusters_total r =
      let l = clusters-IsLive r in
      (
        λ x left idle aimed.
            let (w, made, _) =
              create_first-IsLive s m x laws (rw (sym deployed.processes) at room) left idle aimed
                l in
            (w, made),
        λ x known. let (w, made, _) = create_second-IsLive s m x known l in (w, made),
        λ q actual finish_time lt.
            let (w, made, _) = finish_task-IsLive s m q actual finish_time lt l in (w, made),
        λ v lt. (
          get_elem?-in m.clusters.first.vms v (omega (arith, lt, l.first.size)),
          get_elem?-in m.clusters.second.vms v (omega (arith, lt, l.second.size)),
        ),
      )

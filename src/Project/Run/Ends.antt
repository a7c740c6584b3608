-- ===== src/Project/Run/Ends.antt =====
-- The end of a process, and of the mailboxes, keeps the invariant of the run, as each step does.
use hpv_c.Base.{
  Option, ℕ, ◌+◌, ◌-◌, ◌*◌, ◌≤◌, ◌<◌, ◌≡◌, refl, false, true, Bool, not, ◌∙◌, inl, inr, none, some,
  List, arith, lt→ltb, ◌==◌, Bool-cases, length, set, length-set, get_elem?, get_elem?-in, without,
  length-without, All-get, All-without, All, subst, sym,
}
use hpv_c.Double.{Double}
use hpv_c.Placement.Launch.{SlowDown}
use hpv_c.Process.Need.{ResourceNeed}
use hpv_c.Project.Pool.{GuestVm}
use hpv_c.Project.Tasks.{
  Draw, ProcessArgv, Cluster, Clusters, Setup, need_of, drop_process, with_cluster, finish_in,
  finish_task,
}
use hpv_c.Utility.{int_bound}
use hpv_c.Project.Launch.Idle.{All-set}
use hpv_c.Project.Run.{Simulation}
use hpv_c.Project.Run.Live.{
  on, running_on-without, load, IsCluster, IsCluster-jobs, IsCluster-set, half, HasCores, IsWell,
  IsLive,
}

module _ {D : Type 0} ⦃d : Double D⦄ (s : Setup D) where
  dropped_jobs :
      (b : Bool) (need : ResourceNeed D) (vm : GuestVm D)
      → (drop_process s b need vm).jobs ≡ vm.jobs - 1
  dropped_jobs true need vm = refl
  dropped_jobs false need vm = refl

  dropped_cores :
      (b : Bool) (need : ResourceNeed D) (vm : GuestVm D)
      → (drop_process s b need vm).cores ≡ vm.cores
  dropped_cores true need vm = refl
  dropped_cores false need vm = refl

  on_home : (b : Bool) (a : ProcessArgv D) → (a.cluster_id == 0) ≡ b → on b a.home_vm a ≡ 1
  on_home true a e = ground arith
  on_home false a e = ground arith

  on_elsewhere : (b : Bool) (v : ℕ) (a : ProcessArgv D) → (a.home_vm == v) ≡ false → on b v a ≡ 0
  on_elsewhere true v a ne = ground arith
  on_elsewhere false v a ne = ground arith

  on_other : (b : Bool) (v : ℕ) (a : ProcessArgv D) → (a.cluster_id == 0) ≡ b → on (not b) v a ≡ 0
  on_other true v a e = ground arith
  on_other false v a e = ground arith

  finish_in-IsCluster :
      (b : Bool) (c : Cluster D) (running : List (ProcessArgv D)) (q closed : ℕ) (a : ProcessArgv D)
      (actual finish_time : D)
      → (a.cluster_id == 0) ≡ b
      → get_elem? running q ≡ some a
      → IsWell s a
      → IsCluster s.number_of_vms s.number_of_processes (load b running closed) c
      → (c' : Cluster D) × (finish_in s a actual finish_time c ≡ some c')
        × IsCluster s.number_of_vms s.number_of_processes (load b (without q running) closed) c'
        × (All (HasCores s) c.vms → All (HasCores s) c'.vms)
  unfolding finish_in
  finish_in-IsCluster b c running q closed a actual finish_time kind at (home, aimed, slot) l =
      let need : ResourceNeed D = need_of s a.rand_task a.r a.m a.c in
      let (target, there) = get_elem?-in c.vms a.target_mailbox (omega (arith, aimed, l.size)) in
      let (host, got) = get_elem?-in c.vms a.home_vm (omega (arith, home, l.size)) in
      let host' : GuestVm D = drop_process s (a.cluster_id == 0) need host in
      let entry : SlowDown D = record {
        actual_time = actual;
        expected_time = need.expected_time;
      } in
      let jobs = l.are a.home_vm host got in
      let changed =
        IsCluster-set (load b (without q running) closed) c a.home_vm host' home l
          (omega (
            arith,
            dropped_jobs (a.cluster_id == 0) need host,
            jobs,
            running_on-without b a.home_vm q running at,
            on_home b a kind,
          ))
          (λ v ne. omega (arith, running_on-without b v q running at, on_elsewhere b v a ne)) in
      (
        record {
          vms = set c.vms a.home_vm host';
          slow_down = set c.slow_down a.process_sequence entry;
          finish_times = set c.finish_times a.process_sequence finish_time;
        },
        rw
            (
              there,
              got,
              lt→ltb a.process_sequence (length c.finish_times) (omega (arith, slot, l.times)),
              lt→ltb a.process_sequence (length c.slow_down) (omega (arith, slot, l.slots)),
            )
            refl,
        record {
          size = changed.size;
          slots = length-set c.slow_down a.process_sequence entry ∙ l.slots;
          times = length-set c.finish_times a.process_sequence finish_time ∙ l.times;
          are = changed.are;
        },
        λ cores.
            All-set (HasCores s) c.vms a.home_vm host'
              (subst (λ n. n * (4 * s.number_of_processes) < int_bound)
                (sym (dropped_cores (a.cluster_id == 0) need host))
                (All-get (HasCores s) c.vms a.home_vm cores got))
              cores,
      )

  -- A process of the other cluster ends.
  without-IsCluster :
      (b : Bool) (c : Cluster D) (running : List (ProcessArgv D)) (q closed : ℕ) (a : ProcessArgv D)
      → (a.cluster_id == 0) ≡ b
      → get_elem? running q ≡ some a
      → IsCluster s.number_of_vms s.number_of_processes (load (not b) running closed) c
      → IsCluster s.number_of_vms s.number_of_processes (load (not b) (without q running) closed) c
  without-IsCluster b c running q closed a kind at l =
      IsCluster-jobs
        (λ v. omega (arith, running_on-without (not b) v q running at, on_other b v a kind)) l

  half_le :
      (m : Simulation D) (pending : Option (Draw D))
      → m.pending ≡ pending
      → IsLive s m
      → 2 * m.created + half pending ≤ 2 * s.number_of_processes
  half_le m none e l = omega (arith, l.all)
  half_le m (some x) e l = omega (arith, l.drawn x e)

  pub created_le :
      (m : Simulation D) → IsLive s m → 2 * m.created + half m.pending ≤ 2 * s.number_of_processes
  created_le m l = half_le m m.pending refl l

  pub finish_task-IsLive :
      (m : Simulation D) (q : ℕ) (actual finish_time : D)
      → q < length m.clusters.running
      → IsLive s m
      → (w : Clusters D) × (finish_task s q actual finish_time m.clusters ≡ some w)
        × IsLive s (record m { clusters = w; received = m.received + 1 })
  unfolding finish_task
  finish_task-IsLive m q actual finish_time in_running l =
      let running = m.clusters.running in
      let (a, at) = get_elem?-in running q in_running in
      let is_well = All-get (IsWell s) running q l.well at in
      let fewer = length-without q running at in
      let bound = created_le m l in
      elim (Bool-cases (a.cluster_id == 0)) [
        | inl kind ↦
            let (c, made, live, cores) =
              finish_in-IsCluster true m.clusters.first running q m.closed_first a actual
                finish_time kind at is_well l.first in
            (
              with_cluster true c (without q running) m.clusters,
              rw (at, kind, made) refl,
              record {
                first = live;
                second =
                    without-IsCluster true m.clusters.second running q m.closed_second a kind at
                      l.second;
                cores = cores l.cores;
                well = All-without (IsWell s) q running l.well;
                drawn = l.drawn;
                balance = omega (arith, l.balance, fewer);
                all = l.all;
                selected = l.selected;
                limit = l.limit;
                doubled = l.doubled;
                closing = λ h. absurd (omega (arith, l.closing h, l.balance, bound));
                over = l.over;
                told = l.told;
              },
            )
        | inr kind ↦
            let (c, made, live, _) =
              finish_in-IsCluster false m.clusters.second running q m.closed_second a actual
                finish_time kind at is_well l.second in
            (
              with_cluster false c (without q running) m.clusters,
              rw (at, kind, made) refl,
              record {
                first =
                    without-IsCluster false m.clusters.first running q m.closed_first a kind at
                      l.first;
                second = live;
                cores = l.cores;
                well = All-without (IsWell s) q running l.well;
                drawn = l.drawn;
                balance = omega (arith, l.balance, fewer);
                all = l.all;
                selected = l.selected;
                limit = l.limit;
                doubled = l.doubled;
                closing = λ h. absurd (omega (arith, l.closing h, l.balance, bound));
                over = l.over;
                told = l.told;
              },
            )
      ]

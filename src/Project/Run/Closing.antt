-- ===== src/Project/Run/Closing.antt =====
-- The end of the mailboxes keeps the invariant of the run of the two clusters, and so does each step.
use hpv_c.Base.{
  ℕ, ◌+◌, ◌-◌, ◌*◌, ◌<◌, ◌≡◌, ◌∙◌, false, true, some, arith, length, get_elem?, get_elem?_bound,
  All-get, >>=-eq-some,
}
use hpv_c.Double.{Double, IsOrdered}
use hpv_c.Utility.{int_bound}
use hpv_c.Project.Pool.{GuestVm}
use hpv_c.Project.Tasks.{Clusters, Setup, finish_task}
use hpv_c.Project.Run.{
  Simulation, close_mailbox, Step, creates_first, creates_second, finishes, closes_first,
  ends_balancer, closes_second, sets_finish,
}
use hpv_c.Project.Launch.Idle.{All-set}
use hpv_c.Project.Run.Live.{load, IsCluster-set, HasCores, IsLive}
use hpv_c.Project.Run.Steps.{create_first-IsLive, create_second-IsLive}
use hpv_c.Project.Run.Ends.{finish_task-IsLive}

module _ {D : Type 0} ⦃d : Double D⦄ (s : Setup D) where
  close_first-IsLive :
      (m : Simulation D) (vm : GuestVm D)
      → m.received ≡ 2 * s.number_of_processes
      → m.closed_first < s.number_of_vms
      → get_elem? m.clusters.first.vms m.closed_first ≡ some vm
      → IsLive s m
      → IsLive s (record m {
        clusters = record m.clusters { first = close_mailbox m.closed_first vm m.clusters.first };
        closed_first = m.closed_first + 1;
      })
  close_first-IsLive m vm done left got l = record {
    first =
        IsCluster-set (load true m.clusters.running (m.closed_first + 1)) m.clusters.first
          m.closed_first (record vm { jobs = vm.jobs - 1 }) left l.first
          (ground (arith, l.first.are m.closed_first vm got)) (λ v ne. ground arith);
    second = l.second;
    cores =
        All-set (HasCores s) m.clusters.first.vms m.closed_first (record vm { jobs = vm.jobs - 1 })
          (All-get (HasCores s) m.clusters.first.vms m.closed_first l.cores got) l.cores;
    well = l.well;
    drawn = l.drawn;
    balance = l.balance;
    all = l.all;
    selected = l.selected;
    limit = l.limit;
    doubled = l.doubled;
    closing = λ h. done;
    over = λ e. absurd (omega (arith, (l.over e).0));
    told = λ e. absurd (omega (arith, l.told e));
  }

  close_second-IsLive :
      (m : Simulation D) (vm : GuestVm D)
      → m.received ≡ 2 * s.number_of_processes
      → m.closed_second < s.number_of_vms
      → get_elem? m.clusters.second.vms m.closed_second ≡ some vm
      → IsLive s m
      → IsLive s (record m {
        clusters = record m.clusters {
          second = close_mailbox m.closed_second vm m.clusters.second;
        };
        closed_second = m.closed_second + 1;
      })
  close_second-IsLive m vm done left got l = record {
    first = l.first;
    second =
        IsCluster-set (load false m.clusters.running (m.closed_second + 1)) m.clusters.second
          m.closed_second (record vm { jobs = vm.jobs - 1 }) left l.second
          (ground (arith, l.second.are m.closed_second vm got)) (λ v ne. ground arith);
    cores = l.cores;
    well = l.well;
    drawn = l.drawn;
    balance = l.balance;
    all = l.all;
    selected = l.selected;
    limit = l.limit;
    doubled = l.doubled;
    closing = λ h. done;
    over = λ e. absurd (omega (arith, (l.over e).1));
    told = l.told;
  }

  -- Only a process that runs can end.
  finish_task_place :
      (q : ℕ) (actual finish_time : D) (clusters : Clusters D) {w : Clusters D}
      → finish_task s q actual finish_time clusters ≡ some w
      → q < length clusters.running
  unfolding finish_task
  finish_task_place q actual finish_time clusters made =
      let (a, at, rest) = >>=-eq-some (get_elem? clusters.running q) _ made in
      get_elem?_bound clusters.running q at

  pub Step-IsLive :
      {m m' : Simulation D}
      → IsOrdered D
      → s.final_vms ≡ s.number_of_vms
      → s.final_processes ≡ s.number_of_processes
      → 8 * s.number_of_processes + 4 < int_bound
      → Step s m m'
      → IsLive s m
      → IsLive s m'
  Step-IsLive {m} laws vms processes room (creates_first {w = w} x left idle aimed made) l =
      let (w', made', l') = create_first-IsLive s m x laws room left idle aimed l in
      let same : w' ≡ w = cc in rw same at l'
  Step-IsLive {m} laws vms processes room (creates_second {w = w} x known made) l =
      let (w', made', l') = create_second-IsLive s m x known l in
      let same : w' ≡ w = cc in rw same at l'
  Step-IsLive {m} laws vms processes room (finishes {w = w} q actual finish_time made) l =
      let (w', made', l') =
        finish_task-IsLive s m q actual finish_time
          (finish_task_place q actual finish_time m.clusters made) l in
      let same : w' ≡ w = cc in rw same at l'
  Step-IsLive {m} laws vms processes room (closes_first {vm = vm} done left got) l =
      close_first-IsLive m vm (omega (arith, done, processes)) (omega (arith, left, vms)) got l
  Step-IsLive {m} laws vms processes room (closes_second {vm = vm} done over left got) l =
      close_second-IsLive m vm (omega (arith, done, processes)) (omega (arith, left, vms)) got l
  Step-IsLive {m} laws vms processes room (ends_balancer done closed serving) l = record {
    first = l.first;
    second = l.second;
    cores = l.cores;
    well = l.well;
    drawn = l.drawn;
    balance = l.balance;
    all = l.all;
    selected = l.selected;
    limit = l.limit;
    doubled = l.doubled;
    closing = l.closing;
    over = l.over;
    told = λ e. closed ∙ vms;
  }
  Step-IsLive {m} laws vms processes room (sets_finish done told closed) l = record {
    first = l.first;
    second = l.second;
    cores = l.cores;
    well = l.well;
    drawn = l.drawn;
    balance = l.balance;
    all = l.all;
    selected = l.selected;
    limit = l.limit;
    doubled = l.doubled;
    closing = l.closing;
    over = λ e. (l.told told, closed ∙ vms);
    told = l.told;
  }

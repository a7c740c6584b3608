-- ===== src/Project/Run.antt =====
-- The run of the processes of simgrid-project/hpvc.c, from `create_tasks` to `get_finalize`: each
-- process is created in both clusters, the processes end in any order, and the mailboxes follow.
pub mod Live
pub mod Steps
pub mod Ends
pub mod Closing
pub mod Laws
pub mod Short
mod Tests
use hpv_c.Base.{
  ℕ, ◌+◌, ◌-◌, ◌*◌, ◌<◌, ◌≡◌, Bool, true, false, Option, none, some, List, [], set, get_elem?,
}
use hpv_c.Double.{Double}
use hpv_c.Project.Pool.{GuestVm}
use hpv_c.Project.Launch.{Launched}
use hpv_c.Project.Balance.{serve_request}
use hpv_c.Project.Tasks.{
  Draw, Cluster, Clusters, Setup, target_of, create_mailbox_processes, create_first, create_second,
  finish_task,
}

-- `created` is `i` of `create_tasks`, and `pending` what was drawn for the process that is created in
-- the first cluster only. `received` counts the "fin" messages, `closed_first` and `closed_second` the
-- mailboxes that `get_finalize` has sent "finish", and `serving` tells whether the balancer runs.
pub record Simulation (D : Type 0) : Type 0 where
  pub clusters : Clusters D
  pub created : ℕ
  pub pending : Option (Draw D)
  pub received : ℕ
  pub closed_first : ℕ
  pub closed_second : ℕ
  pub serving : Bool
  pub finish : Bool

module _ {D : Type 0} where
  abbrev pub cluster_from : Launched D → Cluster D
  cluster_from l = record {
    vms = create_mailbox_processes l.pool.vms;
    slow_down = l.slow_down;
    finish_times = l.finish_times;
  }

  -- After the launch of the two clusters and `create_mailbox_processes`.
  abbrev pub ready : Launched D → Launched D → Simulation D
  ready l0 l1 = record {
    clusters = record {
      first = cluster_from l0;
      second = cluster_from l1;
      balancer = record { max_guest_job = 1; selected_vm_number = 0 };
      running = [];
    };
    created = 0;
    pending = none;
    received = 0;
    closed_first = 0;
    closed_second = 0;
    serving = true;
    finish = false;
  }

  -- The mailbox process of the VM ends, by "finish".
  abbrev pub close_mailbox : ℕ → GuestVm D → Cluster D → Cluster D
  close_mailbox v vm c = record c { vms = set c.vms v (record vm { jobs = vm.jobs - 1 }) }

module _ {D : Type 0} ⦃d : Double D⦄ (s : Setup D) where
  -- The steps. `drand48` is below 1, so a target is below the number of VMs. `get_finalize` goes on
  -- when the processes of both clusters have sent "fin", which is their last message.
  pub data Step : Simulation D → Simulation D → Type 0 where
    creates_first :
        {m : Simulation D} {w : Clusters D} (x : Draw D)
        → m.created < s.number_of_processes
        → m.pending ≡ none
        → target_of s x < s.number_of_vms
        → create_first s m.created x m.clusters ≡ some w
        → Step m (record m { clusters = w; pending = some x })
    creates_second :
        {m : Simulation D} {w : Clusters D} (x : Draw D)
        → m.pending ≡ some x
        → create_second s m.created x m.clusters ≡ some w
        → Step m (record m { clusters = w; pending = none; created = m.created + 1 })
    finishes :
        {m : Simulation D} {w : Clusters D} (q : ℕ) (actual finish_time : D)
        → finish_task s q actual finish_time m.clusters ≡ some w
        → Step m (record m { clusters = w; received = m.received + 1 })
    closes_first :
        {m : Simulation D} {vm : GuestVm D}
        → m.received ≡ 2 * s.final_processes
        → m.closed_first < s.final_vms
        → get_elem? m.clusters.first.vms m.closed_first ≡ some vm
        → Step m (record m {
          clusters = record m.clusters { first = close_mailbox m.closed_first vm m.clusters.first };
          closed_first = m.closed_first + 1;
        })
    ends_balancer :
        {m : Simulation D}
        → m.received ≡ 2 * s.final_processes
        → m.closed_first ≡ s.final_vms
        → m.serving ≡ true
        → Step m (record m { serving = false })
    closes_second :
        {m : Simulation D} {vm : GuestVm D}
        → m.received ≡ 2 * s.final_processes
        → m.serving ≡ false
        → m.closed_second < s.final_vms
        → get_elem? m.clusters.second.vms m.closed_second ≡ some vm
        → Step m (record m {
          clusters = record m.clusters {
            second = close_mailbox m.closed_second vm m.clusters.second;
          };
          closed_second = m.closed_second + 1;
        })
    sets_finish :
        {m : Simulation D}
        → m.received ≡ 2 * s.final_processes
        → m.serving ≡ false
        → m.closed_second ≡ s.final_vms
        → Step m (record m { finish = true })

  -- What the run can come to.
  pub data Reached (l0 l1 : Launched D) : Simulation D → Type 0 where
    starts : Reached l0 l1 (ready l0 l1)
    steps : {m m' : Simulation D} → Reached l0 l1 m → Step m m' → Reached l0 l1 m'

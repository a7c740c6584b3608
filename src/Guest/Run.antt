-- ===== src/Guest/Run.antt =====
-- The run of the processes from `create_tasks` to `get_finalize`: processes are started in their
-- order, end in any order, and are followed by the mailboxes.
pub mod Live
pub mod Steps
pub mod Laws
pub mod Records
use hpv_c.Base.{ℕ, ◌+◌, ◌-◌, ◌<◌, ◌≡◌, Option, some, List, [], set, get_elem?, length, replicate}
use hpv_c.Double.{Double}
use hpv_c.Placement.Launch.{SlowDown}
use hpv_c.Guest.Balance.{Load, Balancer}
use hpv_c.Guest.Tasks.{Draw, Guest, Setup, create_task, finish_task}

-- The loop counters: `created` is `i` of `create_tasks`, `received` that of `get_finalize`, and
-- `closed` counts the mailboxes that it has sent "finish".
pub record Simulation (D : Type 0) : Type 0 where
  pub guest : Guest D
  pub created : ℕ
  pub received : ℕ
  pub closed : ℕ

module _ {D : Type 0} ⦃d : Double D⦄ (s : Setup D) where
  abbrev pub idle_vm : Load D
  idle_vm = record { mem = d.lit 0 0; net = d.lit 0 0; jobs = 1 }

  -- After `launch_master` and `create_mailbox_processes`: each VM runs its mailbox process, and
  -- `main` has set the limit to 1.
  abbrev pub ready : Simulation D
  ready = record {
    guest = record {
      vms = replicate s.number_of_vms idle_vm;
      balancer = record { max_guest_job = 1; selected_vm_number = 0 };
      slow_down =
          replicate s.number_of_processes
            (record { actual_time = d.lit 0 0; expected_time = d.lit 0 0 });
      running = [];
    };
    created = 0;
    received = 0;
    closed = 0;
  }

  -- The mailbox process of the VM ends, by "finish".
  abbrev pub close_mailbox : ℕ → Load D → Guest D → Guest D
  close_mailbox v vm g = record g { vms = set g.vms v (record vm { jobs = vm.jobs - 1 }) }

  -- The steps of the processes. `get_finalize` closes the mailboxes after its loop over the "fin"
  -- messages, which a process sends as its last.
  pub data Step : Simulation D → Simulation D → Type 0 where
    creates :
        {m : Simulation D} {g : Guest D} (x : Draw)
        → m.created < s.number_of_processes
        → create_task s m.created x m.guest ≡ some g
        → Step m (record m { guest = g; created = m.created + 1 })
    finishes :
        {m : Simulation D} {g : Guest D} (q : ℕ) (actual : D)
        → finish_task s q actual m.guest ≡ some g
        → Step m (record m { guest = g; received = m.received + 1 })
    closes :
        {m : Simulation D} {vm : Load D}
        → m.received ≡ s.number_of_processes
        → m.closed < s.number_of_vms
        → get_elem? m.guest.vms m.closed ≡ some vm
        → Step m (record m { guest = close_mailbox m.closed vm m.guest; closed = m.closed + 1 })

  -- What the run can come to.
  pub data Reached : Simulation D → Type 0 where
    starts : Reached ready
    steps : {m m' : Simulation D} → Reached m → Step m m' → Reached m'

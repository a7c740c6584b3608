-- ===== src/Guest/Tasks.antt =====
-- A process from its start in `create_tasks` to its end in `process_task`, in cluster 0 with the
-- load balancer on.
use hpv_c.Base.{
  ℕ, ◌+◌, ◌-◌, ◌%◌, Option, some, List, ◌∷◌, ltb, set, store, without, get_elem?, ◌>>=◌, ◌>>◌,
  require,
}
use hpv_c.Double.{Double}
use hpv_c.Process.Need.{ResourceNeed, Counts, Maxima, compute_resource_need}
use hpv_c.Placement.Launch.{SlowDown}
use hpv_c.Guest.Balance.{Load, LoadBalanceRequest, Balancer, assign}

-- The numbers from `rand` that the process gets.
pub record Draw : Type 0 where
  pub r : ℕ
  pub m : ℕ
  pub c : ℕ
  pub rand_task : ℕ
  pub target_mailbox : ℕ

-- `process_argv`; the cluster is 0.
pub record ProcessArgv : Type 0 where
  pub r : ℕ
  pub m : ℕ
  pub c : ℕ
  pub rand_task : ℕ
  pub home_vm : ℕ
  pub target_mailbox : ℕ
  pub process_sequence : ℕ

-- What the processes and the balancer share.
pub record Guest (D : Type 0) : Type 0 where
  pub vms : List (Load D)
  pub balancer : Balancer
  pub slow_down : List (SlowDown D)
  pub running : List ProcessArgv

-- What is fixed by `main` and `launch_master`.
pub record Setup (D : Type 0) : Type 0 where
  pub max : Maxima D
  pub counts : Counts
  pub dbl_max : D
  pub number_of_vms : ℕ
  pub number_of_processes : ℕ

module _ {D : Type 0} ⦃d : Double D⦄ (s : Setup D) where
  -- The process and its needs are added to a VM.
  abbrev pub add_process : ResourceNeed D → Load D → Load D
  add_process need vm = record {
    mem = d.add need.memory vm.mem;
    net = d.add need.net vm.net;
    jobs = vm.jobs + 1;
  }

  -- `- need + usage` is the double `usage - need`.
  abbrev pub drop_process : ResourceNeed D → Load D → Load D
  drop_process need vm = record {
    mem = d.sub vm.mem need.memory;
    net = d.sub vm.net need.net;
    jobs = vm.jobs - 1;
  }

  abbrev pub need_of : Draw → ResourceNeed D
  need_of x = compute_resource_need s.max s.counts x.rand_task x.r x.m x.c

  -- The request sent to the balancer has the memory in both fields.
  abbrev pub request_of : Draw → LoadBalanceRequest D
  request_of x = record { memory = (need_of x).memory; net = (need_of x).memory }

  abbrev pub argv_of : ℕ → Draw → ℕ → ProcessArgv
  argv_of i x home_vm = record {
    r = x.r;
    m = x.m;
    c = x.c;
    rand_task = x.rand_task;
    home_vm = home_vm % s.number_of_vms;
    target_mailbox = x.target_mailbox % s.number_of_vms;
    process_sequence = i;
  }

  -- The round `i` of the loop of `create_tasks`, after its sleep.
  unfoldable pub create_task : ℕ → Draw → Guest D → Option (Guest D)
  create_task i x g = do
    b ← assign s.dbl_max g.vms (request_of x) g.balancer
    require (ltb 0 s.number_of_vms)
    host ← get_elem? g.vms b.selected_vm_number
    some (record g {
      vms = set g.vms b.selected_vm_number (add_process (need_of x) host);
      balancer = b;
      running = argv_of i x b.selected_vm_number ∷ g.running;
    })

  abbrev pub draw_of : ProcessArgv → Draw
  draw_of a = record {
    r = a.r;
    m = a.m;
    c = a.c;
    rand_task = a.rand_task;
    target_mailbox = a.target_mailbox;
  }

  -- The end of the process at place `q` of `running`, which took the time `actual`.
  unfoldable pub finish_task : ℕ → D → Guest D → Option (Guest D)
  finish_task q actual g = do
    a ← get_elem? g.running q
    let need = need_of (draw_of a)
    slow_down ←
        store g.slow_down a.process_sequence
          (record { actual_time = actual; expected_time = need.expected_time })
    host ← get_elem? g.vms a.home_vm
    some (record g {
      vms = set g.vms a.home_vm (drop_process need host);
      slow_down = slow_down;
      running = without q g.running;
    })

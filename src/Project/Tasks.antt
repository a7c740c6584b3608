-- ===== src/Project/Tasks.antt =====
-- The processes of simgrid-project/hpvc.c: `process_mailbox` of each VM, and a process of either
-- cluster from its creation in `create_tasks` to its end in `process_task`.
use hpv_c.Base.{
  ℕ, ◌+◌, ◌-◌, Bool, true, false, Option, some, List, [], ◌∷◌, ◌==◌, set, store, without, get_elem?,
  ◌>>=◌,
}
use hpv_c.Double.{Double}
use hpv_c.Process.Need.{ResourceNeed}
use hpv_c.Placement.Launch.{SlowDown}
use hpv_c.Guest.Balance.{Balancer}
use hpv_c.Project.Pool.{GuestVm}
use hpv_c.Project.Balance.{serve_request}
use hpv_c.Project.Need.{compute_resource_need, request_of}
use hpv_c.Project.Results.{home_vm}

-- What `drand48` gives for a process.
pub record Draw (D : Type 0) : Type 0 where
  pub r : D
  pub m : D
  pub c : D
  pub rand_task : D
  pub target_mailbox : D

-- `process_argv`.
pub record ProcessArgv (D : Type 0) : Type 0 where
  pub r : D
  pub m : D
  pub c : D
  pub rand_task : D
  pub home_vm : ℕ
  pub target_mailbox : ℕ
  pub cluster_id : ℕ
  pub process_sequence : ℕ

-- `vm_list`, `slow_down` and `finish_times` of a cluster.
pub record Cluster (D : Type 0) : Type 0 where
  pub vms : List (GuestVm D)
  pub slow_down : List (SlowDown D)
  pub finish_times : List D

-- What the processes of the two clusters and the balancer of the first share.
pub record Clusters (D : Type 0) : Type 0 where
  pub first : Cluster D
  pub second : Cluster D
  pub balancer : Balancer
  pub running : List (ProcessArgv D)

-- What `main`, `launch_master` and the deployment fix. The deployment gives `create_tasks` and
-- `get_finalize` their own numbers of VMs and processes: those of `get_finalize` are the final ones.
-- `printed` is what `atof` reads of a double that is printed by "%f".
pub record Setup (D : Type 0) : Type 0 where
  pub cpu_max_flops : D
  pub memory_max : D
  pub net_max : D
  pub dbl_max : D
  pub number_of_vms : ℕ
  pub number_of_processes : ℕ
  pub final_vms : ℕ
  pub final_processes : ℕ
  pub printed : D → D

abbrev pub cluster_of : {D : Type 0} → Bool → Clusters D → Cluster D
cluster_of true w = w.first
cluster_of false w = w.second

abbrev pub with_cluster :
    {D : Type 0} → Bool → Cluster D → List (ProcessArgv D) → Clusters D → Clusters D
with_cluster true c running w = record w { first = c; running = running }
with_cluster false c running w = record w { second = c; running = running }

-- Each VM gets the process of its mailbox.
unfoldable pub create_mailbox_processes : {D : Type 0} → List (GuestVm D) → List (GuestVm D)
create_mailbox_processes [] = []
create_mailbox_processes (vm ∷ vms) =
    record vm { jobs = vm.jobs + 1 } ∷ create_mailbox_processes vms

module _ {D : Type 0} ⦃d : Double D⦄ (s : Setup D) where
  abbrev pub need_of : D → D → D → D → ResourceNeed D
  need_of rand_task r m c =
      compute_resource_need s.cpu_max_flops s.memory_max s.net_max rand_task r m c

  -- The target that is passed to a process.
  abbrev pub target_of : Draw D → ℕ
  target_of x = d.to_int (d.mul x.target_mailbox (d.of_int s.number_of_vms))

  abbrev pub argv_of : ℕ → ℕ → Draw D → ℕ → ProcessArgv D
  argv_of cluster_id i x home = record {
    r = s.printed x.r;
    m = s.printed x.m;
    c = s.printed x.c;
    rand_task = s.printed x.rand_task;
    home_vm = home;
    target_mailbox = target_of x;
    cluster_id = cluster_id;
    process_sequence = i;
  }

  -- A process that starts on a VM; its needs are added in the first cluster only.
  abbrev pub add_process : Bool → ResourceNeed D → GuestVm D → GuestVm D
  add_process true need vm = record vm {
    mem = d.add need.memory vm.mem;
    net = d.add need.net vm.net;
    jobs = vm.jobs + 1;
  }
  add_process false need vm = record vm { jobs = vm.jobs + 1 }

  -- `- need + usage` is the double `usage - need`.
  abbrev pub drop_process : Bool → ResourceNeed D → GuestVm D → GuestVm D
  drop_process true need vm = record vm {
    mem = d.sub vm.mem need.memory;
    net = d.sub vm.net need.net;
    jobs = vm.jobs - 1;
  }
  drop_process false need vm = record vm { jobs = vm.jobs - 1 }

  -- The process `i` of the first cluster, after the answer of the balancer.
  unfoldable pub create_first : ℕ → Draw D → Clusters D → Option (Clusters D)
  create_first i x w = do
    let need = need_of x.rand_task x.r x.m x.c
    answer ← serve_request s.dbl_max w.first.vms 0 (request_of need) w.balancer
    b ← answer
    host ← get_elem? w.first.vms b.selected_vm_number
    let vms = set w.first.vms b.selected_vm_number (add_process true need host)
    some (record w {
      first = record w.first { vms = vms };
      balancer = b;
      running = argv_of 0 i x b.selected_vm_number ∷ w.running;
    })

  -- The process `i` of the second cluster, by round robin.
  unfoldable pub create_second : ℕ → Draw D → Clusters D → Option (Clusters D)
  create_second i x w = do
    let need = need_of x.rand_task x.r x.m x.c
    home ← home_vm s.number_of_vms i
    host ← get_elem? w.second.vms home
    let vms = set w.second.vms home (add_process false need host)
    some (record w {
      second = record w.second { vms = vms };
      running = argv_of 1 i x home ∷ w.running;
    })

  -- The end of a process of the cluster, at the time `finish_time` and after `actual`. Its message to
  -- the target is received by the mailbox process of a VM that was started; else it never ends.
  unfoldable pub finish_in : ProcessArgv D → D → D → Cluster D → Option (Cluster D)
  finish_in a actual finish_time c = do
    let need = need_of a.rand_task a.r a.m a.c
    target ← get_elem? c.vms a.target_mailbox
    finish_times ← store c.finish_times a.process_sequence finish_time
    slow_down ←
        store c.slow_down a.process_sequence
          (record { actual_time = actual; expected_time = need.expected_time })
    host ← get_elem? c.vms a.home_vm
    let vms = set c.vms a.home_vm (drop_process (a.cluster_id == 0) need host)
    some (record { vms = vms; slow_down = slow_down; finish_times = finish_times })

  -- The end of the process at place `q` of `running`.
  unfoldable pub finish_task : ℕ → D → D → Clusters D → Option (Clusters D)
  finish_task q actual finish_time w = do
    a ← get_elem? w.running q
    c ← finish_in a actual finish_time (cluster_of (a.cluster_id == 0) w)
    some (with_cluster (a.cluster_id == 0) c (without q w.running) w)

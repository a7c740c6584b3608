-- ===== src/Project/Run/Tests.antt =====
-- Runs of two clusters with two hosts each, over thousandths.
use hpv_c.Base.{ℕ, ◌≤◌, ◌<◌, ◌≡◌, refl, arith, false, Option, some, none, [], length, get_elem?}
use hpv_c.Double.{Milli, milli_double, Milli-IsOrdered}
use hpv_c.Guest.Balance.{assign_by, scan, visit}
use hpv_c.Project.Pool.{GuestVm}
use hpv_c.Project.Launch.{Launched, launched, launch_hosts, start_vms, launch_master}
use hpv_c.Project.Balance.{cores_fit, marginal_cost, serve_request}
use hpv_c.Project.Need.{compute_resource_need}
use hpv_c.Project.Results.{home_vm}
use hpv_c.Project.Tasks.{
  Draw, Clusters, Setup, target_of, create_mailbox_processes, create_first, create_second,
  finish_in, finish_task,
}
use hpv_c.Project.Run.{
  Simulation, ready, creates_first, creates_second, finishes, Reached, starts, steps,
}
use hpv_c.Project.Run.Live.{IsLive}
use hpv_c.Project.Run.Laws.{IsDeployed, clusters-IsLive, clusters_total}
use hpv_c.Project.Run.Short.{clusters_short}

abbrev launch_of : Option (Launched Milli) → Launched Milli
launch_of none = launched 0 0 0 0 0 ([], [])
launch_of (some l) = l

abbrev setup : Setup Milli
setup = record {
  cpu_max_flops = 1000;
  memory_max = 25600000;
  net_max = 62500000000;
  dbl_max = 1000000000000000;
  number_of_vms = 4;
  number_of_processes = 2;
  final_vms = 4;
  final_processes = 2;
  printed = λ a. a;
}

abbrev first_launch : Launched Milli
first_launch = launch_of (launch_master {D = Milli} 1 6 1000 2 3 4 2 0)

abbrev second_launch : Launched Milli
second_launch = launch_of (launch_master {D = Milli} 1 6 1000 2 3 4 2 1)

first_launched : launch_master {D = Milli} 1 6 1000 2 3 4 2 0 ≡ some first_launch
unfolding launch_master launch_hosts start_vms
first_launched = refl

second_launched : launch_master {D = Milli} 1 6 1000 2 3 4 2 1 ≡ some second_launch
unfolding launch_master launch_hosts start_vms
second_launched = refl

abbrev draw : Draw Milli
draw = record { r = 400; m = 300; c = 200; rand_task = 100; target_mailbox = 700 }

abbrev begin : Simulation Milli
begin = ready first_launch second_launch

abbrev clusters_of : Option (Clusters Milli) → Clusters Milli
clusters_of none = begin.clusters
clusters_of (some w) = w

-- The first process is created in the first cluster, then in the second, where it ends.
abbrev half_created : Simulation Milli
half_created = record begin {
  clusters = clusters_of (create_first setup 0 draw begin.clusters);
  pending = some draw;
}

abbrev created : Simulation Milli
created = record half_created {
  clusters = clusters_of (create_second setup 0 draw half_created.clusters);
  pending = none;
  created = 1;
}

abbrev ended : Simulation Milli
ended = record created {
  clusters = clusters_of (finish_task setup 0 7000 9000 created.clusters);
  received = 1;
}

is_half_created : create_first setup 0 draw begin.clusters ≡ some half_created.clusters
unfolding launch_master launch_hosts start_vms create_mailbox_processes create_first serve_request
    assign_by scan visit cores_fit marginal_cost compute_resource_need
is_half_created = refl

is_created : create_second setup 0 draw half_created.clusters ≡ some created.clusters
unfolding launch_master launch_hosts start_vms create_mailbox_processes create_first serve_request
    assign_by scan visit cores_fit marginal_cost compute_resource_need create_second home_vm
is_created = refl

is_ended : finish_task setup 0 7000 9000 created.clusters ≡ some ended.clusters
unfolding launch_master launch_hosts start_vms create_mailbox_processes create_first serve_request
    assign_by scan visit cores_fit marginal_cost compute_resource_need create_second home_vm
    finish_in finish_task
is_ended = refl

ended-Reached : Reached setup first_launch second_launch ended
ended-Reached =
    steps
      (steps (steps starts (creates_first draw (omega arith) refl (omega arith) is_half_created))
        (creates_second draw refl is_created))
      (finishes 0 7000 9000 is_ended)

is_deployed : IsDeployed setup 4 2
is_deployed = record { vms = refl; processes = refl; same_vms = refl; same_processes = refl }

clusters-IsLive_example : IsLive setup ended
clusters-IsLive_example =
    clusters-IsLive setup 1 6 1000 2 3 4 2 (omega arith) (omega arith) refl (omega arith)
      first_launched second_launched is_deployed Milli-IsOrdered (omega arith) (omega arith)
      (omega arith) ended-Reached

clusters_total_example :
    ((x : Draw Milli)
      → ended.created < 2
      → ended.pending ≡ none
      → target_of setup x < 4
      → (w : Clusters Milli) × (create_first setup ended.created x ended.clusters ≡ some w))
    × ((x : Draw Milli)
        → ended.pending ≡ some x
        → (w : Clusters Milli) × (create_second setup ended.created x ended.clusters ≡ some w))
    × ((q : ℕ) (actual finish_time : Milli)
        → q < length ended.clusters.running
        → (w : Clusters Milli) × (finish_task setup q actual finish_time ended.clusters ≡ some w))
    × ((v : ℕ)
        → v < 4
        → ((vm : GuestVm Milli) × (get_elem? ended.clusters.first.vms v ≡ some vm))
          × ((vm : GuestVm Milli) × (get_elem? ended.clusters.second.vms v ≡ some vm)))
clusters_total_example =
    clusters_total setup 1 6 1000 2 3 4 2 (omega arith) (omega arith) refl (omega arith)
      first_launched second_launched is_deployed Milli-IsOrdered (omega arith) (omega arith)
      (omega arith) ended-Reached

-- Five VMs for three hosts: in the second cluster four are started.
abbrev short_setup : Setup Milli
short_setup = record setup {
  number_of_vms = 5;
  number_of_processes = 5;
  final_vms = 5;
  final_processes = 5;
}

abbrev first_of_five : Launched Milli
first_of_five = launch_of (launch_master {D = Milli} 1 8 1000 3 4 5 5 0)

abbrev second_of_five : Launched Milli
second_of_five = launch_of (launch_master {D = Milli} 1 8 1000 3 4 5 5 1)

second_of_five_launched : launch_master {D = Milli} 1 8 1000 3 4 5 5 1 ≡ some second_of_five
unfolding launch_master launch_hosts start_vms
second_of_five_launched = refl

abbrev short_begin : Simulation Milli
short_begin = ready first_of_five second_of_five

abbrev short_half : Simulation Milli
short_half = record short_begin {
  clusters = clusters_of (create_first short_setup 0 draw short_begin.clusters);
  pending = some draw;
}

is_short_half : create_first short_setup 0 draw short_begin.clusters ≡ some short_half.clusters
unfolding launch_master launch_hosts start_vms create_mailbox_processes create_first serve_request
    assign_by scan visit cores_fit marginal_cost compute_resource_need
is_short_half = refl

clusters_short_example : (short_half.created ≤ 4) × (short_half.finish ≡ false)
clusters_short_example =
    clusters_short short_setup 1 8 1000 3 4 5 5 {l0 = first_of_five} (omega arith) (omega arith)
      (omega arith) (omega arith) (omega arith) (omega arith) (omega arith) second_of_five_launched
      (steps starts (creates_first draw (omega arith) refl (omega arith) is_short_half))

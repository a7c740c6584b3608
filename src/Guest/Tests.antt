-- ===== src/Guest/Tests.antt =====
-- Two VMs and one process, over thousandths.
use hpv_c.Base.{ℕ, ◌<◌, ◌≡◌, refl, arith, Option, some, none, List, [], ◌∷◌, length, get_elem?}
use hpv_c.Double.{Milli, milli_double, Milli-IsOrdered}
use hpv_c.Process.Need.{compute_resource_need}
use hpv_c.Guest.Balance.{Load, LoadBalanceRequest, Balancer, marginal_cost, visit, scan, assign}
use hpv_c.Guest.Balance.Least.{Assigned, assign-Assigned}
use hpv_c.Guest.Tasks.{Draw, Guest, Setup, create_task, finish_task}
use hpv_c.Guest.Run.{
  Simulation, ready, close_mailbox, creates, finishes, closes, Reached, starts, steps,
}
use hpv_c.Guest.Run.Live.{IsLive}
use hpv_c.Guest.End.{destroy_master, total_slow_down, destroy_master-Recorded}
use hpv_c.Guest.Run.Records.{draws, Recorded}
use hpv_c.Guest.Run.Laws.{Reached-IsLive, Reached-total}

abbrev setup : Setup Milli
setup = record {
  max = record { cpu_max_flops = 5000; memory_max = 1000000; net_max = 60000; rand_max = 100 };
  counts = record { iterations = 12; comp = 2; comm = 11 };
  dbl_max = 1000000000000;
  number_of_vms = 2;
  number_of_processes = 1;
}

abbrev draw : Draw
draw = record { r = 40; m = 30; c = 20; rand_task = 10; target_mailbox = 7 }

abbrev guest_of : Option (Guest Milli) → Guest Milli
guest_of none = (ready setup).guest
guest_of (some g) = g

-- A busy VM and an idle one.
abbrev loads : List (Load Milli)
loads = record { mem = 3000; net = 1000; jobs = 7 } ∷ record { mem = 0; net = 0; jobs = 1 } ∷ []

abbrev request : LoadBalanceRequest Milli
request = record { memory = 500; net = 500 }

abbrev balancer : Balancer
balancer = record { max_guest_job = 2; selected_vm_number = 0 }

-- The idle VM is selected, and the limit doubles.
assign_idle :
    assign {D = Milli} 1000000000000 loads request balancer
    ≡ some (record { max_guest_job = 4; selected_vm_number = 1 })
unfolding assign scan visit marginal_cost
assign_idle = refl

assign-Assigned_example :
    (b' : Balancer) × (assign {D = Milli} 1000000000000 loads request balancer ≡ some b')
    × Assigned {D = Milli} 1000000000000 loads request balancer b'
assign-Assigned_example =
    assign-Assigned {D = Milli} 1000000000000 loads request balancer Milli-IsOrdered (omega arith)
      (omega arith) (omega arith)

abbrev one_runs : Simulation Milli
one_runs = record (ready setup) {
  guest = guest_of (create_task setup 0 draw (ready setup).guest);
  created = 1;
}

abbrev one_ended : Simulation Milli
one_ended = record one_runs {
  guest = guest_of (finish_task setup 0 7000 one_runs.guest);
  received = 1;
}

one_created : create_task setup 0 draw (ready setup).guest ≡ some one_runs.guest
unfolding create_task assign scan visit marginal_cost compute_resource_need
one_created = refl

one_finished : finish_task setup 0 7000 one_runs.guest ≡ some one_ended.guest
unfolding create_task finish_task assign scan visit marginal_cost compute_resource_need
one_finished = refl

one_runs-Reached : Reached setup one_runs
one_runs-Reached = steps starts (creates draw (omega arith) one_created)

one_ended-Reached : Reached setup one_ended
one_ended-Reached = steps one_runs-Reached (finishes 0 7000 one_finished)

Reached-IsLive_example : IsLive setup one_runs
Reached-IsLive_example =
    Reached-IsLive setup Milli-IsOrdered (omega arith) (omega arith) one_runs-Reached

abbrev vm_of : Option (Load Milli) → Load Milli
vm_of none = record { mem = 0; net = 0; jobs = 0 }
vm_of (some vm) = vm

abbrev first_vm : Load Milli
first_vm = vm_of (get_elem? one_ended.guest.vms 0)

abbrev one_closed : Simulation Milli
one_closed = record one_ended { guest = close_mailbox setup 0 first_vm one_ended.guest; closed = 1 }

first_vm_lem : get_elem? one_ended.guest.vms 0 ≡ some first_vm
unfolding create_task finish_task assign scan visit marginal_cost compute_resource_need
first_vm_lem = refl

one_closed-Reached : Reached setup one_closed
one_closed-Reached = steps one_ended-Reached (closes refl (omega arith) first_vm_lem)

Reached-total_example :
    (one_runs.created < setup.number_of_processes
      → (x : Draw)
      → (g : Guest Milli) × (create_task setup one_runs.created x one_runs.guest ≡ some g))
    × ((q : ℕ) (actual : Milli)
        → q < length one_runs.guest.running
        → (g : Guest Milli) × (finish_task setup q actual one_runs.guest ≡ some g))
Reached-total_example =
    Reached-total setup Milli-IsOrdered (omega arith) (omega arith) one_runs-Reached

destroy_master-Recorded_example :
    (destroy_master 1 0 one_ended.guest.slow_down []
      ≡ some (
          milli_double.div
            (total_slow_down one_ended.guest.slow_down (milli_double.lit 0 0))
            (milli_double.of_int 1)))
    × (length one_ended.guest.slow_down ≡ 1)
    × ((i : ℕ) → i < 1 → Recorded setup (draws setup one_ended-Reached) one_ended.guest.slow_down i)
destroy_master-Recorded_example =
    destroy_master-Recorded setup 0 [] Milli-IsOrdered (omega arith) (omega arith) one_ended-Reached
      refl (omega arith)

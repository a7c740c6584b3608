-- ===== src/Organizer/Tests.antt =====
-- Runs of the organizer over thousandths, on the platform of the placement's tests.
use hpv_c.Base.{
  if◌then◌else◌, ℕ, ◌+◌, ◌-◌, ◌<◌, ◌≡◌, refl, ◌⊎◌, true, false, List, [], ◌∷◌, Option, some, none,
  arith, count, get_elem?, ltb,
}
use hpv_c.Double.{Milli, milli_double, Milli-IsOrdered}
use hpv_c.Placement.Tests.{platform, names_differ, four_vms, four_vms-IsPlaced}
use hpv_c.Utility.{remove_item_from_array}
use hpv_c.Placement.Migrate.{find_pm, find_slot, remove_slot, remove_from, append_to, migrate_vm}
use hpv_c.Placement.Launch.{Launched, launch_master}
use hpv_c.Organizer.Matrix.{
  Matrices, entry, create_organization_matrix, create_organization_matrix-IsSized, initial_latency,
}
use hpv_c.Organizer.Send.{VmHandle, Sending, sent_size, new_average, gather, send_task}
use hpv_c.Organizer.Send.History.{messages, running_average, send_all, send_all_lem}
use hpv_c.Organizer.Period.{blend_fits, row_fits, blends_fit, blend, blend_rate, remember, clear}
use hpv_c.Organizer.Sort.{indices, bubble, bubbles, sort_hosts}
use hpv_c.Organizer.Sort.Order.{IsSorted, sort_hosts-IsSorted}
use hpv_c.Organizer.Candidate.{is_last, product, heat, heats, find_candidate, candidate}
use hpv_c.Organizer.Candidate.Greatest.{candidate-greatest}
use hpv_c.Organizer.NextCost.{is_same_cluster, sum_latencies, averages, host_cost, next_costs}
use hpv_c.Organizer.Manager.{Settings, Organizer, start, report, migrate, choose, organize}
use hpv_c.Organizer.Manager.Period.{IsProper, IsReady, Outcome, organize-Outcome}
use hpv_c.Organizer.Manager.Run.{StaysBelow, Event, sends, period, step, run, run_launched}

abbrev settings : Settings Milli
settings = record {
  platform = platform;
  number_of_vms = 4;
  involved = 2;
  alpha = 100;
  same_cluster = 200;
  other_cluster = 900;
}

abbrev handle : ℕ → VmHandle
handle i = record { cluster_id = 0; vm_id = i; pm_name = i + 100 }

-- VM 0 sends to VM 1, for the given time.
abbrev message : ℕ → Sending Milli
message time = record {
  sender = handle 0;
  receiver = handle 1;
  task_size = 5000;
  is_ok = true;
  start_time = 1000;
  end_time = 1000 + time;
}

abbrev messages_sent : List (Sending Milli)
messages_sent = message 400 ∷ record (message 300) { is_ok = false } ∷ message 200 ∷ []

send_all_lem_example :
    (m : Matrices Milli) × (send_all messages_sent (create_organization_matrix 2) ≡ some m)
    × ((i j : ℕ)
        → i < 2
        → j < 2
        → (entry m.rate i j ≡ some (1 + messages i j messages_sent))
          × (entry m.latency i j ≡ some (running_average i j messages_sent initial_latency 1)))
send_all_lem_example = send_all_lem 2 messages_sent (omega arith) (omega arith)

sort_three : sort_hosts {D = Milli} (λ i. 10 - i) 3 ≡ 2 ∷ 1 ∷ 0 ∷ []
unfolding sort_hosts
sort_three = refl

sort_hosts-IsSorted_example :
    IsSorted {D = Milli} (λ i. 10 - i) (sort_hosts {D = Milli} (λ i. 10 - i) 3)
    × ((v : ℕ) → count v (sort_hosts {D = Milli} (λ i. 10 - i) 3) ≡ (if ltb v 3 then 1 else 0))
sort_hosts-IsSorted_example = sort_hosts-IsSorted {D = Milli} (λ i. 10 - i) 3 Milli-IsOrdered

abbrev some_heat : List Milli
some_heat = 4 ∷ 9 ∷ 7 ∷ []

candidate-greatest_example :
    let r = candidate {D = Milli} (some 1) some_heat in
    ((k : ℕ) (h : Milli)
      → get_elem? some_heat k ≡ some h
      → is_last (some 1) k ≡ false
      → ltb r.current_h h ≡ false)
    × (((r.current_h ≡ 0) × (r.index ≡ 0))
        ⊎ ((get_elem? some_heat r.index ≡ some r.current_h)
            × (is_last (some 1) r.index ≡ false)
            × (ltb 0 r.current_h ≡ true)))
candidate-greatest_example = candidate-greatest {D = Milli} (some 1) some_heat Milli-IsOrdered

abbrev events : List (Event Milli)
events = sends (message 90000) ∷ period ∷ sends (message 20) ∷ period ∷ []

stays_below : StaysBelow settings.alpha 1000
unfolding blend_fits blend_rate blend
stays_below a b la lb = (ground arith, ground arith)

run_launched_example :
    (l : Launched Milli) × (o : Organizer Milli) × (launch_master {D = Milli} platform 5 2 4 3
      ≡ some l)
    × (run settings events (start settings l.cluster (create_organization_matrix 4)) ≡ some o)
    × IsReady settings o
run_launched_example =
    run_launched settings 2 3 1000 5 events names_differ (omega arith) (omega arith) (omega arith)
      (omega arith) (omega arith) (omega arith) (omega arith) stays_below (omega arith)

proper : IsProper settings
proper = record { names = names_differ; hosts = omega arith; some_vm = omega arith }

abbrev started : Organizer Milli
started = record {
  cluster = four_vms;
  measured = create_organization_matrix 4;
  tmp = create_organization_matrix 4;
  last = none;
  migrate_counter = 0;
}

started-IsReady : IsReady settings started
started-IsReady = record {
  placed = four_vms-IsPlaced;
  vms = refl;
  measured = create_organization_matrix-IsSized 4;
  tmp = create_organization_matrix-IsSized 4;
}

started_fits : blends_fit settings.alpha started.tmp.rate started.measured.rate ≡ true
unfolding blends_fit row_fits blend_fits blend create_organization_matrix
started_fits = refl

organize-Outcome_example :
    (o : Organizer Milli) × (organize settings started ≡ some o)
    × IsReady settings o
    × Outcome settings started o
organize-Outcome_example =
    organize-Outcome settings started proper started-IsReady (omega arith) started_fits

migrations : Option (Organizer Milli) → Option ℕ
migrations none = none
migrations (some o) = some o.migrate_counter

-- The slow messages move a VM.
run_migrates : migrations (run settings events started) ≡ some 1
unfolding migrations run step send_task gather organize blends_fit row_fits blend_fits remember
    blend blend_rate clear heats heat product candidate find_candidate next_costs host_cost averages
    sum_latencies is_same_cluster sort_hosts bubbles bubble indices choose migrate report find_pm
    find_slot migrate_vm remove_from remove_slot append_to remove_item_from_array
    create_organization_matrix new_average sent_size
run_migrates = refl

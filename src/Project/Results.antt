-- ===== src/Project/Results.antt =====
-- The home VMs of the second cluster (`create_tasks`), and the statistics of `destroy_master`, of
-- simgrid-project/hpvc.c.
pub mod Homes
pub mod Latest
use hpv_c.Base.{
  ℕ, zero, suc, ◌+◌, ◌-◌, ◌*◌, ◌%◌, Bool, not, Option, none, some, List, [], ◌∷◌, ◌++◌, ◌==◌, leb,
  length, get_elem?, if◌then◌else◌, ◌>>=◌, ◌>>◌, require,
}
use hpv_c.Double.{Double}
use hpv_c.Utility.{checked_int}
use hpv_c.Placement.Launch.{SlowDown}

-- The home of process `i`: round robin.
unfoldable pub home_vm : ℕ → ℕ → Option ℕ
home_vm number_of_vms i = do require (not (number_of_vms == 0)); some (i % number_of_vms)

-- The homes of the first `n` processes, in the order of their creation.
unfoldable pub home_vms : ℕ → ℕ → Option (List ℕ)
unfolding home_vm
home_vms number_of_vms zero = some []
home_vms number_of_vms (suc i) = do
  homes ← home_vms number_of_vms i
  home ← home_vm number_of_vms i
  some (homes ++ home ∷ [])

pub record Totals (D : Type 0) : Type 0 where
  pub mean_slowdown : D
  pub mean_exceed_percent : D
  pub total_exceed : D
  pub total_actual : D
  pub total_expected : D

pub record FinishTimes (D : Type 0) : Type 0 where
  pub mean_finish_time_diff : D
  pub max_finish_time : D

-- What is printed.
pub record Statistics (D : Type 0) : Type 0 where
  pub mean_slowdown : D
  pub weighted_slowdown : D
  pub mean_exceed_percent : D
  pub total_exceed : D
  pub lifetime : D
  pub max_finish_time : D

module _ {D : Type 0} ⦃d : Double D⦄ where
  abbrev pub add_times : SlowDown D → Totals D → Totals D
  add_times s t = record {
    mean_slowdown = d.add t.mean_slowdown (d.div s.actual_time s.expected_time);
    mean_exceed_percent =
        d.add t.mean_exceed_percent (d.div (d.sub s.actual_time s.expected_time) s.actual_time);
    total_exceed = d.add t.total_exceed (d.sub s.actual_time s.expected_time);
    total_actual = d.add t.total_actual s.actual_time;
    total_expected = d.add t.total_expected s.expected_time;
  }

  -- The loop over the slow downs with `n` rounds left.
  unfoldable pub sum_times : ℕ → ℕ → List (SlowDown D) → Totals D → Option (Totals D)
  sum_times zero i slow_downs t = some t
  sum_times (suc n) i slow_downs t = do
    s ← get_elem? slow_downs i
    sum_times n (i + 1) slow_downs (add_times s t)

  abbrev pub add_finish : ℕ → D → D → FinishTimes D → FinishTimes D
  add_finish i finish0 finish1 f = record {
    mean_finish_time_diff =
        d.add f.mean_finish_time_diff (d.mul (d.of_int (i + 1)) (d.sub finish1 finish0));
    max_finish_time = if d.lt f.max_finish_time finish0 then finish0 else f.max_finish_time;
  }

  -- The loop over the finish times of the two clusters with `n` rounds left.
  unfoldable pub sum_finish : ℕ → ℕ → List D → List D → FinishTimes D → Option (FinishTimes D)
  sum_finish zero i finish0s finish1s f = some f
  sum_finish (suc n) i finish0s finish1s f = do
    finish0 ← get_elem? finish0s i
    finish1 ← get_elem? finish1s i
    sum_finish n (i + 1) finish0s finish1s (add_finish i finish0 finish1 f)

  abbrev pub no_totals : Totals D
  no_totals = record {
    mean_slowdown = d.lit 0 0;
    mean_exceed_percent = d.lit 0 0;
    total_exceed = d.lit 0 0;
    total_actual = d.lit 0 0;
    total_expected = d.lit 0 0;
  }

  abbrev pub no_finish : FinishTimes D
  no_finish = record { mean_finish_time_diff = d.lit 0 0; max_finish_time = d.lit 0 0 }

  abbrev pub statistics : ℕ → ℕ → Totals D → FinishTimes D → Statistics D
  statistics no_process pairs t f = record {
    mean_slowdown = d.div t.mean_slowdown (d.of_int no_process);
    weighted_slowdown = d.div t.total_actual t.total_expected;
    mean_exceed_percent = t.mean_exceed_percent;
    total_exceed = t.total_exceed;
    lifetime = d.div (d.mul (d.of_int 2) f.mean_finish_time_diff) (d.of_int pairs);
    max_finish_time = f.max_finish_time;
  }

  -- The finish times are looked at for cluster 0 only; `no_process * (no_process - 1)` is an int.
  unfoldable pub destroy_master :
      ℕ → ℕ → List (SlowDown D) → List D → List D → Option (Statistics D)
  unfolding sum_times sum_finish
  destroy_master no_process cluster_id slow_downs finish0s finish1s = do
    totals ← sum_times no_process 0 slow_downs no_totals
    finish ←
        if cluster_id == 0
        then sum_finish no_process 0 finish0s finish1s no_finish
        else some no_finish
    pairs ← checked_int (no_process * (no_process - 1))
    some (statistics no_process pairs totals finish)

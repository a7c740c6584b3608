-- ===== src/Organizer/NextCost/Total.antt =====
-- The computation of nextH does not fault on a consistent placement.
use hpv_c.Base.{
  ℕ, zero, suc, ◌+◌, ◌≤◌, ◌<◌, ◌≡◌, refl, some, List, [], ◌∷◌, arith, length, get_elem?-in,
  if◌then◌else◌,
}
use hpv_c.Double.{Double, add_float}
use hpv_c.Placement.Platform.{Platform, DataOfPm, Cluster}
use hpv_c.Placement.Invariant.{IsPm, IsPlaced, owner, listed-owner, owner_bound}
use hpv_c.Organizer.Matrix.{Matrices, IsSized, entry_in}
use hpv_c.Organizer.NextCost.{
  Averages, add_averages, no_averages, add_cost, is_same_cluster, sum_latencies, mean_latency,
  averages, host_cost, next_costs,
}

module _ {D : Type 0} ⦃d : Double D⦄ (p : Platform) (n involved : ℕ) (tmp : Matrices D)
    (z : IsSized n tmp) (c : Cluster D) (placed : IsPlaced p involved c)
    (vms : length c.vm_list ≡ n) where
  sum_latencies_total :
      (i j : ℕ) (pm : DataOfPm) (rounds k : ℕ) (a : Averages D)
      → IsPm (owner c) i pm
      → j < n
      → k + rounds ≤ pm.number_of_vms
      → (b : Averages D) × (sum_latencies tmp pm j rounds k a ≡ some b)
  unfolding sum_latencies
  sum_latencies_total i j pm zero k a h hj le = (a, refl)
  sum_latencies_total i j pm (suc rounds) k a h hj le =
      let (v, got, own) = listed-owner (owner c) i k pm h (omega arith) in
      let v_lt : v < n = rw (← vms) (owner_bound c v own) in
      let (to, e) = entry_in n tmp.latency v j z.latencies v_lt hj in
      let (from, f) = entry_in n tmp.latency j v z.latencies hj v_lt in
      let (b, done) =
        sum_latencies_total i j pm rounds (k + 1) (add_averages a to from) h hj (omega arith) in
      (b, rw (got, e, f) done)

  averages_total :
      (i j : ℕ) (pm : DataOfPm)
      → IsPm (owner c) i pm
      → j < n
      → (b : Averages D) × (averages tmp pm j ≡ some b)
  unfolding averages
  averages_total i j pm h hj =
      let (b, done) =
        sum_latencies_total i j pm pm.number_of_vms 0 no_averages h hj (omega arith) in
      (mean_latency pm.number_of_vms b, rw done)

  host_cost_total :
      (candidate i : ℕ) (pm : DataOfPm) (rounds j : ℕ) (h : D)
      → IsPm (owner c) i pm
      → candidate < n
      → j + rounds ≤ n
      → (x : D) × (host_cost tmp candidate pm rounds j h ≡ some x)
  unfolding host_cost
  host_cost_total candidate i pm zero j h k lt le = (h, refl)
  host_cost_total candidate i pm (suc rounds) j h k lt le =
      let (a, e) = averages_total i j pm k (omega arith) in
      let (out, f) = entry_in n tmp.rate candidate j z.rates lt (omega arith) in
      let (back, g) = entry_in n tmp.rate j candidate z.rates (omega arith) lt in
      let (x, done) =
        host_cost_total candidate i pm rounds (j + 1) (add_cost h out back a) k lt (omega arith) in
      (x, rw (e, f, g) done)

  pub next_costs_total :
      (same other : D) (candidate rounds i : ℕ)
      → candidate < n
      → i + rounds ≤ involved
      → (costs : List D) × (next_costs p same other n tmp candidate c rounds i ≡ some costs)
        × (length costs ≡ rounds)
  unfolding next_costs
  next_costs_total same other candidate zero i lt le = ([], refl, refl)
  next_costs_total same other candidate (suc rounds) i lt le =
      let (pm, got) = get_elem?-in c.data_of_pms i (rw placed.pms (omega arith)) in
      let (cost, e) =
        host_cost_total candidate i pm n 0 (d.lit 0 0) (placed.known i pm got) lt (omega arith) in
      let (vm, at) = get_elem?-in c.vm_list candidate (rw vms lt) in
      let (rest, f, len) = next_costs_total same other candidate rounds (i + 1) lt (omega arith) in
      (
        add_float cost
              (if is_same_cluster (p.scan_number (p.host_name vm.pm)) i then same else other)
            ∷ rest,
        rw (got, e, at, f),
        omega (arith, len),
      )

-- ===== src/Organizer/NextCost.antt =====
-- The array nextH of `organization_manager` (simgrid/organizer/hpvc.c): what the candidate would
-- cost on each host.
pub mod Total
pub mod SameCluster
use hpv_c.Base.{
  ℕ, zero, suc, ◌+◌, Bool, false, Option, none, some, List, [], ◌∷◌, ltb, ◌&&◌, ◌||◌, get_elem?,
  if◌then◌else◌, ◌>>=◌,
}
use hpv_c.Double.{Double, add_float, mul_float, div_float}
use hpv_c.Placement.Platform.{Platform, DataOfPm, Vm, Cluster}
use hpv_c.Organizer.Matrix.{Matrices, entry, initial_latency}

-- `avg_host_to_j` and `avg_j_to_host`
pub record Averages (D : Type 0) : Type 0 where
  pub host_to_j : D
  pub j_to_host : D

-- `homPM_index`, which stays -1 if the host's name holds no number, and `i`: whether the two are
-- taken to be in one cluster.
unfoldable pub is_same_cluster : Option ℕ → ℕ → Bool
is_same_cluster none i = ltb i 10
is_same_cluster (some home) i = ltb home 10 && ltb i 10 || ltb 10 home && ltb 10 i

module _ {D : Type 0} ⦃d : Double D⦄ where
  abbrev pub add_averages : Averages D → D → D → Averages D
  add_averages a to_j from_j = record {
    host_to_j = add_float a.host_to_j to_j;
    j_to_host = add_float a.j_to_host from_j;
  }

  abbrev pub no_averages : Averages D
  no_averages = record { host_to_j = d.lit 0 0; j_to_host = d.lit 0 0 }

  abbrev pub add_cost : D → ℕ → ℕ → Averages D → D
  add_cost h out back a =
      add_float (add_float h (mul_float (d.narrow (d.of_int out)) a.host_to_j))
        (mul_float (d.narrow (d.of_int back)) a.j_to_host)

  -- The loop over the VMs of a host, from the `k`-th on, with `n` rounds left.
  unfoldable pub sum_latencies :
      Matrices D → DataOfPm → ℕ → ℕ → ℕ → Averages D → Option (Averages D)
  sum_latencies tmp pm j zero k a = some a
  sum_latencies tmp pm j (suc n) k a = do
    agent ← get_elem? pm.vms k
    to_j ← entry tmp.latency agent j
    from_j ← entry tmp.latency j agent
    sum_latencies tmp pm j n (k + 1) (add_averages a to_j from_j)

  abbrev pub mean_latency : ℕ → Averages D → Averages D
  mean_latency n a =
      if ltb 0 n
      then record {
        host_to_j = div_float a.host_to_j (d.narrow (d.of_int n));
        j_to_host = div_float a.j_to_host (d.narrow (d.of_int n));
      }
      else record { host_to_j = initial_latency; j_to_host = initial_latency }

  unfoldable pub averages : Matrices D → DataOfPm → ℕ → Option (Averages D)
  averages tmp pm j = do
    a ← sum_latencies tmp pm j pm.number_of_vms 0 no_averages
    some (mean_latency pm.number_of_vms a)

  -- The loop over the VMs `j` for one host, with `n` rounds left.
  unfoldable pub host_cost : Matrices D → ℕ → DataOfPm → ℕ → ℕ → D → Option D
  host_cost tmp candidate pm zero j h = some h
  host_cost tmp candidate pm (suc n) j h = do
    a ← averages tmp pm j
    out ← entry tmp.rate candidate j
    back ← entry tmp.rate j candidate
    host_cost tmp candidate pm n (j + 1) (add_cost h out back a)

  -- nextH for the hosts from `i` on, `n` of them. The time that the migration stops the VM for is
  -- added at the end, in a loop of its own.
  unfoldable pub next_costs :
      Platform → D → D → ℕ → Matrices D → ℕ → Cluster D → ℕ → ℕ → Option (List D)
  next_costs p same other vms tmp candidate c zero i = some []
  next_costs p same other vms tmp candidate c (suc n) i = do
    pm ← get_elem? c.data_of_pms i
    cost ← host_cost tmp candidate pm vms 0 (d.lit 0 0)
    vm ← get_elem? c.vm_list candidate
    let down = if is_same_cluster (p.scan_number (p.host_name vm.pm)) i then same else other
    rest ← next_costs p same other vms tmp candidate c n (i + 1)
    some (add_float cost down ∷ rest)

-- ===== src/Guest/End.antt =====
-- `destroy_master` of simgrid/organizer: the mean slow down of the processes.
use hpv_c.Base.{
  ℕ, zero, suc, ◌+◌, ◌*◌, ◌≤◌, ◌<◌, ◌≡◌, refl, ◌∙◌, inl, inr, true, some, Option, Option-cases,
  List, [], ◌∷◌, arith, leb, length, get_elem?, ◌>>=◌, ◌>>◌, require,
}
use hpv_c.Double.{Double, IsOrdered}
use hpv_c.Utility.{int_bound}
use hpv_c.Placement.Platform.{DataOfPm}
use hpv_c.Placement.Launch.{SlowDown}
use hpv_c.Guest.Tasks.{ProcessArgv, Setup}
use hpv_c.Guest.Run.{Simulation, Reached}
use hpv_c.Guest.Run.Laws.{Reached-IsLive}
use hpv_c.Guest.Run.Records.{Runs, draws, Recorded, Reached-IsKept}

module _ {D : Type 0} ⦃d : Double D⦄ where
  -- The loop over the slow downs with `n` rounds left.
  unfoldable pub sum_slow_downs : ℕ → ℕ → List (SlowDown D) → D → Option D
  sum_slow_downs zero i slow_downs mean = some mean
  sum_slow_downs (suc n) i slow_downs mean = do
    entry ← get_elem? slow_downs i
    sum_slow_downs n (i + 1) slow_downs (d.add mean (d.div entry.actual_time entry.expected_time))

  -- What is printed. The processes are removed from `slow_down`, and the hosts from `dataOfPMs`; all
  -- VMs are taken from `vm_list` before.
  unfoldable pub destroy_master : ℕ → ℕ → List (SlowDown D) → List DataOfPm → Option D
  destroy_master no_process number_of_involved_host slow_downs data_of_pms = do
    mean ← sum_slow_downs no_process 0 slow_downs (d.lit 0 0)
    require (leb no_process (length slow_downs))
    require (leb number_of_involved_host (length data_of_pms))
    some (d.div mean (d.of_int no_process))

  -- The sum of the slow downs, in their order.
  unfoldable pub total_slow_down : List (SlowDown D) → D → D
  total_slow_down [] total = total
  total_slow_down (entry ∷ rest) total =
      total_slow_down rest (d.add total (d.div entry.actual_time entry.expected_time))

  sum_slow_downs-tail :
      (n i : ℕ) (entry : SlowDown D) (rest : List (SlowDown D)) (mean : D)
      → sum_slow_downs n (suc i) (entry ∷ rest) mean ≡ sum_slow_downs n i rest mean
  unfolding sum_slow_downs
  sum_slow_downs-tail zero i entry rest mean = refl
  sum_slow_downs-tail (suc n) i entry rest mean = elim (Option-cases (get_elem? rest i)) [
    | inl out ↦ rw out refl
    | inr (next, got) ↦
        let shift : suc i + 1 ≡ suc (i + 1) = omega arith in
        rw (got, shift) (sum_slow_downs-tail n (i + 1) entry rest _)
  ]

  sum_slow_downs-total_slow_down :
      (slow_downs : List (SlowDown D)) (mean : D)
      → sum_slow_downs (length slow_downs) 0 slow_downs mean
        ≡ some (total_slow_down slow_downs mean)
  unfolding sum_slow_downs total_slow_down
  sum_slow_downs-total_slow_down [] mean = refl
  sum_slow_downs-total_slow_down (entry ∷ rest) mean =
      sum_slow_downs-tail (length rest) 0 entry rest _ ∙ sum_slow_downs-total_slow_down rest _

  destroy_master-mean :
      (n involved : ℕ) (slow_downs : List (SlowDown D)) (data_of_pms : List DataOfPm)
      → length slow_downs ≡ n
      → involved ≤ length data_of_pms
      → destroy_master n involved slow_downs data_of_pms
        ≡ some (d.div (total_slow_down slow_downs (d.lit 0 0)) (d.of_int n))
  unfolding destroy_master
  destroy_master-mean n involved slow_downs data_of_pms size hosts =
      let summed = sum_slow_downs-total_slow_down slow_downs (d.lit 0 0) in
      let some_processes : leb n (length slow_downs) ≡ true = ground arith in
      let some_hosts : leb involved (length data_of_pms) ≡ true = ground arith in
      rw (some_processes, some_hosts, rw size at summed) refl

Runs-none : (i : ℕ) (running : List ProcessArgv) → length running ≡ 0 → Runs i running → ⊥
Runs-none i [] none_left runs = runs
Runs-none i (a ∷ rest) none_left runs = omega (arith, none_left)

-- Once the processes of a run have all sent "fin", `destroy_master` does not fault, where every host has
-- its data, and prints the mean of the slow downs in their order; the entry of each process i has the
-- expected time of the needs that the i-th draw of the run gives, which it was created with. (There are VMs, `<` is the order of numbers,
-- and four times the number of processes, and 4 more, is an int.)
pub destroy_master-Recorded :
    {D : Type 0} ⦃d : Double D⦄ (s : Setup D) {m : Simulation D} (involved : ℕ)
    (data_of_pms : List DataOfPm)
    → IsOrdered D
    → 4 * s.number_of_processes + 4 < int_bound
    → 0 < s.number_of_vms
    → (r : Reached s m) → m.received ≡ s.number_of_processes
    → involved ≤ length data_of_pms
    → (destroy_master s.number_of_processes involved m.guest.slow_down data_of_pms
        ≡ some (
            d.div (total_slow_down m.guest.slow_down (d.lit 0 0)) (d.of_int s.number_of_processes)))
      × (length m.guest.slow_down ≡ s.number_of_processes)
      × ((i : ℕ) → i < s.number_of_processes → Recorded s (draws s r) m.guest.slow_down i)
destroy_master-Recorded s {m} involved data_of_pms laws room some_vm r done hosts =
    let l = Reached-IsLive s laws room some_vm r in
    (
      destroy_master-mean s.number_of_processes involved m.guest.slow_down data_of_pms l.slots
          hosts,
      l.slots,
      λ i lt. elim ((Reached-IsKept s r).kept i (omega (arith, lt, done, l.balance))) [
        | inl runs ↦
            absurd (Runs-none i m.guest.running (omega (arith, done, l.balance, l.all)) runs)
        | inr known ↦ known
      ],
    )

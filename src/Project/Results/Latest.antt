-- ===== src/Project/Results/Latest.antt =====
-- The latest finish time of the first cluster.
use hpv_c.Base.{
  ℕ, zero, suc, ◌+◌, ◌-◌, ◌*◌, ◌≤◌, ◌<◌, ◌≡◌, refl, ap, sym, ◌∙◌, ◌⊎◌, inl, inr, false, Bool-cases,
  some, List, arith, lt→ltb, ◌==◌, length, get_elem?, get_elem?-in, if◌then◌else◌,
}
use hpv_c.Double.{Double, IsOrdered}
use hpv_c.Utility.{int_bound}
use hpv_c.Placement.Launch.{SlowDown}
use hpv_c.Project.Results.{
  Totals, FinishTimes, Statistics, add_times, sum_times, add_finish, sum_finish, no_totals,
  no_finish, statistics, destroy_master,
}

module _ {D : Type 0} ⦃d : Double D⦄ where
  sum_times_total :
      (n i : ℕ) (slow_downs : List (SlowDown D)) (t : Totals D)
      → i + n ≤ length slow_downs
      → (t' : Totals D) × (sum_times n i slow_downs t ≡ some t')
  unfolding sum_times
  sum_times_total zero i slow_downs t room = (t, refl)
  sum_times_total (suc n) i slow_downs t room =
      let (s, got) = get_elem?-in slow_downs i (omega arith) in
      let (t', e) = sum_times_total n (i + 1) slow_downs (add_times s t) (omega arith) in
      (t', rw got e)

  abbrev later_of : D → D → D
  later_of a b = if d.lt a b then b else a

  -- The time is the latest of those from `i` on, `n` of them, and of the one before.
  pub record IsLatest (n i : ℕ) (times : List D) (before latest : D) : Type 0 where
    pub after : d.lt latest before ≡ false
    pub greatest :
        (j : ℕ) (time : D)
        → i ≤ j
        → j < i + n
        → get_elem? times j ≡ some time
        → d.lt latest time ≡ false
    pub chosen :
        (latest ≡ before) ⊎ ((j : ℕ) × (i ≤ j) × (j < i + n) × (get_elem? times j ≡ some latest))

  module _ (laws : IsOrdered D) where
    later_of_lem :
        (a b : D)
        → (d.lt (later_of a b) a ≡ false)
          × (d.lt (later_of a b) b ≡ false)
          × ((later_of a b ≡ a) ⊎ (later_of a b ≡ b))
    later_of_lem a b = elim (Bool-cases (d.lt a b)) [
      | inl less ↦ rw less (ground (arith, laws.ge_total a b), laws.lt_irrefl b, inr refl)
      | inr ge ↦ rw ge (laws.lt_irrefl a, ge, inl refl)
    ]

    IsLatest-earlier :
        (n i : ℕ) (times : List D) (before first latest : D)
        → get_elem? times i ≡ some first
        → IsLatest n (i + 1) times (later_of before first) latest
        → IsLatest (suc n) i times before latest
    IsLatest-earlier n i times before first latest got l =
        let (not_before, not_first, which) = later_of_lem before first in
        record {
          after = laws.ge_trans latest (later_of before first) before l.after not_before;
          greatest = λ j time lo hi at. elim (Bool-cases (j == i)) [
            | inl here ↦
                let place : j ≡ i = ground arith in
                let same : first ≡ time = cc (rw place at at, got) in
                rw same at (laws.ge_trans latest (later_of before first) first l.after not_first)
            | inr other ↦ l.greatest j time (ground arith) (omega arith) at
          ];
          chosen = elim l.chosen [
            | inl none_later ↦ elim which [
              | inl old ↦ inl (none_later ∙ old)
              | inr new ↦ inr (i, omega arith, omega arith, got ∙ ap some (sym (none_later ∙ new)))
            ]
            | inr (j, lo, hi, at) ↦ inr (j, omega arith, omega arith, at)
          ];
        }

    sum_finish-IsLatest :
        (n i : ℕ) (finish0s finish1s : List D) (f : FinishTimes D)
        → i + n ≤ length finish0s
        → i + n ≤ length finish1s
        → (f' : FinishTimes D) × (sum_finish n i finish0s finish1s f ≡ some f')
          × IsLatest n i finish0s f.max_finish_time f'.max_finish_time
    unfolding sum_finish
    sum_finish-IsLatest zero i finish0s finish1s f room0 room1 = (
      f,
      refl,
      record {
        after = laws.lt_irrefl f.max_finish_time;
        greatest = λ j time lo hi got. absurd (omega arith);
        chosen = inl refl;
      },
    )
    sum_finish-IsLatest (suc n) i finish0s finish1s f room0 room1 =
        let (finish0, got0) = get_elem?-in finish0s i (omega arith) in
        let (finish1, got1) = get_elem?-in finish1s i (omega arith) in
        let (f', e, l) =
          sum_finish-IsLatest n (i + 1) finish0s finish1s (add_finish i finish0 finish1 f)
            (omega arith) (omega arith) in
        (
          f',
          rw (got0, got1) e,
          IsLatest-earlier n i finish0s f.max_finish_time finish0 f'.max_finish_time got0 l,
        )

  -- If `<` is that of numbers, and every process has its slow down and its finish times, the
  -- statistics of the first cluster are made without a fault, the number of ordered pairs of processes
  -- being an int. The finish time that is printed is one of those of the processes or 0, and none of
  -- them, nor 0, is later.
  pub destroy_master-IsLatest :
      IsOrdered D
      → (no_process : ℕ) (slow_downs : List (SlowDown D)) (finish0s finish1s : List D)
      → no_process ≤ length slow_downs
      → no_process ≤ length finish0s
      → no_process ≤ length finish1s
      → no_process * (no_process - 1) < int_bound
      → (s : Statistics D) × (destroy_master no_process 0 slow_downs finish0s finish1s ≡ some s)
        × IsLatest no_process 0 finish0s (d.lit 0 0) s.max_finish_time
  unfolding destroy_master
  destroy_master-IsLatest laws no_process slow_downs finish0s finish1s slow room0 room1 pairs =
      let (t, e) = sum_times_total no_process 0 slow_downs no_totals (omega arith) in
      let (f, g, l) =
        sum_finish-IsLatest laws no_process 0 finish0s finish1s no_finish (omega arith)
          (omega arith) in
      (
        statistics no_process (no_process * (no_process - 1)) t f,
        rw (e, g, lt→ltb (no_process * (no_process - 1)) int_bound pairs) refl,
        l,
      )

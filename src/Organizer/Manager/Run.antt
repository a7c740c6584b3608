-- ===== src/Organizer/Manager/Run.antt =====
-- The organizer beside the processes that send: any order of sends and periods.
use hpv_c.Base.{
  ℕ, ◌+◌, ◌*◌, ◌≤◌, ◌<◌, ◌≡◌, refl, true, Option, some, List, [], ◌∷◌, arith, All, length, ◌>>=◌,
}
use hpv_c.Double.{Double}
use hpv_c.Utility.{int_bound}
use hpv_c.Placement.Platform.{NamesDiffer, pm_capacity}
use hpv_c.Placement.Launch.{Launched, launch_master}
use hpv_c.Placement.Launch.Laws.{launch_master-IsPlaced}
use hpv_c.Organizer.Matrix.{entry, create_organization_matrix, create_organization_matrix-IsSized}
use hpv_c.Organizer.Period.{blend_fits, blend_rate, remember, clear, clear_below}
use hpv_c.Organizer.Period.Rates.{blends_fit_lem, remember_below}
use hpv_c.Organizer.Send.{Sending, send_task}
use hpv_c.Organizer.Send.History.{IsWithin, RatesBelow, send_task-Sent, created_below}
use hpv_c.Organizer.Manager.{Settings, Organizer, start, organize}
use hpv_c.Organizer.Manager.Period.{IsProper, IsReady, Outcome-after, organize-Outcome}

pub data Event (D : Type 0) : Type 0 where
  sends : Sending D → Event D
  period : Event D

-- No blend of rates below the limit passes it, or leaves the ints.
abbrev pub StaysBelow : {D : Type 0} ⦃d : Double D⦄ → D → ℕ → Type 0
StaysBelow alpha limit =
    (a b : ℕ)
    → a < limit
    → b < limit
    → (blend_fits alpha a b ≡ true) × (blend_rate alpha a b < limit)

subst_measured :
    {D : Type 0} ⦃d : Double D⦄ (o' o : Organizer D) (i j r : ℕ)
    → o'.measured ≡ clear o.measured
    → entry o'.measured.rate i j ≡ some r
    → entry (clear o.measured).rate i j ≡ some r
subst_measured o' o i j r e at = rw e at at

subst_tmp :
    {D : Type 0} ⦃d : Double D⦄ (alpha : D) (o' o : Organizer D) (i j r : ℕ)
    → o'.tmp ≡ remember alpha o.tmp o.measured
    → entry o'.tmp.rate i j ≡ some r
    → entry (remember alpha o.tmp o.measured).rate i j ≡ some r
subst_tmp alpha o' o i j r e at = rw e at at

module _ {D : Type 0} ⦃d : Double D⦄ (s : Settings D) where
  unfoldable pub step : Event D → Organizer D → Option (Organizer D)
  step (sends x) o = do (is_ok, size, m) ← send_task x o.measured; some (record o { measured = m })
  step period o = organize s o

  unfoldable pub run : List (Event D) → Organizer D → Option (Organizer D)
  run [] o = some o
  run (e ∷ es) o = do o' ← step e o; run es o'

  -- A send names VMs that exist.
  abbrev pub EventWithin : Event D → Type 0
  EventWithin (sends x) = IsWithin s.number_of_vms x
  EventWithin period = Unit

  -- A good state in which `b` bounds the rates and the number of migrations, and `limit` the rates
  -- that are remembered.
  record IsBounded (limit b : ℕ) (o : Organizer D) : Type 0 where
    pub ready : IsReady s o
    pub rates : RatesBelow b o.measured
    pub tmp_rates : RatesBelow limit o.tmp
    pub migrations : o.migrate_counter + 1 < b

  step-IsBounded :
      (e : Event D) (limit b : ℕ) (o : Organizer D)
      → IsProper s
      → limit < int_bound
      → StaysBelow s.alpha limit
      → b < limit
      → EventWithin e
      → IsBounded limit b o
      → (o' : Organizer D) × (step e o ≡ some o') × IsBounded limit (b + 1) o'
  unfolding step
  step-IsBounded (sends x) limit b o proper ints stays fits w k =
      let (m, done, sent) =
        send_task-Sent s.number_of_vms b x o.measured k.ready.measured k.rates (omega arith) w in
      (
        record o { measured = m },
        rw done,
        record {
          ready = record {
            placed = k.ready.placed;
            vms = k.ready.vms;
            measured = sent.sized;
            tmp = k.ready.tmp;
          };
          rates = sent.below;
          tmp_rates = k.tmp_rates;
          migrations = omega (arith, k.migrations);
        },
      )
  step-IsBounded period limit b o proper ints stays fits w k =
      let (o', done, ready, out) =
        organize-Outcome s o proper k.ready (omega (arith, k.migrations)) (
          blends_fit_lem s.alpha o.tmp.rate o.measured.rate (λ i j p q e g.
            (stays p q (k.tmp_rates i j p e) (omega (arith, k.rates i j q g))).0)) in
      let after = Outcome-after s o o' out in
      (
        o',
        done,
        record {
          ready = ready;
          rates = λ i j r e. omega (
            arith,
            clear_below o.measured i j r (subst_measured o' o i j r after.0 e),
            k.migrations,
          );
          tmp_rates = λ i j r e.
              remember_below s.alpha s.number_of_vms limit o.tmp o.measured k.ready.tmp
                k.ready.measured (λ p q lp lq. (stays p q lp lq).1) k.tmp_rates
                (λ i j q g. omega (arith, k.rates i j q g)) i j r
                (subst_tmp s.alpha o' o i j r after.1 e);
          migrations = omega (arith, after.2, k.migrations);
        },
      )

  run-IsReady :
      (es : List (Event D)) (limit b : ℕ) (o : Organizer D)
      → IsProper s
      → limit < int_bound
      → StaysBelow s.alpha limit
      → b + length es ≤ limit
      → All EventWithin es
      → IsBounded limit b o
      → (o' : Organizer D) × (run es o ≡ some o') × IsReady s o'
  unfolding run
  run-IsReady [] limit b o proper ints stays fits w k = (o, refl, k.ready)
  run-IsReady (e ∷ es) limit b o proper ints stays fits w k =
      let (o1, done, k1) = step-IsBounded e limit b o proper ints stays (omega arith) w.0 k in
      let (o', rest, ready) =
        run-IsReady es limit (b + 1) o1 proper ints stays (omega arith) w.1 k1 in
      (o', rw done rest, ready)

start_below :
    (D : Type 0) ⦃d : Double D⦄ (n i j r : ℕ)
    → entry (create_organization_matrix {D = D} n).rate i j ≡ some r
    → r < 2
unfolding create_organization_matrix
start_below D n i j r e = created_below n i j r e

-- On a platform whose host names differ, with `per` VMs for each of the involved hosts, from 1 to
-- 5, and one host more: after `launch_master` and `create_organization_matrix`, no sequence of sends
-- between the VMs and organizing periods that is two shorter than a limit faults, if the limit is an
-- int and ALPHA blends no two rates below it to one that is not below it or is no int, in whatever order they
-- come, and the state that it ends in is good: the placement is consistent, so that each VM is
-- listed by its own PM once and by no other and no PM has more than 5, no VM is lost, and the
-- matrices have an entry for each pair of VMs.
pub run_launched :
    {D : Type 0} ⦃d : Double D⦄ (s : Settings D) (per no_process limit : ℕ) (host_speed : D)
    (es : List (Event D))
    → NamesDiffer s.platform
    → 0 < s.involved
    → s.involved < s.platform.number_of_hosts
    → 0 < per
    → per ≤ pm_capacity
    → s.number_of_vms ≡ s.involved * per
    → length es + 2 ≤ limit
    → limit < int_bound
    → StaysBelow s.alpha limit
    → All (EventWithin s) es
    → (l : Launched D) × (o : Organizer D) × (launch_master s.platform host_speed s.involved
          s.number_of_vms no_process
        ≡ some l)
      × (run s es (start s l.cluster (create_organization_matrix s.number_of_vms)) ≡ some o)
      × IsReady s o
unfolding start
run_launched {D} s per no_process limit host_speed es names pos hosts used fits vms few ints stays
      w =
    let (l, done, placed, owners, loads, count, slow, balancer) =
      launch_master-IsPlaced s.platform host_speed s.involved per no_process pos hosts used fits in
    let proper : IsProper s = record {
      names = names;
      hosts = omega arith;
      some_vm = rw vms (grind arith);
    } in
    let first : IsBounded s limit 2
        (start s l.cluster (create_organization_matrix s.number_of_vms)) =
      record {
        ready = record {
          placed = placed;
          vms = rw vms count;
          measured = create_organization_matrix-IsSized s.number_of_vms;
          tmp = create_organization_matrix-IsSized s.number_of_vms;
        };
        rates = λ i j r e. start_below D s.number_of_vms i j r e;
        tmp_rates = λ i j r e. omega (arith, start_below D s.number_of_vms i j r e);
        migrations = omega arith;
      } in
    let (o, ran, ready) = run-IsReady s es limit 2 _ proper ints stays (omega arith) w first in
    (l, o, rw vms done, ran, ready)

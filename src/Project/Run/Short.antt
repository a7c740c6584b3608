-- ===== src/Project/Run/Short.antt =====
-- The run of the two clusters after a launch of the second that leaves VMs out.
use hpv_c.Base.{
  subst, ap_some, sym, store, Option, ℕ, ◌+◌, ◌*◌, ◌/◌, ◌%◌, ◌≤◌, ◌<◌, ◌≡◌, refl, ◌∙◌, ap, min,
  Bool, true, false, none, some, List, arith, length, length-set, get_elem?, get_elem?_bound,
  length-without, without, ◌==◌, >>=-eq-some,
}
use native.Mathlib.Nat.{mod-eq_of_lt}
use hpv_c.Double.{Double}
use hpv_c.Project.Pool.{max_vm_to_pm}
use hpv_c.Project.Launch.{Launched, launch_master}
use hpv_c.Project.Launch.Laws.{launch_master-IsStarted}
use hpv_c.Project.Balance.{serve_request}
use hpv_c.Project.Need.{request_of}
use hpv_c.Project.Results.{home_vm}
use hpv_c.Project.Tasks.{
  Draw, ProcessArgv, Cluster, Clusters, Setup, need_of, cluster_of, with_cluster, create_first,
  create_second, finish_in, finish_task,
}
use hpv_c.Project.Run.{
  Simulation, Step, creates_first, creates_second, finishes, closes_first, ends_balancer,
  closes_second, sets_finish, Reached, starts, steps,
}
use hpv_c.Project.Run.Live.{half}
use hpv_c.Project.Run.Laws.{length-create_mailbox_processes}

module _ {D : Type 0} ⦃d : Double D⦄ (s : Setup D) where
  create_first-kept :
      (i : ℕ) (x : Draw D) (w : Clusters D) {w' : Clusters D}
      → create_first s i x w ≡ some w'
      → (w'.second ≡ w.second) × (length w'.running ≡ length w.running + 1)
  unfolding create_first
  create_first-kept i x w {w'} made =
      let (o, served, rest) =
        >>=-eq-some
          (serve_request s.dbl_max w.first.vms 0 (request_of (need_of s x.rand_task x.r x.m x.c))
            w.balancer)
          _ made in
      let (b, known, more) = >>=-eq-some o _ rest in
      let (host, got, done) = >>=-eq-some (get_elem? w.first.vms b.selected_vm_number) _ more in
      (sym (ap_some (λ u. u.second) done), ground (arith, ap_some (λ u. length u.running) done))

  home_vm_below : (i : ℕ) → i < s.number_of_vms → home_vm s.number_of_vms i ≡ some i
  unfolding home_vm
  home_vm_below i lt =
      let some_vms : (s.number_of_vms == 0) ≡ false = ground arith in
      rw (some_vms, mod-eq_of_lt lt) refl

  create_second-kept :
      (i : ℕ) (x : Draw D) (w : Clusters D) {w' : Clusters D}
      → i < s.number_of_vms
      → create_second s i x w ≡ some w'
      → (i < length w.second.vms)
        × (length w'.second.vms ≡ length w.second.vms)
        × (length w'.running ≡ length w.running + 1)
  unfolding create_second
  create_second-kept i x w lt made =
      let (home, is_home, rest) = >>=-eq-some (home_vm s.number_of_vms i) _ made in
      let (host, got, done) = >>=-eq-some (get_elem? w.second.vms home) _ rest in
      let here : i ≡ home = ap_some (λ k. k) (sym (home_vm_below i lt) ∙ is_home) in
      (
        omega (arith, get_elem?_bound w.second.vms home got, here),
        sym (ap_some (λ u. length u.second.vms) done) ∙ length-set w.second.vms home _,
        ground (arith, ap_some (λ u. length u.running) done),
      )

  finish_in-kept :
      (a : ProcessArgv D) (actual finish_time : D) (c : Cluster D) {c' : Cluster D}
      → finish_in s a actual finish_time c ≡ some c'
      → length c'.vms ≡ length c.vms
  unfolding finish_in
  finish_in-kept a actual finish_time c made =
      let (target, there, rest) = >>=-eq-some (get_elem? c.vms a.target_mailbox) _ made in
      let (times, stored, more) =
        >>=-eq-some (store c.finish_times a.process_sequence finish_time) _ rest in
      let (slow_down, kept, last) = >>=-eq-some (store c.slow_down a.process_sequence _) _ more in
      let (host, got, done) = >>=-eq-some (get_elem? c.vms a.home_vm) _ last in
      sym (ap_some (λ u. length u.vms) done) ∙ length-set c.vms a.home_vm _

  with_cluster-kept :
      (b : Bool) (c : Cluster D) (running : List (ProcessArgv D)) (w : Clusters D)
      → length c.vms ≡ length (cluster_of b w).vms
      → (length (with_cluster b c running w).second.vms ≡ length w.second.vms)
        × ((with_cluster b c running w).running ≡ running)
  with_cluster-kept true c running w same = (refl, refl)
  with_cluster-kept false c running w same = (same, refl)

  finish_task-kept :
      (q : ℕ) (actual finish_time : D) (w : Clusters D) {w' : Clusters D}
      → finish_task s q actual finish_time w ≡ some w'
      → (length w'.second.vms ≡ length w.second.vms) × (length w.running ≡ length w'.running + 1)
  unfolding finish_task
  finish_task-kept q actual finish_time w made =
      let (a, at, rest) = >>=-eq-some (get_elem? w.running q) _ made in
      let b = a.cluster_id == 0 in
      let (c, ended, done) =
        >>=-eq-some (finish_in s a actual finish_time (cluster_of b w)) _ rest in
      let (size, less) =
        with_cluster-kept b c (without q w.running) w
          (finish_in-kept a actual finish_time (cluster_of b w) ended) in
      (
        sym (ap_some (λ u. length u.second.vms) done) ∙ size,
        omega (
          arith,
          length-without q w.running at,
          ap length less,
          ap_some (λ u. length u.running) done,
        ),
      )

-- Before the process of the first VM that was left out.
pub record IsShort {D : Type 0} (started : ℕ) (m : Simulation D) : Type 0 where
  pub size : length m.clusters.second.vms ≡ started
  pub few : m.created ≤ started
  pub balance : 2 * m.created + half m.pending ≡ m.received + length m.clusters.running
  pub unfinished : m.finish ≡ false

module _ {D : Type 0} ⦃d : Double D⦄ (s : Setup D) (started : ℕ)
    (left_out : started < s.number_of_vms) (more : started < s.final_processes) where
  half_le : {D : Type 0} (pending : Option (Draw D)) → half pending ≤ 1
  half_le none = omega arith
  half_le (some x) = omega arith

  -- Not all processes can have sent "fin".
  received_short : (m : Simulation D) → IsShort started m → m.received ≡ 2 * s.final_processes → ⊥
  received_short m l done = omega (arith, l.balance, l.few, half_le m.pending)

  Step-IsShort : {m m' : Simulation D} → Step s m m' → IsShort started m → IsShort started m'
  Step-IsShort {m} (creates_first {w = w} x left idle aimed made) l =
      let (second, longer) = create_first-kept s m.created x m.clusters made in
      let none_half : half m.pending ≡ 0 = rw idle refl in
      record {
        size = ap (λ c. length c.vms) second ∙ l.size;
        few = l.few;
        balance = omega (arith, l.balance, longer, none_half);
        unfinished = l.unfinished;
      }
  Step-IsShort {m} (creates_second {w = w} x known made) l =
      let (below, same, longer) =
        create_second-kept s m.created x m.clusters (omega (arith, l.few)) made in
      let one_half : half m.pending ≡ 1 = rw known refl in
      record {
        size = same ∙ l.size;
        few = omega (arith, below, l.size);
        balance = omega (arith, l.balance, longer, one_half);
        unfinished = l.unfinished;
      }
  Step-IsShort {m} (finishes {w = w} q actual finish_time made) l =
      let (same, less) = finish_task-kept s q actual finish_time m.clusters made in
      record {
        size = same ∙ l.size;
        few = l.few;
        balance = omega (arith, l.balance, less);
        unfinished = l.unfinished;
      }
  Step-IsShort {m} (closes_first done left got) l = absurd (received_short m l done)
  Step-IsShort {m} (ends_balancer done closed serving) l = absurd (received_short m l done)
  Step-IsShort {m} (closes_second done told left got) l = absurd (received_short m l done)
  Step-IsShort {m} (sets_finish done told closed) l = absurd (received_short m l done)

Reached-IsShort :
    {D : Type 0} ⦃d : Double D⦄ (s : Setup D) {l0 l1 : Launched D} {m : Simulation D}
    → length l1.pool.vms < s.number_of_vms
    → length l1.pool.vms < s.final_processes
    → Reached s l0 l1 m
    → IsShort (length l1.pool.vms) m
Reached-IsShort s {l1 = l1} left_out more starts = record {
  size = length-create_mailbox_processes l1.pool.vms;
  few = omega arith;
  balance = refl;
  unfinished = refl;
}
Reached-IsShort s {l1 = l1} left_out more (steps r st) =
    Step-IsShort s (length l1.pool.vms) left_out more st (Reached-IsShort s left_out more r)

-- The VMs of the second cluster, as many as `main` is given, do not divide evenly among its hosts, with
-- 4 each at most, and some remain when every host with an odd number has taken one VM more. If
-- `create_tasks` is given more VMs than are started then, and `get_finalize` more processes, wherever a
-- run of the two clusters comes to, no more processes than VMs are started were created in the second
-- cluster, and "finish" is not set.
pub clusters_short :
    {D : Type 0} ⦃d : Double D⦄ (s : Setup D) (vm_cores hosts : ℕ) (host_speed : D)
    (involved total_cluster_host no_vm no_process : ℕ) {l0 l1 : Launched D} {m : Simulation D}
    → 0 < involved
    → total_cluster_host + involved ≤ hosts
    → no_vm / involved + 1 ≤ max_vm_to_pm
    → 0 < no_vm % involved
    → involved * (no_vm / involved) + (involved + total_cluster_host % 2) / 2 < no_vm
    → involved * (no_vm / involved) + (involved + total_cluster_host % 2) / 2 < s.number_of_vms
    → involved * (no_vm / involved) + (involved + total_cluster_host % 2) / 2 < s.final_processes
    → launch_master vm_cores hosts host_speed involved total_cluster_host no_vm no_process 1
      ≡ some l1
    → Reached s l0 l1 m
    → (m.created ≤ involved * (no_vm / involved) + (involved + total_cluster_host % 2) / 2)
      × (m.finish ≡ false)
clusters_short s vm_cores hosts host_speed involved total_cluster_host no_vm no_process {l1 = l1}
      some_hosts platform share odd remain left_out more launch1 r =
    let is_odd : (no_vm % involved == 0) ≡ false = ground arith in
    let one : 1 * total_cluster_host ≡ total_cluster_host = omega arith in
    let (l', made', _, count, _, _) =
      launch_master-IsStarted vm_cores hosts host_speed involved total_cluster_host no_vm no_process
        1 some_hosts (omega (arith, platform)) (rw is_odd share) in
    let same : l' ≡ l1 = cc in
    let counted =
      subst
        (λ x.
          length x.pool.vms
          ≡ min (involved * (no_vm / involved) + (involved + total_cluster_host % 2) / 2) no_vm)
        same (rw (is_odd, one) at count) in
    let started : length l1.pool.vms
        ≡ involved * (no_vm / involved) + (involved + total_cluster_host % 2) / 2 =
      omega (arith, counted, remain) in
    let l = Reached-IsShort s (omega (arith, started, left_out)) (omega (arith, started, more)) r in
    (omega (arith, l.few, started), l.unfinished)

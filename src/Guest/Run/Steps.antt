-- ===== src/Guest/Run/Steps.antt =====
-- Each step of the run keeps the invariant, and the steps of a process do not fault.
use hpv_c.Base.{
  ℕ, ◌+◌, ◌-◌, ◌*◌, ◌%◌, ◌≤◌, ◌<◌, ◌≡◌, refl, false, sym, ◌∙◌, inl, inr, some, List, ◌∷◌, arith,
  ltb, lt→ltb, ◌==◌, if◌then◌else◌, Bool-cases, length, set, length-set, get_elem?-set, get_elem?,
  get_elem?-in, get_elem?_bound, without, length-without, All-get, All-without, >>=-eq-some,
}
use native.Mathlib.Nat.{mod-lt, mod-eq_of_lt}
use hpv_c.Double.{Double, IsOrdered}
use hpv_c.Utility.{int_bound}
use hpv_c.Placement.Launch.{SlowDown}
use hpv_c.Guest.Balance.{Load, Balancer}
use hpv_c.Guest.Balance.Least.{Assigned, assign-Assigned}
use hpv_c.Guest.Tasks.{
  Draw, ProcessArgv, Guest, Setup, request_of, argv_of, need_of, draw_of, add_process, drop_process,
  create_task, finish_task,
}
use hpv_c.Guest.Run.{Simulation, close_mailbox, Step, creates, finishes, closes}
use hpv_c.Guest.Run.Live.{running_on, running_on-length, running_on-without, IsWell, Jobs, IsLive}

module _ {D : Type 0} ⦃d : Double D⦄ (s : Setup D) where
  -- Only the jobs of the VM at `h` change.
  Jobs-set :
      (vms : List (Load D)) (running running' : List ProcessArgv) (closed closed' h : ℕ)
      (vm' : Load D)
      → h < length vms
      → Jobs s vms running closed
      → vm'.jobs ≡ (if ltb h closed' then 0 else 1) + running_on h running'
      → ((v : ℕ)
          → ((h == v) ≡ false)
          → (if ltb v closed then 0 else 1) + running_on v running
            ≡ (if ltb v closed' then 0 else 1) + running_on v running')
      → Jobs s (set vms h vm') running' closed'
  Jobs-set vms running running' closed closed' h vm' lt jobs here others v vm at =
      elim (Bool-cases (h == v)) [
        | inl e ↦
            let same : vm' ≡ vm = cc (rw e at (get_elem?-set vms h v vm' lt), at) in
            let place : h ≡ v = ground arith in rw (← same, ← place) here
        | inr ne ↦
            let got : get_elem? vms v ≡ some vm =
              sym (rw ne at (get_elem?-set vms h v vm' lt)) ∙ at in
            omega (arith, jobs v vm got, others v ne)
      ]

  answered_limit :
      (vms : List (Load D)) (running : List ProcessArgv) (closed created : ℕ) (x : Draw)
      (b b' : Balancer)
      → Assigned s.dbl_max vms (request_of s x) b b'
      → Jobs s vms running closed
      → length running ≤ created
      → 0 < b.max_guest_job
      → b.max_guest_job ≤ 2 * created + 2
      → (0 < b'.max_guest_job) × (b'.max_guest_job ≤ 2 * (created + 1) + 2)
  answered_limit vms running closed created x b b' a jobs few pos doubled = elim a.choice [
    | inl (same, dear) ↦ rw same (pos, omega arith)
    | inr (vm, got, least, max) ↦
        let load = jobs b'.selected_vm_number vm got in
        let on = running_on-length b'.selected_vm_number running in ground (arith, load, on, max)
  ]

  pub create_task-IsLive :
      (m : Simulation D) (x : Draw)
      → IsOrdered D
      → 4 * s.number_of_processes + 4 < int_bound
      → m.created < s.number_of_processes
      → IsLive s m
      → (g : Guest D) × (create_task s m.created x m.guest ≡ some g)
        × IsLive s (record m { guest = g; created = m.created + 1 })
  unfolding create_task
  create_task-IsLive m x laws room left l =
      let b = m.guest.balancer in
      let vms = m.guest.vms in
      let some_vm : 0 < s.number_of_vms = omega (arith, l.selected) in
      let few : length m.guest.running ≤ m.created = omega (arith, l.balance) in
      let (b', answered, a) =
        assign-Assigned s.dbl_max vms (request_of s x) b laws (omega (arith, l.size, l.selected))
          l.limit (omega (arith, l.doubled)) in
      let (limit, doubled) =
        answered_limit vms m.guest.running m.closed m.created x b b' a l.jobs few l.limit
          l.doubled in
      let h = b'.selected_vm_number in
      let (host, got) = get_elem?-in vms h a.in_vms in
      let in_range : h < s.number_of_vms = omega (arith, a.in_vms, l.size) in
      let home : h % s.number_of_vms ≡ h = mod-eq_of_lt in_range in
      let host' : Load D = add_process s (need_of s x) host in
      let running' : List ProcessArgv = argv_of s m.created x h ∷ m.guest.running in
      (
        record m.guest { vms = set vms h host'; balancer = b'; running = running' },
        rw (answered, lt→ltb 0 s.number_of_vms some_vm, got) refl,
        record {
          size = length-set vms h host' ∙ l.size;
          slots = l.slots;
          jobs =
              Jobs-set vms m.guest.running running' m.closed m.closed h host' a.in_vms l.jobs
                (ground (arith, home, l.jobs h host got)) (λ v ne. ground (arith, home));
          well = ((rw home in_range, mod-lt x.target_mailbox some_vm, left), l.well);
          balance = omega (arith, l.balance);
          all = omega arith;
          selected = in_range;
          limit = limit;
          doubled = doubled;
          closing = l.closing;
        },
      )

  pub finish_task-IsLive :
      (m : Simulation D) (q : ℕ) (actual : D)
      → q < length m.guest.running
      → IsLive s m
      → (g : Guest D) × (finish_task s q actual m.guest ≡ some g)
        × IsLive s (record m { guest = g; received = m.received + 1 })
  unfolding finish_task
  finish_task-IsLive m q actual in_running l =
      let vms = m.guest.vms in
      let running = m.guest.running in
      let running' : List ProcessArgv = without q running in
      let (a, at) = get_elem?-in running q in_running in
      let (in_vms, target, slot) = All-get (IsWell s) running q l.well at in
      let lt : a.home_vm < length vms = omega (arith, l.size) in
      let (host, got) = get_elem?-in vms a.home_vm lt in
      let host' : Load D = drop_process s (need_of s (draw_of s a)) host in
      let entry : SlowDown D = record {
        actual_time = actual;
        expected_time = (need_of s (draw_of s a)).expected_time;
      } in
      (
        record m.guest {
          vms = set vms a.home_vm host';
          slow_down = set m.guest.slow_down a.process_sequence entry;
          running = running';
        },
        rw (at, got, lt→ltb a.process_sequence (length m.guest.slow_down) (omega (arith, l.slots)))
            refl,
        record {
          size = length-set vms a.home_vm host' ∙ l.size;
          slots = length-set m.guest.slow_down a.process_sequence entry ∙ l.slots;
          jobs =
              Jobs-set vms running running' m.closed m.closed a.home_vm host' lt l.jobs
                (ground
                  (arith, l.jobs a.home_vm host got, running_on-without a.home_vm q running at))
                (λ v ne. ground (arith, running_on-without v q running at));
          well = All-without (IsWell s) q running l.well;
          balance = omega (arith, l.balance, length-without q running at);
          all = l.all;
          selected = l.selected;
          limit = l.limit;
          doubled = l.doubled;
          closing = λ h. absurd (omega (arith, l.closing h, l.balance, l.all));
        },
      )

  -- Only a process that runs can end.
  finish_task_place :
      (q : ℕ) (actual : D) (guest : Guest D) {g : Guest D}
      → finish_task s q actual guest ≡ some g
      → q < length guest.running
  unfolding finish_task
  finish_task_place q actual guest made =
      let (a, at, rest) = >>=-eq-some (get_elem? guest.running q) _ made in
      get_elem?_bound guest.running q at

  close_mailbox-IsLive :
      (m : Simulation D) (vm : Load D)
      → m.received ≡ s.number_of_processes
      → m.closed < s.number_of_vms
      → get_elem? m.guest.vms m.closed ≡ some vm
      → IsLive s m
      → IsLive s (record m { guest = close_mailbox s m.closed vm m.guest; closed = m.closed + 1 })
  close_mailbox-IsLive m vm done left got l =
      let vms = m.guest.vms in
      let vm' : Load D = record vm { jobs = vm.jobs - 1 } in
      record {
        size = length-set vms m.closed vm' ∙ l.size;
        slots = l.slots;
        jobs =
            Jobs-set vms m.guest.running m.guest.running m.closed (m.closed + 1) m.closed vm'
              (get_elem?_bound vms m.closed got) l.jobs (ground (arith, l.jobs m.closed vm got))
              (λ v ne. ground arith);
        well = l.well;
        balance = l.balance;
        all = l.all;
        selected = l.selected;
        limit = l.limit;
        doubled = l.doubled;
        closing = λ h. done;
      }

  pub Step-IsLive :
      {m m' : Simulation D}
      → IsOrdered D
      → 4 * s.number_of_processes + 4 < int_bound
      → Step s m m'
      → IsLive s m
      → IsLive s m'
  Step-IsLive {m} laws room (creates {g = g} x left made) l =
      let (g', made', l') = create_task-IsLive m x laws room left l in
      let same : g' ≡ g = cc in rw same at l'
  Step-IsLive {m} laws room (finishes {g = g} q actual made) l =
      let (g', made', l') =
        finish_task-IsLive m q actual (finish_task_place q actual m.guest made) l in
      let same : g' ≡ g = cc in rw same at l'
  Step-IsLive {m} laws room (closes {vm = vm} done left got) l =
      close_mailbox-IsLive m vm done left got l

-- ===== src/Guest/Run/Laws.antt =====
-- What holds wherever a run of the processes comes to.
use hpv_c.Base.{ℕ, ◌+◌, ◌*◌, ◌<◌, ◌≡◌, refl, some, List, [], ◌∷◌, arith, length}
use hpv_c.Double.{Double, IsOrdered}
use hpv_c.Utility.{int_bound}
use hpv_c.Guest.Tasks.{Draw, ProcessArgv, Guest, Setup, create_task, finish_task}
use hpv_c.Guest.Run.{Simulation, Reached, starts, steps}
use hpv_c.Guest.Run.Live.{IsLive, ready-IsLive}
use hpv_c.Guest.Run.Steps.{create_task-IsLive, finish_task-IsLive, Step-IsLive}

none_left : (running : List ProcessArgv) → length running ≡ 0 → running ≡ []
none_left [] h = refl
none_left (a ∷ rest) h = absurd (omega arith)

module _ {D : Type 0} ⦃d : Double D⦄ (s : Setup D) where
  -- Wherever a run comes to, the books agree: on each VM run its mailbox process, until it is told
  -- to finish, and the processes that have it as their home, and no others; the homes and targets
  -- exist; the processes that were created have sent "fin" or run; the limit is between 1 and twice
  -- the processes created, and 2 more; mailboxes are closed only after all processes have sent
  -- "fin". (There are VMs, `<` is the order of numbers, and four times the number of processes,
  -- and 4 more, is an int.)
  pub Reached-IsLive :
      {m : Simulation D}
      → IsOrdered D
      → 4 * s.number_of_processes + 4 < int_bound
      → 0 < s.number_of_vms
      → Reached s m
      → IsLive s m
  Reached-IsLive laws room some_vm starts = ready-IsLive s some_vm
  Reached-IsLive laws room some_vm (steps r st) =
      Step-IsLive s laws room st (Reached-IsLive laws room some_vm r)

  -- In such a run, once a mailbox is closed all processes have been created and none is running, so
  -- none can send to it.
  Reached-closed :
      {m : Simulation D}
      → IsOrdered D
      → 4 * s.number_of_processes + 4 < int_bound
      → 0 < s.number_of_vms
      → Reached s m
      → 0 < m.closed
      → (m.guest.running ≡ []) × (m.created ≡ s.number_of_processes)
  Reached-closed {m} laws room some_vm r closed =
      let l = Reached-IsLive laws room some_vm r in
      let done = l.closing closed in
      (
        none_left m.guest.running (omega (arith, l.balance, l.all, done)),
        omega (arith, l.balance, l.all, done),
      )

  -- In such a run nothing faults: the next process can be created, whatever it draws, and whichever
  -- running process can end.
  pub Reached-total :
      {m : Simulation D}
      → IsOrdered D
      → 4 * s.number_of_processes + 4 < int_bound
      → 0 < s.number_of_vms
      → Reached s m
      → (m.created < s.number_of_processes
          → (x : Draw) → (g : Guest D) × (create_task s m.created x m.guest ≡ some g))
        × ((q : ℕ) (actual : D)
            → q < length m.guest.running
            → (g : Guest D) × (finish_task s q actual m.guest ≡ some g))
  Reached-total {m} laws room some_vm r =
      let l = Reached-IsLive laws room some_vm r in
      (
        λ left x. let (g, made, l') = create_task-IsLive s m x laws room left l in (g, made),
        λ q actual lt. let (g, made, l') = finish_task-IsLive s m q actual lt l in (g, made),
      )

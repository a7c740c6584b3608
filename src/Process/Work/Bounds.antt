-- ===== src/Process/Work/Bounds.antt =====
-- When the loop of `process_task` ends, and what it has done by then.
use hpv_c.Base.{
  ℕ, zero, suc, ◌+◌, ◌*◌, ◌%◌, ◌≤◌, ◌<◌, ◌≡◌, refl, inl, inr, some, List, [], ◌∷◌, arith, ltb,
  lt→ltb, ltb→lt, ◌==◌, ◌&&◌, Bool-cases,
}
use native.Mathlib.Nat.{mod-lt}
use hpv_c.Utility.{int_bound, get_next_target_mail_box}
use hpv_c.Process.Need.{Counts}
use hpv_c.Process.Work.{
  Action, execute, message, Work, ended, running, execute_task, jump_target, next_target, deliver,
  send_message, begin, work,
}

-- `p` executions and `n` messages, each to the mailbox of a VM that exists.
pub data Did (vms : ℕ) : ℕ → ℕ → List Action → Type 0 where
  nothing : Did vms 0 0 []
  executed : {p n : ℕ} {done : List Action} → Did vms p n done → Did vms (p + 1) n (execute ∷ done)
  sent :
      {p n t : ℕ} {done : List Action}
      → t < vms
      → Did vms p n done
      → Did vms p (n + 1) (message t ∷ done)

-- Between two rounds.
pub record IsWorking (counts : Counts) (vms : ℕ) (w : Work) : Type 0 where
  pub total : w.p + w.n ≡ w.i
  pub in_comp : w.p ≤ counts.comp
  pub in_comm : w.n ≤ counts.comm
  pub in_iterations : w.i ≤ counts.iterations
  pub in_vms : w.target_mailbox < vms
  pub did : Did vms w.p w.n w.actions

jump_le : (step n m : ℕ) → n ≤ m → step * n ≤ step * m
jump_le step n m le = grind arith

module _ (counts : Counts) (vms home_vm process_sequence : ℕ) where
  module _ (jumps : vms + process_sequence * counts.comm ≤ int_bound) where
    jump_target_lem :
        (w : Work)
        → IsWorking counts vms w
        → (t : ℕ) × (jump_target counts vms home_vm process_sequence w ≡ some t) × (t < vms)
    unfolding jump_target get_next_target_mail_box
    jump_target_lem w k =
        let le : process_sequence * w.n ≤ process_sequence * counts.comm =
          jump_le process_sequence w.n counts.comm k.in_comm in
        let some_vm : 0 < vms = omega (arith, k.in_vms) in
        (
          (w.target_mailbox + process_sequence * w.n) % vms,
          ground (arith, k.in_vms),
          mod-lt (w.target_mailbox + process_sequence * w.n) some_vm,
        )

    next_target_lem :
        (w : Work)
        → IsWorking counts vms w
        → (t : ℕ) × (next_target counts vms home_vm process_sequence w ≡ some t) × (t < vms)
    unfolding next_target
    next_target_lem w k = elim (Bool-cases (w.i % 2 == 0)) [
      | inl even ↦ rw even (jump_target_lem w k)
      | inr odd ↦ rw odd (w.target_mailbox, refl, k.in_vms)
    ]

    module _ (home : home_vm < vms) where
      send_message_lem :
          (w : Work)
          → IsWorking counts vms w
          → w.n < counts.comm
          → w.i < counts.iterations
          → (w' : Work) × (send_message counts vms home_vm process_sequence w ≡ some w')
            × (w'.i ≡ w.i + 1)
            × IsWorking counts vms w'
      unfolding send_message deliver
      send_message_lem w k more left =
          let (t, got, lt) = next_target_lem w k in
          (
            record w {
              n = w.n + 1;
              i = w.i + 1;
              target_mailbox = t;
              actions = message t ∷ w.actions;
            },
            rw
                (
                  lt→ltb w.n counts.comm more,
                  lt→ltb w.i counts.iterations left,
                  lt→ltb home_vm vms home,
                  got,
                  lt→ltb t vms lt,
                )
                refl,
            refl,
            record {
              total = omega (arith, k.total);
              in_comp = k.in_comp;
              in_comm = omega arith;
              in_iterations = omega arith;
              in_vms = lt;
              did = sent lt k.did;
            },
          )

      -- A round that may make an action makes one; it makes no other than the allowed ones.
      round_lem :
          (w : Work)
          → IsWorking counts vms w
          → w.i < counts.iterations
          → (w' : Work) × (send_message counts vms home_vm process_sequence
                (execute_task counts vms home_vm process_sequence w)
              ≡ some w')
            × (w.i < counts.comp + counts.comm → w.i < w'.i)
            × IsWorking counts vms w'
      unfolding execute_task send_message
      round_lem w k left = elim (Bool-cases (ltb w.p counts.comp)) [
        | inl comp ↦
            let w1 : Work = record w { p = w.p + 1; i = w.i + 1; actions = execute ∷ w.actions } in
            let k1 : IsWorking counts vms w1 = record {
              total = omega (arith, k.total);
              in_comp = ground arith;
              in_comm = k.in_comm;
              in_iterations = omega arith;
              in_vms = k.in_vms;
              did = executed k.did;
            } in
            elim (Bool-cases (ltb w.n counts.comm && ltb (w.i + 1) counts.iterations)) [
              | inl more ↦
                  let (w', done, next, k') = send_message_lem w1 k1 (ground arith) (ground arith) in
                  (w', rw comp done, λ h. omega arith, k')
              | inr stop ↦ (w1, rw (comp, stop) refl, λ h. omega arith, k1)
            ]
        | inr full ↦ elim (Bool-cases (ltb w.n counts.comm && ltb w.i counts.iterations)) [
          | inl more ↦
              let (w', done, next, k') = send_message_lem w k (ground arith) left in
              (w', rw full done, λ h. omega arith, k')
          | inr stop ↦
              (w, rw (full, stop) refl, λ h. absurd (ground (arith, k.total, k.in_comm)), k)
        ]
      ]

      work_from :
          (fuel : ℕ) (w : Work)
          → counts.iterations ≤ counts.comp + counts.comm
          → IsWorking counts vms w
          → counts.iterations < fuel + w.i
          → (w' : Work) × (work counts vms home_vm process_sequence fuel w ≡ ended w')
            × (w'.i ≡ counts.iterations)
            × IsWorking counts vms w'
      unfolding work
      work_from zero w enough k room = absurd (omega (arith, k.in_iterations))
      work_from (suc fuel) w enough k room = elim (Bool-cases (ltb w.i counts.iterations)) [
        | inl left ↦
            let lt = ltb→lt w.i counts.iterations left in
            let (w1, done, next, k1) = round_lem w k lt in
            let more = next (omega arith) in
            let (w', rest, all, k') = work_from fuel w1 enough k1 (omega arith) in
            (w', rw (work, left, done) rest, all, k')
        | inr over ↦ (w, rw (work, over) refl, ground (arith, k.in_iterations), k)
      ]

      work_on :
          (fuel : ℕ) (w : Work)
          → counts.comp + counts.comm < counts.iterations
          → IsWorking counts vms w
          → work counts vms home_vm process_sequence fuel w ≡ running
      unfolding work
      work_on zero w short k = refl
      work_on (suc fuel) w short k =
          let left : w.i < counts.iterations = omega (arith, k.total, k.in_comp, k.in_comm) in
          let (w1, done, next, k1) = round_lem w k left in
          rw (work, lt→ltb w.i counts.iterations left, done) (work_on fuel w1 short k1)

      begin-IsWorking : (target : ℕ) → target < vms → IsWorking counts vms (begin target)
      unfolding begin
      begin-IsWorking target in_vms = record {
        total = refl;
        in_comp = omega arith;
        in_comm = omega arith;
        in_iterations = omega arith;
        in_vms = in_vms;
        did = nothing;
      }

module _ (counts : Counts) (vms home_vm process_sequence target : ℕ) where
  -- The loop of a process that starts on an existing VM ends within `iterations + 1` rounds, when
  -- COMP_TASK_SIZE and COMM_TASK_SIZE together reach the iterations, both mailboxes are those of
  -- existing VMs and the jumps stay in an int. It has then made exactly `iterations` actions, at
  -- most COMP_TASK_SIZE executions and COMM_TASK_SIZE messages, each to the mailbox of an existing
  -- VM.
  pub work-IsWorking :
      vms + process_sequence * counts.comm ≤ int_bound
      → home_vm < vms
      → target < vms
      → counts.iterations ≤ counts.comp + counts.comm
      → (w : Work) × (work counts vms home_vm process_sequence
            (counts.iterations + 1)
            (begin target)
          ≡ ended w)
        × (w.i ≡ counts.iterations)
        × IsWorking counts vms w
  work-IsWorking jumps home in_vms enough =
      work_from counts vms home_vm process_sequence jumps home (counts.iterations + 1)
        (begin target) enough
        (begin-IsWorking counts vms home_vm process_sequence jumps home target in_vms) (omega arith)

  -- When COMP_TASK_SIZE and COMM_TASK_SIZE together do not reach the iterations, and the mailboxes
  -- and jumps are as above, the loop never ends: after any number of rounds it is still running.
  pub work_stuck :
      vms + process_sequence * counts.comm ≤ int_bound
      → home_vm < vms
      → target < vms
      → counts.comp + counts.comm < counts.iterations
      → (fuel : ℕ) → work counts vms home_vm process_sequence fuel (begin target) ≡ running
  work_stuck jumps home in_vms short fuel =
      work_on counts vms home_vm process_sequence jumps home fuel (begin target) short
        (begin-IsWorking counts vms home_vm process_sequence jumps home target in_vms)

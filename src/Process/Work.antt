-- ===== src/Process/Work.antt =====
-- The loop of `process_task` (simgrid/organizer/hpvc.c): executions and messages in turn.
pub mod Bounds
use hpv_c.Base.{
  true, false, ℕ, zero, suc, ◌+◌, ◌-◌, ◌*◌, ◌%◌, Bool, Option, none, some, List, [], ◌∷◌, ltb, ◌==◌,
  ◌&&◌, if◌then◌else◌, ◌>>=◌, ◌>>◌, require,
}
use hpv_c.Utility.{checked_int, get_next_target_mail_box}
use hpv_c.Process.Need.{Counts}

-- What the process does: an execution, or a message to the mailbox of a VM, sent until it succeeds.
pub data Action : Type 0 where
  execute : Action
  message : ℕ → Action

-- The variables `i`, `p`, `n` and `target_mailbox`, and the actions, the latest first.
pub record Work : Type 0 where
  pub i : ℕ
  pub p : ℕ
  pub n : ℕ
  pub target_mailbox : ℕ
  pub actions : List Action

unfoldable pub begin : ℕ → Work
begin target = record { i = 0; p = 0; n = 0; target_mailbox = target; actions = [] }

-- A run of the loop: it ended, it faulted, or it is still running when the fuel ends.
pub data Run (A : Type 0) : Type 0 where
  ended : A → Run A
  faulted : Run A
  running : Run A

module _ (counts : Counts) (vms home_vm process_sequence : ℕ) where
  unfoldable pub execute_task : Work → Work
  execute_task w =
      if ltb w.p counts.comp
      then record w { p = w.p + 1; i = w.i + 1; actions = execute ∷ w.actions }
      else w

  jump_target : Work → Option ℕ
  jump_target w = do
    jump ← checked_int (process_sequence * w.n)
    get_next_target_mail_box w.target_mailbox jump vms

  -- The mailbox changes in the iterations of even number.
  unfoldable pub next_target : Work → Option ℕ
  unfolding jump_target
  next_target w = if w.i % 2 == 0 then jump_target w else some w.target_mailbox

  -- The sender and the receiver are looked up in `vm_list`.
  deliver : Work → Option Work
  unfolding next_target
  deliver w = do
    require (ltb home_vm vms)
    target ← next_target w
    require (ltb target vms)
    some (record w {
      n = w.n + 1;
      i = w.i + 1;
      target_mailbox = target;
      actions = message target ∷ w.actions;
    })

  unfoldable pub send_message : Work → Option Work
  unfolding deliver
  send_message w = if ltb w.n counts.comm && ltb w.i counts.iterations then deliver w else some w

  unfoldable pub work : ℕ → Work → Run Work
  work zero w = running
  work (suc fuel) w = elim (ltb w.i counts.iterations) [
    | false ↦ ended w
    | true ↦ elim (send_message (execute_task w)) [ none ↦ faulted | some w' ↦ work fuel w' ]
  ]

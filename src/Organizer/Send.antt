-- ===== src/Organizer/Send.antt =====
-- `send_task` (simgrid/organizer/hpvc.c).
pub mod History
use hpv_c.Base.{ℕ, ◌+◌, Bool, Option, none, some, ◌==◌, if◌then◌else◌, ◌>>=◌}
use hpv_c.Double.{Double, mul_float}
use hpv_c.Utility.{checked_int}
use hpv_c.Organizer.Matrix.{Matrices, entry, store_entry}

-- A VM's handle: the two numbers of its name `vm_%d_%d`, and the name of its PM.
pub record VmHandle : Type 0 where
  pub cluster_id : ℕ
  pub vm_id : ℕ
  pub pm_name : ℕ

-- One call: the size of the task, and what SimGrid answers, whether `MSG_task_send` returned MSG_OK
-- and the clock before and after it.
pub record Sending (D : Type 0) : Type 0 where
  pub sender : VmHandle
  pub receiver : VmHandle
  pub task_size : D
  pub is_ok : Bool
  pub start_time : D
  pub end_time : D

module _ {D : Type 0} ⦃d : Double D⦄ where
  -- The size that the task is sent with: a message within a PM is made a hundredth.
  unfoldable pub sent_size : Sending D → D
  sent_size s =
      if s.sender.pm_name == s.receiver.pm_name
      then d.mul s.task_size (d.narrow (d.lit 1 2))
      else s.task_size

  -- The new average of `rate + 1` latencies.
  unfoldable pub new_average : D → ℕ → D → D → D
  new_average old_avg old_rate start_time end_time = d.narrow (
      d.div (d.add (mul_float old_avg (d.narrow (d.of_int old_rate))) (d.sub end_time start_time))
        (d.of_int (old_rate + 1)))

  unfoldable pub gather : Sending D → Matrices D → Option (Matrices D)
  unfolding new_average
  gather s m = do
    old_avg ← entry m.latency s.sender.vm_id s.receiver.vm_id
    old_rate ← entry m.rate s.sender.vm_id s.receiver.vm_id
    latency ←
        store_entry m.latency s.sender.vm_id s.receiver.vm_id
          (new_average old_avg old_rate s.start_time s.end_time)
    new_rate ← checked_int (old_rate + 1)
    rate ← store_entry m.rate s.sender.vm_id s.receiver.vm_id new_rate
    some (record { rate = rate; latency = latency })

  -- The result of the send is passed on, and the matrices are updated if it is MSG_OK; `clusterID`
  -- is the receiver's, which is scanned last.
  unfoldable pub send_task : Sending D → Matrices D → Option (Bool × D × Matrices D)
  unfolding gather sent_size
  send_task s m = do
    m' ← if s.is_ok then (if s.receiver.cluster_id == 0 then gather s m else some m) else some m
    some (s.is_ok, sent_size s, m')

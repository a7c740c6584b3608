-- ===== src/Guest.antt =====
-- The load balancer of the VMs and the processes that it serves (simgrid/organizer/hpvc.c):
-- `guest_load_balance`, `create_tasks`, the end of `process_task`, and `get_finalize`.
pub mod Balance
pub mod Tasks
pub mod Run
pub mod End
mod Tests

-- ===== src/Process.antt =====
-- The simulated processes of simgrid/organizer/hpvc.c: `compute_resource_need`, the sizes that
-- `main` derives, and `process_task`.
pub mod Need
pub mod Work
mod Tests

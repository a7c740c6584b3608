-- ===== src/Project.antt =====
-- The earlier simulator, simgrid-project/hpvc.c, as far as it differs from simgrid/organizer/hpvc.c.
pub mod Pool
pub mod Place
pub mod Policy
pub mod Period
pub mod Launch
pub mod Results
pub mod Balance
pub mod Need
pub mod Tasks
pub mod Run
mod Tests

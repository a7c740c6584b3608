-- ===== src/Placement.antt =====
-- The placement of virtual machines (VMs) on physical machines (PMs) in simgrid/organizer:
-- DATA_OF_PM (structures.h), `launch_master` and `migrate_vm` (hpvc.c). NUMBER_OF_CLUSTERS is 1
-- there, so the arrays over clusters are their one entry, and `cluster_id` is 0.
pub mod Platform
pub mod Invariant
pub mod Launch
pub mod Migrate
pub mod Tests

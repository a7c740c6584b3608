-- ===== src/Organizer.antt =====
-- The organizer of simgrid/organizer/hpvc.c: it measures how the VMs communicate (`send_task`), and
-- `organization_manager` moves a VM in each period to where it communicates at less cost.
pub mod Matrix
pub mod Send
pub mod Period
pub mod Candidate
pub mod NextCost
pub mod Manager
mod Tests
pub mod Sort

-- ===== src/Monitor.antt =====
-- The monitor of c/monitor: the server that keeps the hosts' reports.
pub mod Server
pub mod Config
pub mod Client
pub mod Interface
mod Tests

-- ===== src/Daemon.antt =====
-- src/vdsd_common.cc.
pub mod Trace
pub mod Workers
pub mod Replies
pub mod Control
pub mod Launch
mod Tests

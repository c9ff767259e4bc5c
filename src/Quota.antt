-- ===== src/Quota.antt =====
-- internal/quota: usage windows, cooldown and probes, persisted state, and recent events.
pub mod Schedule
pub mod Window
pub mod Tracker
pub mod Events
pub mod Configure
pub mod Reconfigure
pub mod Persist
pub mod Snapshot
pub mod Money

-- ===== src/Config.antt =====
-- internal/config/config.go: the validation of a configuration, one module for each part of it.
pub mod Checks
pub mod Schema
pub mod Cost
pub mod Windows
pub mod Outbounds
pub mod Routing
pub mod Entrances
pub mod Validate
pub mod Resources

-- ===== src/Tests.antt =====
-- Runs of the models at concrete inputs, one module for each part.
mod Provider
mod Router
mod Quota
mod QuotaState
mod Execution
mod Sessions
mod Accounting
mod EventStream
mod Logging
mod Config

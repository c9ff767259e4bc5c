-- ===== src/Accounting.antt =====
-- internal/accounting: the prices of models, and the store of usage records.
pub mod Pricing
pub mod Memory

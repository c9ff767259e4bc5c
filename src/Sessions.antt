-- ===== src/Sessions.antt =====
-- internal/sessions: the states of client sessions, and the store that holds them.
pub mod State
pub mod Store

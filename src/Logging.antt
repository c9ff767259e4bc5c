-- ===== src/Logging.antt =====
-- internal/logging: the buffer of recent lines that the administration pages show.
pub mod Recent

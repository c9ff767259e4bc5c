-- ===== src/Provider.antt =====
-- internal/provider: the error values that drive fallback, and the health of the outbounds.
pub mod Error
pub mod Health

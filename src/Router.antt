-- ===== src/Router.antt =====
-- internal/router/router.go: compilation of the routing rules, and the routing decision.
pub mod Wildcard
pub mod Order
pub mod Compile
pub mod Plan

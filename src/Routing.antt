-- ===== src/Routing.antt =====
-- Providers and how a request reaches one: crates/neurust-core/src/{provider/mod,pipeline,router}.rs.
pub mod Provider
pub mod LoadBalancer
pub mod Fallback
pub mod Health
pub mod Pipeline
pub mod Upstream
pub mod Mock
pub mod OpenAi
pub mod Anthropic

-- ===== src/Gateway.antt =====
-- The HTTP gateway, crates/neurust-gateway/src: authentication, the choice of a provider, and the
-- chat completions endpoint with its streams.
pub mod Auth
pub mod State
pub mod Concurrent
pub mod Inference
pub mod Readiness
pub mod Server
pub mod Stream
pub mod Listing

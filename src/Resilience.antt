-- ===== src/Resilience.antt =====
-- src/resilience: what stands between the server and the model providers.
pub mod CircuitBreaker
pub mod Retry
pub mod Policy
pub mod Policies
mod Tests

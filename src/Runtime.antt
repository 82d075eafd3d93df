-- ===== src/Runtime.antt =====
-- src/suitcode/runtime: the coordinator that keeps language servers alive. Modelled: one session,
-- and the state that the coordinator publishes.
pub mod Session
pub mod Probe
pub mod Warm
pub mod Coordinator
pub mod Consistent
mod Tests

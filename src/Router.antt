-- ===== src/Router.antt =====
-- Request routing (router/*.py).
pub mod Breaker
pub mod Balancer
pub mod HealthChecker
pub mod Autoscaler
pub mod Docker
mod Tests

-- ===== src/Experiments.antt =====
-- The experiments of benchmarks/ and scripts/benchmark.py.
pub mod Routing
pub mod Budgeting
pub mod Comparison
pub mod Load
pub mod Sums
pub mod Tests

-- ===== src/Workers.antt =====
-- The model workers and their pool (workers/*.py).
pub mod Client
pub mod Pool
mod Tests

-- ===== src/Context.antt =====
-- Context capture and retrieval (context/*.py).
pub mod Models
pub mod Store
pub mod Selection
pub mod Compression
pub mod Manager
mod Tests
pub mod Artifacts

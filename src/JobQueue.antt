-- ===== src/JobQueue.antt =====
-- job_queue/*.py over the streams of Redis. `V` are the values of a payload; `connect`, which only sets
-- up the connection and the group, is left out.
pub mod Fields
pub mod Stream
pub mod Retry
pub mod Tests

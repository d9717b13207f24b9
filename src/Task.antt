-- ===== src/Task.antt =====
-- common/task: tasks that run again after an interval.
pub mod Backoff

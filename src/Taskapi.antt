-- ===== src/Taskapi.antt =====
-- internal/taskapi/handler.go: putting a dead task back on the queue.
pub mod Requeue

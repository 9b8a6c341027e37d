-- ===== src/Worker.antt =====
-- internal/worker: takes review tasks off the queue, runs them under the lock of their pull
-- request, and retries or buries those that fail.
pub mod Options
pub mod Delay
pub mod Names
pub mod Failure
pub mod Process
pub mod Recovery

-- ===== src/Tests.antt =====
-- Concrete runs: sample data, and each property at a concrete input.
pub mod Samples
pub mod Store
pub mod Review
pub mod Entry
pub mod Evidence
pub mod Prompt
pub mod Agent
pub mod Codecontext
pub mod Queue
pub mod Worker

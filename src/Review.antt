-- ===== src/Review.antt =====
-- internal/review: the review that is posted, and its delivery.
pub mod Comment
pub mod Delivery
pub mod Evidence
pub mod Prompt
pub mod Service
pub mod AgentService

-- ===== src/Queue.antt =====
-- internal/queue/queue.go: messages, what a handler answers, and publishing.
pub mod Connection
pub mod Publishing
pub mod Delivery
use github_pr_review_agent.Common.{ℕ, Bool, true, false, List, ◌∷◌}

pub record Message : Type 0 where
  pub task_id : ℕ
  pub attempt : ℕ

pub data Action : Type 0 where
  ack nack_discard nack_requeue : Action

-- A message as it goes to the main queue, to the retry queue with a delay, or to the dead letters.
pub data Published : Type 0 where
  to_main : ℕ → Published
  to_retry : ℕ → ℕ → ℕ → Published
  to_dead_letter : ℕ → ℕ → Published

-- How a publish ends: confirmed by the broker; failed; or failed although the broker has the
-- message.
pub data Sent : Type 0 where
  confirmed lost unconfirmed : Sent

abbrev pub is_confirmed : Sent → Bool
is_confirmed confirmed = true
is_confirmed _ = false

-- The messages that the broker has taken, newest first.
abbrev pub publish : Sent → Published → List Published → List Published
publish confirmed m sent = m ∷ sent
publish unconfirmed m sent = m ∷ sent
publish lost m sent = sent

abbrev pub of_task : Published → ℕ
of_task (to_main id) = id
of_task (to_retry id attempt delay) = id
of_task (to_dead_letter id attempt) = id

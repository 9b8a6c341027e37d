-- ===== src/Queue/Delivery.antt =====
-- internal/queue/rabbitmq.go: how RabbitBroker handles a delivery. The handler acts on a state; the
-- decoder is json.Unmarshal. An error of Ack or Nack is only logged.
use github_pr_review_agent.Common.{◌==◌, Option, none, some, List, ◌∷◌, Text, if◌then◌else◌}
use github_pr_review_agent.Queue.{Message, Action, ack, nack_discard, nack_requeue}

-- delivery.Ack(false), Nack(false, false) and Nack(false, true).
pub data Settlement : Type 0 where
  acked discarded requeued : Settlement

unfoldable pub settlement_of : Action → Settlement
settlement_of ack = acked
settlement_of nack_discard = discarded
settlement_of nack_requeue = requeued

-- A valid message names a task.
unfoldable pub valid_message : Option Message → Option Message
valid_message none = none
valid_message (some msg) = if msg.task_id == 0 then none else some msg

module _ {S : Type 0} (handler : Message → S → Action × S) where
  unfoldable pub handle_message : Option Message → S × List Settlement → S × List Settlement
  unfolding settlement_of
  handle_message none (world, settled) = (world, discarded ∷ settled)
  handle_message (some msg) (world, settled) =
      let (action, world') = handler msg world in (world', settlement_of action ∷ settled)

  unfoldable pub handle_delivery :
      (Text → Option Message) → Text → S × List Settlement → S × List Settlement
  unfolding handle_message valid_message
  handle_delivery decode body state = handle_message (valid_message (decode body)) state

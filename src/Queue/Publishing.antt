-- ===== src/Queue/Publishing.antt =====
-- internal/queue/rabbitmq.go: the publishing of a message by RabbitBroker. The channel and
-- json.Marshal are parameters. Another goroutine may close the broker only before or after.
pub mod AtMostOnce
use github_pr_review_agent.Common.{
  ℕ, ℤ, pos, negsuc, ◌/◌, Bool, true, false, List, [], ◌∷◌, ◌++◌, Text, codes, decimal, ltb,
  if◌then◌else◌,
}
use github_pr_review_agent.Store.Transaction.{Error, broken, message, Result, ok, err}
use github_pr_review_agent.Queue.{Message}
use github_pr_review_agent.Queue.Connection.{Broker, Server, reconnect, closed_error}

-- A persistent message on the wire.
pub record Publishing : Type 0 where
  pub queue : Text
  pub body : Text
  pub expiration : Text

-- What the channel does with it: an error, after which the server may have it all the same; no
-- confirmation; or one, with its answer (ack or nack) or an error of the wait.
pub data Channel : Type 0 where
  fails : Bool → Error → Channel
  no_confirmation : Channel
  confirms : Result Bool → Channel

-- The broker and the messages that reached the server, newest first.
pub record Outbox : Type 0 where
  pub broker : Broker
  pub sent : List Publishing

-- A delay in nanoseconds; a negative one is 0.
unfoldable pub expiration_of : ℤ → Text
expiration_of (pos d) = if ltb 0 d then decimal (d / 1000000) else []
expiration_of (negsuc d) = []

unfoldable pub after_wait : Result Bool → Result (Unit {0})
after_wait (err e) = err (broken (codes "wait rabbitmq publisher confirmation: " ++ message e))
after_wait (ok false) = err (broken (codes "rabbitmq publisher nack"))
after_wait (ok true) = ok tt

-- From PublishWithDeferredConfirmWithContext on; `s` is the server of a reconnection.
unfoldable pub transmit : Server → Channel → Publishing → Outbox → Result (Unit {0}) × Outbox
unfolding after_wait
transmit s (fails taken e) p r = (
  err (broken (codes "publish review task: " ++ message e)),
  record r { broker = (reconnect s r.broker).1; sent = (if taken then p ∷ r.sent else r.sent) },
)
transmit s no_confirmation p r = (
  err (broken (codes "rabbitmq publisher confirmation was not enabled")),
  record r { sent = p ∷ r.sent },
)
transmit s (confirms answer) p r = (after_wait answer, record r { sent = p ∷ r.sent })

abbrev pub unavailable : Result (Unit {0})
unavailable = err (broken (codes "rabbitmq publisher is unavailable"))

-- Without a publisher channel: once more after a reconnection, since nothing was sent.
unfoldable pub after_reconnect :
    Server
    → Channel
    → Publishing
    → List Publishing
    → Result (Unit {0}) × Broker
    → Result (Unit {0}) × Outbox
unfolding transmit
after_reconnect s channel p sent (err e, b) = (unavailable, record { broker = b; sent = sent })
after_reconnect s channel p sent (ok _, b) =
    if b.publisher
    then transmit s channel p (record { broker = b; sent = sent })
    else (unavailable, record { broker = b; sent = sent })

unfoldable pub publish_body : Server → Channel → Publishing → Outbox → Result (Unit {0}) × Outbox
unfolding transmit after_reconnect
publish_body s channel p r =
    if r.broker.closed
    then (closed_error, r)
    else if r.broker.publisher
    then transmit s channel p r
    else after_reconnect s channel p r.sent (reconnect s r.broker)

module _ (marshal : Message → Result Text) (s : Server) (channel : Channel) where
  -- RabbitBroker.publish
  unfoldable pub publish_to : Text → Message → ℤ → Outbox → Result (Unit {0}) × Outbox
  unfolding publish_body expiration_of
  publish_to queue msg delay r = elim (marshal msg) [
    | err e ↦ (err (broken (codes "marshal review task message: " ++ message e)), r)
    | ok body ↦
        publish_body s channel
          (record { queue = queue; body = body; expiration = expiration_of delay }) r
  ]

  unfoldable pub publish_main : ℕ → Outbox → Result (Unit {0}) × Outbox
  unfolding publish_to
  publish_main task_id r =
      publish_to r.broker.queue (record { task_id = task_id; attempt = 0 }) (pos 0) r

  unfoldable pub publish_retry : ℕ → ℕ → ℤ → Outbox → Result (Unit {0}) × Outbox
  unfolding publish_to
  publish_retry task_id attempt delay r =
      publish_to r.broker.retry_queue (record { task_id = task_id; attempt = attempt }) delay r

  unfoldable pub publish_dead_letter : ℕ → ℕ → Outbox → Result (Unit {0}) × Outbox
  unfolding publish_to
  publish_dead_letter task_id attempt r =
      publish_to r.broker.dead_letter_queue (record { task_id = task_id; attempt = attempt })
        (pos 0) r

-- ===== src/Queue/Publishing/AtMostOnce.antt =====
-- How often RabbitBroker.publish (internal/queue/rabbitmq.go) sends a message.
use github_pr_review_agent.Common.{ℤ, true, false, ◌∷◌, Text, ◌≡◌, refl, ◌⊎◌, inl, inr, Bool-cases}
use github_pr_review_agent.Store.Transaction.{Error, Result, ok, err}
use github_pr_review_agent.Queue.{Message}
use github_pr_review_agent.Queue.Connection.{Broker, Server, reconnect}
use github_pr_review_agent.Queue.Publishing.{
  Publishing, Channel, fails, no_confirmation, confirms, Outbox, expiration_of, transmit,
  after_reconnect, publish_body, publish_to,
}

-- The message `p` was sent once or not at all; it was if there is no error, which takes an ack.
pub record SentOnce (channel : Channel) (p : Publishing) (r : Outbox)
    (end : Result (Unit {0}) × Outbox) : Type 0 where
  pub at_most_once : (end.1.sent ≡ r.sent) ⊎ (end.1.sent ≡ p ∷ r.sent)
  pub confirmed : end.0 ≡ ok tt → (end.1.sent ≡ p ∷ r.sent) × (channel ≡ confirms (ok true))

transmit-SentOnce :
    (s : Server) (channel : Channel) (p : Publishing) (r : Outbox)
    → SentOnce channel p r (transmit s channel p r)
unfolding transmit
transmit-SentOnce s (fails true e) p r = record {
  at_most_once = inr refl;
  confirmed = λ h. absurd (cc);
}
transmit-SentOnce s (fails false e) p r = record {
  at_most_once = inl refl;
  confirmed = λ h. absurd (cc);
}
transmit-SentOnce s no_confirmation p r = record {
  at_most_once = inr refl;
  confirmed = λ h. absurd (cc);
}
transmit-SentOnce s (confirms (err e)) p r = record {
  at_most_once = inr refl;
  confirmed = λ h. absurd (cc);
}
transmit-SentOnce s (confirms (ok false)) p r = record {
  at_most_once = inr refl;
  confirmed = λ h. absurd (cc);
}
transmit-SentOnce s (confirms (ok true)) p r = record {
  at_most_once = inr refl;
  confirmed = λ h. (refl, refl);
}

unsent-SentOnce :
    (channel : Channel) (p : Publishing) (r : Outbox) (e : Error) (b : Broker)
    → SentOnce channel p r (err e, record r { broker = b })
unsent-SentOnce channel p r e b = record { at_most_once = inl refl; confirmed = λ h. absurd (cc) }

after_reconnect-SentOnce :
    (s : Server) (channel : Channel) (p : Publishing) (r : Outbox)
    (end : Result (Unit {0}) × Broker)
    → SentOnce channel p r (after_reconnect s channel p r.sent end)
unfolding after_reconnect
after_reconnect-SentOnce s channel p r (err e, b) = unsent-SentOnce channel p r _ b
after_reconnect-SentOnce s channel p r (ok _, b) = elim (Bool-cases b.publisher) [
  | inl on ↦ simp on (
      let there = transmit-SentOnce s channel p (record r { broker = b }) in
      record { at_most_once = there.at_most_once; confirmed = there.confirmed })
  | inr off ↦ simp off (unsent-SentOnce channel p r _ b)
]

publish_body-SentOnce :
    (s : Server) (channel : Channel) (p : Publishing) (r : Outbox)
    → SentOnce channel p r (publish_body s channel p r)
unfolding publish_body
publish_body-SentOnce s channel p r = elim (Bool-cases r.broker.closed) [
  | inl shut ↦ simp shut (unsent-SentOnce channel p r _ r.broker)
  | inr on ↦ elim (Bool-cases r.broker.publisher) [
    | inl there ↦ simp (on, there) (transmit-SentOnce s channel p r)
    | inr none_there ↦
        simp (on, none_there) (after_reconnect-SentOnce s channel p r (reconnect s r.broker))
  ]
]

-- Whatever the server and the channel do, a reconnection in between included: a call of publish
-- sends the message once or not at all, with the body that json.Marshal gives and the delay as
-- expiration; and it succeeds only if the message was sent and the broker confirmed it with an ack.
pub publish_to-SentOnce :
    (marshal : Message → Result Text) (s : Server) (channel : Channel) (queue : Text)
    (msg : Message) (delay : ℤ) (r : Outbox) (body : Text)
    → marshal msg ≡ ok body
    → SentOnce channel
        (record { queue = queue; body = body; expiration = expiration_of delay })
        r
        (publish_to marshal s channel queue msg delay r)
unfolding publish_to
publish_to-SentOnce marshal s channel queue msg delay r body h =
    rw (h, publish_to)
      (publish_body-SentOnce s channel
        (record { queue = queue; body = body; expiration = expiration_of delay }) r)

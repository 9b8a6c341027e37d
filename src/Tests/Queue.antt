-- ===== src/Tests/Queue.antt =====
-- Concrete runs of internal/queue/rabbitmq.go.
use github_pr_review_agent.Common.{
  ℕ, ◌+◌, some, pos, false, true, List, [], ◌∷◌, Text, codes, ◌≡◌, refl,
}
use github_pr_review_agent.Store.Transaction.{Result, ok, err, broken}
use github_pr_review_agent.Queue.{Message, ack}
use github_pr_review_agent.Queue.Connection.{
  no_wire, Broker, Server, amqp_call, declare, and_then, ◌then_next◌, closed_wire, close_locked,
  open_wire, keep_wire, connect_locked, healthy_locked, reconnect,
}
use github_pr_review_agent.Queue.Connection.Handles.{
  Sound, connects, reconnects, loses_connection, closes, run_events, run_events-Sound, Event,
}
use github_pr_review_agent.Queue.Publishing.{
  confirms, Outbox, after_wait, transmit, after_reconnect, publish_body, publish_to, expiration_of,
}
use github_pr_review_agent.Queue.Publishing.AtMostOnce.{SentOnce, publish_to-SentOnce}
use github_pr_review_agent.Queue.Delivery.{
  discarded, settlement_of, valid_message, handle_message, handle_delivery,
}

abbrev no_broker : Broker
no_broker = record {
  queue = codes "tasks";
  retry_queue = codes "tasks.retry";
  dead_letter_queue = codes "tasks.dead";
  closed = false;
  connection = false;
  publisher = false;
  consumer = false;
  wire = no_wire;
}

abbrev up : Server
up = record {
  dial = ok tt;
  declare_channel = ok tt;
  declare = λ queue. ok tt;
  close_declare_channel = ok tt;
  publisher_channel = ok tt;
  confirm = ok tt;
  consumer_channel = ok tt;
  qos = ok tt;
}

abbrev no_consumer : Server
no_consumer = record up { consumer_channel = err (broken (codes "channel limit")) }

no_broker-Sound : Sound no_broker
no_broker-Sound = record { reachable = λ e. refl; declared = refl; shut = λ e. refl }

abbrev events : List Event
events = connects up ∷ loses_connection ∷ reconnects no_consumer ∷ reconnects up ∷ closes ∷ []

run_events-Sound_example :
    Sound (run_events events no_broker)
    × (no_broker.closed ≡ true → (run_events events no_broker).closed ≡ true)
run_events-Sound_example = run_events-Sound events no_broker no_broker-Sound

abbrev marshal : Message → Result Text
marshal msg = ok (codes "{}")

abbrev fresh : Outbox
fresh = record { broker = no_broker; sent = [] }

abbrev first_task : Message
first_task = record { task_id = 1; attempt = 0 }

-- The broker has no connection at first, and makes one.
connects_and_sends :
    (publish_to marshal up (confirms (ok true)) (codes "tasks") first_task (pos 0) fresh).0 ≡ ok tt
unfolding publish_to publish_body after_reconnect reconnect connect_locked keep_wire open_wire
    amqp_call declare ◌then_next◌ and_then close_locked closed_wire healthy_locked transmit
    after_wait
connects_and_sends = refl

publish_to-SentOnce_example :
    SentOnce
      (confirms (ok true))
      (record {
        queue = codes "tasks.retry";
        body = codes "{}";
        expiration = expiration_of (pos 1500000);
      })
      fresh
      (publish_to marshal up
        (confirms (ok true))
        (codes "tasks.retry")
        first_task
        (pos 1500000)
        fresh)
publish_to-SentOnce_example =
    publish_to-SentOnce marshal up (confirms (ok true)) (codes "tasks.retry") first_task
      (pos 1500000) fresh (codes "{}") refl

-- A message that names no task never gets to the handler.
discards_nameless :
    handle_delivery {S = ℕ}
      (λ msg n. (ack, n + 1))
      (λ body. some (record { task_id = 0; attempt = 0 }))
      []
      (0, [])
    ≡ (0, discarded ∷ [])
unfolding handle_delivery handle_message valid_message settlement_of
discards_nameless = refl

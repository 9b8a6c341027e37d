-- ===== src/Queue/Connection.antt =====
-- internal/queue/rabbitmq.go: the connection of RabbitBroker with its channels. What the server
-- answers is a parameter. Closing a connection closes its channels too, as AMQP says.
pub mod Handles
use github_pr_review_agent.Common.{
  Bool, true, false, not, ◌&&◌, ◌||◌, List, [], ◌∷◌, ◌++◌, Text, codes, if◌then◌else◌,
}
use github_pr_review_agent.Store.Transaction.{Error, broken, message, Result, ok, err}

-- What is open of the connection.
pub record Wire : Type 0 where
  pub connection : Bool
  pub declaring : Bool
  pub publisher : Bool
  pub consumer : Bool

abbrev pub no_wire : Wire
no_wire = record { connection = false; declaring = false; publisher = false; consumer = false }

-- A broker, its fields that are not nil, and what is open.
pub record Broker : Type 0 where
  pub queue : Text
  pub retry_queue : Text
  pub dead_letter_queue : Text
  pub closed : Bool
  pub connection : Bool
  pub publisher : Bool
  pub consumer : Bool
  pub wire : Wire

-- How the server answers each step of connectLocked.
pub record Server : Type 0 where
  pub dial : Result (Unit {0})
  pub declare_channel : Result (Unit {0})
  pub declare : Text → Result (Unit {0})
  pub close_declare_channel : Result (Unit {0})
  pub publisher_channel : Result (Unit {0})
  pub confirm : Result (Unit {0})
  pub consumer_channel : Result (Unit {0})
  pub qos : Result (Unit {0})

abbrev pub Step : Type 0
Step = Wire → Result (Unit {0}) × Wire

-- A call with its error and what that closes, and what is open after it otherwise.
unfoldable pub amqp_call : Result (Unit {0}) → Text → (Wire → Wire) → (Wire → Wire) → Step
amqp_call (ok _) prefix cleanup opened w = (ok tt, opened w)
amqp_call (err e) prefix cleanup opened w = (err (broken (prefix ++ message e)), cleanup w)

infixr 5 ◌then_next◌
unfoldable pub and_then : Result (Unit {0}) × Wire → Step → Result (Unit {0}) × Wire
and_then (ok _, w) next = next w
and_then (err e, w) next = (err e, w)

unfoldable pub ◌then_next◌ : Step → Step → Step
unfolding and_then
◌then_next◌ first next w = and_then (first w) next

abbrev close_connection : Wire → Wire
close_connection w = no_wire

abbrev close_declaring : Wire → Wire
close_declaring w = record w { declaring = false }

abbrev close_publisher : Wire → Wire
close_publisher w = record w { publisher = false }

abbrev close_consumer : Wire → Wire
close_consumer w = record w { consumer = false }

abbrev same : Wire → Wire
same w = w

unfoldable pub closed_wire : Broker → Wire
closed_wire b =
    let w₁ = if b.consumer then close_consumer b.wire else b.wire in
    let w₂ = if b.publisher then close_publisher w₁ else w₁ in
    if b.connection then close_connection w₂ else w₂

unfoldable pub close_locked : Broker → Broker
close_locked b = record b {
  connection = false;
  publisher = false;
  consumer = false;
  wire = closed_wire b;
}

unfoldable pub keep_wire : Broker → Result (Unit {0}) × Wire → Result (Unit {0}) × Broker
keep_wire b (err e, w) = (err e, record b { wire = w })
keep_wire b (ok _, w) =
    (ok tt, record b { connection = true; publisher = true; consumer = true; wire = w })

abbrev pub closed_error : Result (Unit {0})
closed_error = err (broken (codes "rabbitmq broker is closed"))

unfoldable pub healthy_locked : Broker → Bool
healthy_locked b =
    b.connection && b.wire.connection && b.publisher && b.wire.publisher && b.consumer
    && b.wire.consumer

module _ (s : Server) where
  unfoldable pub declare : Text → Step
  unfolding amqp_call
  declare queue =
      amqp_call (s.declare queue) (codes "declare rabbitmq queue " ++ queue ++ codes ": ")
        (λ w. close_connection (close_declaring w)) same

  -- From the dialling on.
  unfoldable pub open_wire : Broker → Step
  unfolding amqp_call declare ◌then_next◌
  open_wire b =
      amqp_call s.dial (codes "connect rabbitmq: ") same (λ w. record w { connection = true })
      then_next amqp_call s.declare_channel (codes "open rabbitmq declare channel: ")
          close_connection (λ w. record w { declaring = true })
      then_next declare b.queue
      then_next declare b.retry_queue
      then_next declare b.dead_letter_queue
      then_next amqp_call s.close_declare_channel (codes "close rabbitmq declare channel: ")
          close_connection close_declaring
      then_next amqp_call s.publisher_channel (codes "open rabbitmq publisher channel: ")
          close_connection (λ w. record w { publisher = true })
      then_next amqp_call s.confirm (codes "enable rabbitmq publisher confirms: ")
          (λ w. close_connection (close_publisher w)) same
      then_next amqp_call s.consumer_channel (codes "open rabbitmq consumer channel: ")
          (λ w. close_connection (close_publisher w)) (λ w. record w { consumer = true })
      then_next amqp_call s.qos (codes "set rabbitmq prefetch: ")
          (λ w. close_connection (close_publisher (close_consumer w))) same

  unfoldable pub connect_locked : Broker → Result (Unit {0}) × Broker
  connect_locked b = let emptied = close_locked b in keep_wire emptied (open_wire b emptied.wire)

  unfoldable pub connect : Broker → Result (Unit {0}) × Broker
  connect b = if b.closed then (closed_error, b) else connect_locked b

  unfoldable pub reconnect : Broker → Result (Unit {0}) × Broker
  reconnect b =
      if b.closed
      then (closed_error, b)
      else if healthy_locked b
      then (ok tt, b)
      else connect_locked b

unfoldable pub close : Broker → Broker
close b = close_locked (record b { closed = true })

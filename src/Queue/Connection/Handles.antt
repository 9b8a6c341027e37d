-- ===== src/Queue/Connection/Handles.antt =====
-- Which connections and channels RabbitBroker (internal/queue/rabbitmq.go) leaves open.
use github_pr_review_agent.Common.{
  Bool, true, false, List, [], ◌∷◌, ◌≡◌, refl, ap, subst, sym, inl, inr, arith, Bool-cases,
  if◌then◌else◌,
}
use github_pr_review_agent.Store.Transaction.{Result, ok, err}
use github_pr_review_agent.Queue.Connection.{
  Wire, no_wire, Broker, Server, amqp_call, declare, and_then, ◌then_next◌, closed_wire,
  close_locked, open_wire, keep_wire, connect_locked, connect, healthy_locked, reconnect, close,
}

-- What is open can be closed through the fields, and nothing is open of a broker that is closed.
pub record Sound (b : Broker) : Type 0 where
  pub reachable : b.connection ≡ false → b.wire ≡ no_wire
  pub declared : b.wire.declaring ≡ false
  pub shut : b.closed ≡ true → b.connection ≡ false

close_locked-wire : (b : Broker) → Sound b → (close_locked b).wire ≡ no_wire
unfolding close_locked closed_wire
close_locked-wire b h = elim (Bool-cases b.connection) [
  | inl on ↦ rw on refl
  | inr off ↦ rw (off, h.reachable off) (ground arith)
]

abbrev full_wire : Wire
full_wire = record { connection = true; declaring = false; publisher = true; consumer = true }

-- A step that fails leaves nothing open.
abbrev Ends : Wire → Result (Unit {0}) × Wire → Type 0
Ends to (ok _, w) = w ≡ to
Ends to (err e, w) = w ≡ no_wire

-- Opening ends with all that the broker needs, or with nothing.
open_wire-Ends : (s : Server) (b : Broker) → Ends full_wire (open_wire s b no_wire)
unfolding open_wire declare amqp_call ◌then_next◌ and_then
open_wire-Ends s b = ground arith

keep_wire-Sound :
    (b : Broker) (r : Result (Unit {0}) × Wire)
    → b.connection ≡ false
    → b.closed ≡ false
    → Ends full_wire r
    → Sound (keep_wire b r).1
unfolding keep_wire
keep_wire-Sound b (ok _, w) off on h = record {
  reachable = λ e. absurd (cc);
  declared = rw h refl;
  shut = λ e. absurd (cc);
}
keep_wire-Sound b (err _, w) off on h = record {
  reachable = λ e. h;
  declared = rw h refl;
  shut = λ e. off;
}

connect_locked-Sound :
    (s : Server) (b : Broker) → Sound b → b.closed ≡ false → Sound (connect_locked s b).1
unfolding connect_locked
connect_locked-Sound s b h on =
    let emptied = close_locked b in
    keep_wire-Sound emptied (open_wire s b emptied.wire) (unfold close_locked in refl)
      (unfold close_locked in on)
      (subst (λ w. Ends full_wire (open_wire s b w)) (sym (close_locked-wire b h))
        (open_wire-Ends s b))

pick-Sound :
    (c : Bool) (x y : Result (Unit {0}) × Broker)
    → Sound x.1
    → (c ≡ false → Sound y.1)
    → Sound (if c then x else y).1
pick-Sound true x y h k = h
pick-Sound false x y h k = k refl

connect-Sound : (s : Server) (b : Broker) → Sound b → Sound (connect s b).1
unfolding connect
connect-Sound s b h = pick-Sound b.closed _ _ h (connect_locked-Sound s b h)

reconnect-Sound : (s : Server) (b : Broker) → Sound b → Sound (reconnect s b).1
unfolding reconnect
reconnect-Sound s b h =
    pick-Sound b.closed _ _ h
      (λ on. pick-Sound (healthy_locked b) _ _ h (λ _. connect_locked-Sound s b h on))

close-Sound : (b : Broker) → Sound b → Sound (close b)
unfolding close
close-Sound b h =
    let emptied : (close_locked (record b { closed = true })).wire ≡ no_wire =
      unfold close_locked in unfold closed_wire in close_locked-wire b h in
    record {
      reachable = λ e. emptied;
      declared = rw emptied refl;
      shut = λ e. unfold close_locked in refl;
    }

-- What happens to a broker: OpenRabbit and the calls that follow a loss connect it, with any
-- answers of the server; a connection or a channel is lost; it is closed.
pub data Event : Type 0 where
  connects reconnects : Server → Event
  loses_connection loses_publisher loses_consumer closes : Event

abbrev pub with_wire : (Wire → Wire) → Broker → Broker
with_wire f b = record b { wire = f b.wire }

pub after : Event → Broker → Broker
unfolding connect reconnect close
after (connects s) b = (connect s b).1
after (reconnects s) b = (reconnect s b).1
after loses_connection b = with_wire (λ w. no_wire) b
after loses_publisher b = with_wire (λ w. record w { publisher = false }) b
after loses_consumer b = with_wire (λ w. record w { consumer = false }) b
after closes b = close b

pub run_events : List Event → Broker → Broker
unfolding after
run_events [] b = b
run_events (event ∷ events) b = run_events events (after event b)

after-Sound : (event : Event) (b : Broker) → Sound b → Sound (after event b)
unfolding after
after-Sound (connects s) b h = connect-Sound s b h
after-Sound (reconnects s) b h = reconnect-Sound s b h
after-Sound loses_connection b h = record { reachable = λ e. refl; declared = refl; shut = h.shut }
after-Sound loses_publisher b h = record {
  reachable = λ e. ap (λ (w : Wire). record w { publisher = false }) (h.reachable e);
  declared = h.declared;
  shut = h.shut;
}
after-Sound loses_consumer b h = record {
  reachable = λ e. ap (λ (w : Wire). record w { consumer = false }) (h.reachable e);
  declared = h.declared;
  shut = h.shut;
}
after-Sound closes b h = close-Sound b h

still_closed :
    (c : Bool) (x y : Result (Unit {0}) × Broker)
    → c ≡ true
    → x.1.closed ≡ true
    → (if c then x else y).1.closed ≡ true
still_closed true x y h k = k
still_closed false x y h k = absurd (cc)

-- A broker that is closed is not opened again.
after-closed : (event : Event) (b : Broker) → b.closed ≡ true → (after event b).closed ≡ true
unfolding after connect reconnect close close_locked
after-closed (connects s) b h = still_closed b.closed _ _ h h
after-closed (reconnects s) b h = still_closed b.closed _ _ h h
after-closed loses_connection b h = h
after-closed loses_publisher b h = h
after-closed loses_consumer b h = h
after-closed closes b h = refl

-- Whatever the server answers, at whatever step it fails, and whatever is lost in between: the
-- channel for the declarations is closed, all that is open belongs to the connection that the
-- broker has, and nothing is open of a broker that is closed; and a broker that is closed stays so.
pub run_events-Sound :
    (events : List Event) (b : Broker)
    → Sound b
    → Sound (run_events events b) × (b.closed ≡ true → (run_events events b).closed ≡ true)
unfolding run_events
run_events-Sound [] b h = (h, λ shut. shut)
run_events-Sound (event ∷ events) b h =
    let (sound, stays) = run_events-Sound events (after event b) (after-Sound event b h) in
    (sound, λ shut. stays (after-closed event b shut))

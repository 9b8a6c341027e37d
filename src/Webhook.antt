-- ===== src/Webhook.antt =====
-- internal/webhook/handler.go: from a request of GitHub to a task on the queue.
pub mod Accepted
pub mod Guards
use github_pr_review_agent.Common.{
  ℕ, ◌+◌, ◌==◌, Bool, ◌||◌, Option, none, some, List, [], ◌∷◌, ◌++◌, Text, is_empty, codes, text_eq,
  take, length, ltb, if◌then◌else◌,
}
use github_pr_review_agent.Store.Tables.{NewTask, queued, failed}
use github_pr_review_agent.Store.Transaction.{Conn, Error, Result, ok, err}
use github_pr_review_agent.Store.Rows.{Task}
use github_pr_review_agent.Store.Creation.{create_task}
use github_pr_review_agent.Queue.{to_main, Sent, is_confirmed, publish}
use github_pr_review_agent.Worker.Names.{cut}
use github_pr_review_agent.Worker.Failure.{World, set_status}

-- The fields of the JSON payload that are read.
pub record Payload : Type 0 where
  pub action : Text
  pub number : ℕ
  pub sha : Text
  pub full_name : Text

-- A request: its body (bytes), or none where reading it fails, and its headers.
pub record Request : Type 0 where
  pub body : Option Text
  pub signature : Text
  pub event : Text
  pub delivery : Text

-- The handler's secret, and what is not in the source: the hexadecimal HMAC-SHA256 of a body under
-- a secret, and json.Unmarshal.
pub record Checks : Type 0 where
  pub secret : Text
  pub mac : Text → Text → Text
  pub unmarshal : Text → Option Payload

-- What a call meets: the faults of its store calls, randomID, and the broker with its error.
pub record Meets : Type 0 where
  pub create : Conn
  pub random : Text
  pub mark_queued : Conn
  pub broker : Sent
  pub publish_error : Text
  pub mark_failed : Conn

pub data Reply : Type 0 where
  refused_with : Text → Reply
  ignored : Text → Reply
  duplicate : ℕ → Reply
  accepted : ℕ → Reply

-- The status code with the body.
abbrev pub Response : Type 0
Response = ℕ × Reply

abbrev pub max_webhook_body_bytes : ℕ
max_webhook_body_bytes = 26_214_400

-- VerifyWebhookSignature of internal/github/auth.go.
pub verify_webhook_signature : Checks → Text → Text → Bool
verify_webhook_signature k body signature =
    if is_empty k.secret
    then Bool.true
    else text_eq (codes "sha256=" ++ k.mac k.secret body) signature

publish_task : Meets → ℕ → World → Response × World
publish_task m id world =
    let world₁ = record world { sent = publish m.broker (to_main id) world.sent } in
    if is_confirmed m.broker then ((202, accepted id), world₁) else (
      (500, refused_with (codes "publish review task")),
      (set_status m.mark_failed id failed m.publish_error world₁).1,
    )

after_mark : Meets → ℕ → Result (Unit {0}) × World → Response × World
unfolding publish_task
after_mark m id (err e, world) = ((500, refused_with (codes "mark review task queued")), world)
after_mark m id (ok _, world) = publish_task m id world

after_create : Meets → Result (Task × Bool) → World → Response × World
unfolding after_mark
after_create m (err e) world = ((500, refused_with (codes "create review task")), world)
after_create m (ok (task, Bool.false)) world = ((202, duplicate task.id), world)
after_create m (ok (task, Bool.true)) world =
    after_mark m task.id (set_status m.mark_queued task.id queued [] world)

new_task : Payload → Request → NewTask
new_task p r = record {
  repo = p.full_name;
  pr_number = p.number;
  commit_sha = p.sha;
  action = p.action;
  delivery_id = r.delivery;
}

create_for : Meets → Payload → Request → World → Response × World
unfolding after_create new_task
create_for m p r world =
    let (result, db) = create_task m.create m.random (new_task p r) world.db in
    after_create m result (record world { db = db })

names_no_repository : Option (Text × Text) → Bool
names_no_repository none = Bool.true
names_no_repository (some x) = Bool.false

pub wanted_action : Text → Bool
wanted_action a =
    text_eq a (codes "opened") || text_eq a (codes "synchronize") || text_eq a (codes "reopened")

with_payload : Meets → Request → Option Payload → World → Response × World
unfolding create_for names_no_repository wanted_action
with_payload m r none world = ((400, refused_with (codes "invalid payload")), world)
with_payload m r (some p) world =
    if wanted_action p.action
    then (if names_no_repository (cut b'/' p.full_name) || (p.number == 0)
        then ((400, refused_with (codes "invalid repository or pr number")), world)
        else create_for m p r world)
    else ((200, ignored p.action), world)

-- `body` is what io.ReadAll reads through the limit.
with_body : Checks → Meets → Request → Text → World → Response × World
unfolding with_payload verify_webhook_signature
with_body k m r body world =
    if ltb max_webhook_body_bytes (length body)
    then ((413, refused_with (codes "payload too large")), world)
    else if verify_webhook_signature k body r.signature
    then (if text_eq r.event (codes "pull_request")
        then with_payload m r (k.unmarshal body) world
        else ((400, refused_with (codes "invalid event type")), world))
    else ((401, refused_with (codes "invalid signature")), world)

read_body : Checks → Meets → Request → Option Text → World → Response × World
unfolding with_body
read_body k m r none world = ((400, refused_with (codes "read body")), world)
read_body k m r (some bytes) world = with_body k m r (take (max_webhook_body_bytes + 1) bytes) world

unfoldable pub handle : Checks → Meets → Request → World → Response × World
unfolding read_body
handle k m r world = read_body k m r r.body world

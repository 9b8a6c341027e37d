-- ===== src/Webhook/Accepted.antt =====
-- internal/webhook/handler.go: the answers of Handle.
use github_pr_review_agent.Common.{
  ℕ, ◌≡◌, ◌≢◌, refl, Bool, true, false, Option, none, some, List, [], ◌∷◌, Text, arith, Bool-cases,
  inl, inr, ltb, length, take, text_eq, codes, ◌||◌, ◌==◌, ◌+◌,
}
use github_pr_review_agent.Store.Tables.{queued}
use github_pr_review_agent.Store.Transaction.{Result, ok, err}
use github_pr_review_agent.Store.Rows.{Task}
use github_pr_review_agent.Store.Trail.{status_of}
use github_pr_review_agent.Store.Transitions.Settled.{update_task_status-status}
use github_pr_review_agent.Queue.{Published, to_main, Sent}
use github_pr_review_agent.Worker.Names.{cut}
use github_pr_review_agent.Worker.Failure.{World, set_status}
use github_pr_review_agent.Webhook.{
  Payload, Request, Checks, Meets, refused_with, ignored, duplicate, accepted, Response,
  publish_task, after_mark, after_create, create_for, names_no_repository, wanted_action,
  with_payload, with_body, verify_webhook_signature, read_body, handle, max_webhook_body_bytes,
}

-- What an answer promises about the world before and after.
abbrev pub Promised : World → Response × World → Type 0
Promised world ((code, accepted id), world') =
    (code ≡ 202)
    × (status_of id world'.db.tasks ≡ some queued)
    × (world'.sent ≡ to_main id ∷ world.sent)
Promised world ((code, duplicate id), world') = (code ≡ 202) × (world'.sent ≡ world.sent)
Promised world ((code, ignored action), world') = (code ≡ 200) × (world' ≡ world)
Promised world ((code, refused_with text), world') = code ≢ 202

-- The same for what follows the creation of the task.
abbrev Tasked : List Published → Response × World → Type 0
Tasked sent ((code, accepted id), world') =
    (code ≡ 202) × (status_of id world'.db.tasks ≡ some queued) × (world'.sent ≡ to_main id ∷ sent)
Tasked sent ((code, duplicate id), world') = (code ≡ 202) × (world'.sent ≡ sent)
Tasked sent ((code, ignored action), world') = ⊥
Tasked sent ((code, refused_with text), world') = code ≢ 202

Tasked-Promised :
    (world : World) (answer : Response × World) → Tasked world.sent answer → Promised world answer
Tasked-Promised world ((code, accepted id), world') h = h
Tasked-Promised world ((code, duplicate id), world') h = h
Tasked-Promised world ((code, ignored action), world') h = absurd h
Tasked-Promised world ((code, refused_with text), world') h = h

publish_task-Tasked :
    (m : Meets) (id : ℕ) (world : World)
    → status_of id world.db.tasks ≡ some queued
    → Tasked world.sent (publish_task m id world)
unfolding publish_task
publish_task-Tasked m id world at = go m.broker refl
  where
    go : (b : Sent) → m.broker ≡ b → Tasked world.sent (publish_task m id world)
    go Sent.confirmed e = rw e (refl, at, refl)
    go Sent.lost e = rw e (λ q. ground arith)
    go Sent.unconfirmed e = rw e (λ q. ground arith)

after_mark-Tasked :
    (m : Meets) (id : ℕ) (r : Result (Unit {0})) (world : World)
    → (r ≡ ok tt → status_of id world.db.tasks ≡ some queued)
    → Tasked world.sent (after_mark m id (r, world))
unfolding after_mark
after_mark-Tasked m id (err e) world at = λ q. ground arith
after_mark-Tasked m id (ok tt) world at = publish_task-Tasked m id world (at refl)

after_create-Tasked :
    (m : Meets) (r : Result (Task × Bool)) (world : World)
    → Tasked world.sent (after_create m r world)
unfolding after_create
after_create-Tasked m (err e) world = λ q. ground arith
after_create-Tasked m (ok (task, false)) world = (refl, refl)
after_create-Tasked m (ok (task, true)) world =
    after_mark-Tasked m task.id (set_status m.mark_queued task.id queued [] world).0 _
      (update_task_status-status m.mark_queued task.id queued [] world.db)

create_for-Promised :
    (m : Meets) (p : Payload) (r : Request) (world : World)
    → Promised world (create_for m p r world)
unfolding create_for
create_for-Promised m p r world =
    Tasked-Promised world (create_for m p r world) (after_create-Tasked m _ _)

with_payload-Promised :
    (m : Meets) (r : Request) (p : Option Payload) (world : World)
    → Promised world (with_payload m r p world)
unfolding with_payload
with_payload-Promised m r none world = λ q. ground arith
with_payload-Promised m r (some p) world = elim (Bool-cases (wanted_action p.action)) [
  | inr unwanted ↦ rw unwanted (refl, refl)
  | inl wanted ↦
      rw wanted (elim (Bool-cases (names_no_repository (cut b'/' p.full_name) || (p.number == 0))) [
        | inl bad ↦ rw bad (λ q. ground arith)
        | inr good ↦ rw good (create_for-Promised m p r world)
      ])
]

with_body-Promised :
    (k : Checks) (m : Meets) (r : Request) (body : Text) (world : World)
    → Promised world (with_body k m r body world)
unfolding with_body
with_body-Promised k m r body world = elim (Bool-cases (ltb max_webhook_body_bytes (length body))) [
  | inl large ↦ rw large (λ q. ground arith)
  | inr small ↦ rw small (elim (Bool-cases (verify_webhook_signature k body r.signature)) [
    | inr forged ↦ rw forged (λ q. ground arith)
    | inl signed ↦ rw signed (elim (Bool-cases (text_eq r.event (codes "pull_request"))) [
      | inr other ↦ rw other (λ q. ground arith)
      | inl event ↦ rw event (with_payload-Promised m r (k.unmarshal body) world)
    ])
  ])
]

-- What the answer of the webhook promises, whatever fails: 202 with "queued" means that the task is
-- in status queued and that the broker has confirmed its message; 202 with "duplicate" that nothing
-- has been published; 200 that nothing has changed at all; and an error is never a 202.
pub handle-Promised :
    (k : Checks) (m : Meets) (r : Request) (world : World) → Promised world (handle k m r world)
unfolding handle read_body
handle-Promised k m r world = go r.body
  where
    go : (body : Option Text) → Promised world (read_body k m r body world)
    go none = λ q. ground arith
    go (some bytes) = with_body-Promised k m r (take (max_webhook_body_bytes + 1) bytes) world

-- ===== src/Webhook/Guards.antt =====
-- internal/webhook/handler.go: Handle and the store.
use github_pr_review_agent.Common.{
  ℕ, ◌≡◌, refl, Bool, true, false, Option, none, some, Text, arith, Bool-cases, inl, inr, ◌⊎◌, [],
  ltb, length, take, text_eq, codes, ◌++◌, text_eq→≡, ◌||◌, ◌==◌, ◌+◌, ◌≢◌,
}
use github_pr_review_agent.Store.Tables.{queued, failed}
use github_pr_review_agent.Store.Transaction.{Result, ok, err}
use github_pr_review_agent.Store.Rows.{Task}
use github_pr_review_agent.Store.Trail.{IsAudited, Change-IsAudited}
use github_pr_review_agent.Store.Creation.Effects.{create_task-Change}
use github_pr_review_agent.Store.Transitions.Effects.{update_task_status-Change}
use github_pr_review_agent.Queue.{is_confirmed}
use github_pr_review_agent.Worker.Names.{cut}
use github_pr_review_agent.Worker.Failure.{World}
use github_pr_review_agent.Webhook.{
  Payload, Request, Checks, Meets, publish_task, after_mark, after_create, new_task, create_for,
  names_no_repository, wanted_action, with_payload, with_body, verify_webhook_signature, read_body,
  handle, max_webhook_body_bytes,
}

with_body_unsigned :
    (k : Checks) (m : Meets) (r : Request) (body : Text) (world : World)
    → verify_webhook_signature k body r.signature ≡ false
    → ((with_body k m r body world).1 ≡ world)
      × (((with_body k m r body world).0.0 ≡ 401) ⊎ ((with_body k m r body world).0.0 ≡ 413))
unfolding with_body
with_body_unsigned k m r body world forged =
    elim (Bool-cases (ltb max_webhook_body_bytes (length body))) [
      | inl large ↦ rw large (refl, inr refl)
      | inr small ↦ rw (small, forged) (refl, inl refl)
    ]

verify_webhook_signature_forged :
    (k : Checks) (body signature : Text)
    → k.secret ≢ []
    → signature ≢ codes "sha256=" ++ k.mac k.secret body
    → verify_webhook_signature k body signature ≡ false
unfolding verify_webhook_signature
verify_webhook_signature_forged k body signature secret forged =
    ground (arith, text_eq→≡ (codes "sha256=" ++ k.mac k.secret body) signature)

-- With a secret, a request whose signature is not the HMAC of the bytes that are read changes
-- neither the tables nor the queue, and is answered by 401, by 413 if it is too large, or by 400 if
-- it cannot be read.
pub handle_unsigned :
    (k : Checks) (m : Meets) (r : Request) (world : World)
    → k.secret ≢ []
    → ((bytes : Text)
        → r.body ≡ some bytes
        → r.signature ≢ codes "sha256=" ++ k.mac k.secret (take (max_webhook_body_bytes + 1) bytes))
    → ((handle k m r world).1 ≡ world)
      × (((handle k m r world).0.0 ≡ 400)
          ⊎ (((handle k m r world).0.0 ≡ 401) ⊎ ((handle k m r world).0.0 ≡ 413)))
unfolding handle read_body
handle_unsigned k m r world secret forged = go r.body refl
  where
    go :
        (body : Option Text)
        → r.body ≡ body
        → ((read_body k m r body world).1 ≡ world)
          × (((read_body k m r body world).0.0 ≡ 400)
              ⊎ (((read_body k m r body world).0.0 ≡ 401)
                  ⊎ ((read_body k m r body world).0.0 ≡ 413)))
    go none e = (refl, inl refl)
    go (some bytes) e =
        let (same, code) =
          with_body_unsigned k m r (take (max_webhook_body_bytes + 1) bytes) world
            (verify_webhook_signature_forged k _ r.signature secret (forged bytes e)) in
        (same, inr code)

module _ (m : Meets) where
  publish_task-IsAudited :
      (id : ℕ) (world : World) → IsAudited world.db → IsAudited (publish_task m id world).1.db
  unfolding publish_task
  publish_task-IsAudited id world v = elim (Bool-cases (is_confirmed m.broker)) [
    | inl taken ↦ rw taken v
    | inr lost ↦ rw lost (
        Change-IsAudited
          (update_task_status-Change m.mark_failed id failed m.publish_error world.db) v)
  ]

  after_mark-IsAudited :
      (id : ℕ) (r : Result (Unit {0})) (world : World)
      → IsAudited world.db
      → IsAudited (after_mark m id (r, world)).1.db
  unfolding after_mark
  after_mark-IsAudited id (err e) world v = v
  after_mark-IsAudited id (ok u) world v = publish_task-IsAudited id world v

  after_create-IsAudited :
      (r : Result (Task × Bool)) (world : World)
      → IsAudited world.db
      → IsAudited (after_create m r world).1.db
  unfolding after_create
  after_create-IsAudited (err e) world v = v
  after_create-IsAudited (ok (task, false)) world v = v
  after_create-IsAudited (ok (task, true)) world v =
      after_mark-IsAudited task.id _ _
        (Change-IsAudited (update_task_status-Change m.mark_queued task.id queued [] world.db) v)

  with_payload-IsAudited :
      (r : Request) (p : Option Payload) (world : World)
      → IsAudited world.db
      → IsAudited (with_payload m r p world).1.db
  unfolding with_payload create_for
  with_payload-IsAudited r none world v = v
  with_payload-IsAudited r (some p) world v = elim (Bool-cases (wanted_action p.action)) [
    | inr unwanted ↦ rw unwanted v
    | inl wanted ↦
        rw wanted
          (elim (Bool-cases (names_no_repository (cut b'/' p.full_name) || (p.number == 0))) [
            | inl bad ↦ rw bad v
            | inr good ↦ rw good (
                after_create-IsAudited _ _ (
                  Change-IsAudited (create_task-Change m.create m.random (new_task p r) world.db)
                    v))
          ])
  ]

  with_body-IsAudited :
      (k : Checks) (r : Request) (body : Text) (world : World)
      → IsAudited world.db
      → IsAudited (with_body k m r body world).1.db
  unfolding with_body
  with_body-IsAudited k r body world v =
      elim (Bool-cases (ltb max_webhook_body_bytes (length body))) [
        | inl large ↦ rw large v
        | inr small ↦ rw small (elim (Bool-cases (verify_webhook_signature k body r.signature)) [
          | inr forged ↦ rw forged v
          | inl signed ↦ rw signed (elim (Bool-cases (text_eq r.event (codes "pull_request"))) [
            | inr other ↦ rw other v
            | inl event ↦ rw event (with_payload-IsAudited r (k.unmarshal body) world v)
          ])
        ])
      ]

-- Whatever request comes and whatever fails, the audit log still tells the status of every task
-- afterwards, if it did so before.
handle-IsAudited :
    (k : Checks) (m : Meets) (r : Request) (world : World)
    → IsAudited world.db
    → IsAudited (handle k m r world).1.db
unfolding handle read_body
handle-IsAudited k m r world v = go r.body
  where
    go : (body : Option Text) → IsAudited (read_body k m r body world).1.db
    go none = v
    go (some bytes) = with_body-IsAudited m k r (take (max_webhook_body_bytes + 1) bytes) world v

-- ===== src/Taskapi/Requeue.antt =====
-- internal/taskapi/handler.go: the handler requeue.
use github_pr_review_agent.Common.{
  ℕ, ◌==◌, ◌≡◌, ◌≢◌, refl, Option, none, some, ◌∷◌, if◌then◌else◌, Bool-cases, inl, inr, arith,
}
use github_pr_review_agent.Store.Tables.{queued, dead_letter}
use github_pr_review_agent.Store.Transaction.{
  Conn, Error, task_not_found, task_transition_failed, Result, ok, err,
}
use github_pr_review_agent.Store.Trail.{status_of}
use github_pr_review_agent.Store.Transitions.{requeue_task}
use github_pr_review_agent.Store.Transitions.Requeued.{requeue_task-status}
use github_pr_review_agent.Queue.{to_main, Sent, is_confirmed, publish}
use github_pr_review_agent.Worker.Failure.{World}

-- The status code for an error of RequeueTask.
error_code : Error → ℕ
error_code task_not_found = 404
error_code task_transition_failed = 409
error_code _ = 500

after_requeue : Sent → ℕ → Result (Unit {0}) → World → ℕ × World
unfolding error_code
after_requeue broker id (err e) world = (error_code e, world)
after_requeue broker id (ok _) world =
    let world₁ = record world { sent = publish broker (to_main id) world.sent } in
    (if is_confirmed broker then 202 else 500, world₁)

-- `parsed` is what strconv.ParseUint makes of the path; the answer is its status code.
unfoldable pub requeue : Option ℕ → Conn → Sent → World → ℕ × World
unfolding after_requeue
requeue none c broker world = (400, world)
requeue (some id) c broker world =
    if id == 0
    then (400, world)
    else let (result, db) = requeue_task c id world.db in
      after_requeue broker id result (record world { db = db })

error_code-failed : (e : Error) → error_code e ≢ 202
unfolding error_code
error_code-failed e h = ground arith

after_requeue-accepted :
    (broker : Sent) (id : ℕ) (result : Result (Unit {0})) (world : World)
    → (after_requeue broker id result world).0 ≡ 202
    → (result ≡ ok tt)
      × ((after_requeue broker id result world).1 ≡ record world { sent = to_main id ∷ world.sent })
unfolding after_requeue
after_requeue-accepted broker id (err e) world h = absurd (error_code-failed e h)
after_requeue-accepted Sent.confirmed id (ok tt) world h = (refl, refl)
after_requeue-accepted Sent.lost id (ok tt) world h = absurd (ground arith)
after_requeue-accepted Sent.unconfirmed id (ok tt) world h = absurd (ground arith)

-- The answer 202 means that the task was in the dead letters, is queued now, and has its message
-- with the broker, after those that were there.
pub requeue_accepted :
    (id : ℕ) (c : Conn) (broker : Sent) (world : World)
    → (requeue (some id) c broker world).0 ≡ 202
    → let world' = (requeue (some id) c broker world).1 in
      (status_of id world.db.tasks ≡ some dead_letter)
      × (status_of id world'.db.tasks ≡ some queued)
      × (world'.sent ≡ to_main id ∷ world.sent)
unfolding requeue
requeue_accepted id c broker world = elim (Bool-cases (id == 0)) [
  | inl zero_id ↦ rw zero_id (λ h. absurd (ground arith))
  | inr real ↦ rw real (λ h.
      let (fine, after) =
        after_requeue-accepted broker id (requeue_task c id world.db).0
          (record world { db = (requeue_task c id world.db).1 }) h in
      let (was, now_queued) = requeue_task-status c id world.db fine in
      (was, rw after now_queued, rw after refl))
]

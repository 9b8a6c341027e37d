-- ===== src/Worker/Process/Handled.antt =====
-- internal/worker/worker.go: what is left behind after a failure or a review.
use github_pr_review_agent.Common.{
  ℕ, ◌≡◌, ◌≢◌, refl, true, some, Text, arith, Bool-cases, inl, inr, if◌then◌else◌, List, [], ◌∷◌,
  sym, subst, ltb, codes, ◌++◌,
}
use github_pr_review_agent.Store.Tables.{
  Status, done, failed, superseded, TaskRow, Database, find_task,
}
use github_pr_review_agent.Store.Transaction.{
  Conn, Error, Result, ok, err, sound, task_superseded, message,
}
use github_pr_review_agent.Store.Rows.{Task}
use github_pr_review_agent.Store.Trail.{status_of}
use github_pr_review_agent.Store.Transitions.Effects.{update_task_status-Change}
use github_pr_review_agent.Store.Transitions.Settled.{
  Change-found, update_task_status-status, update_task_status_settles,
}
use github_pr_review_agent.Queue.{
  Message, Published, to_retry, to_dead_letter, of_task, Sent, is_confirmed, publish,
}
use github_pr_review_agent.Worker.Options.{Worker}
use github_pr_review_agent.Worker.Delay.{retry_delay}
use github_pr_review_agent.Worker.Failure.{
  World, ReviewEnd, reviewed, review_failed, review_panicked, Surroundings, set_status, retry,
  dead_letter_task, fail, next_attempt, recover_panic,
}
use github_pr_review_agent.Worker.Process.{supersede, review_error, after_review, is_finished}

-- Where a task stands when a message about it has been dealt with: a further message about it is
-- with the broker, or its status is final.
pub data IsHandled (id : ℕ) (sent : List Published) (world : World) : Type 0 where
  follows : (m : Published) → of_task m ≡ id → world.sent ≡ m ∷ sent → IsHandled id sent world
  settled :
      (st : Status)
      → status_of id world.db.tasks ≡ some st
      → is_finished st ≡ true
      → IsHandled id sent world

pub set_status-IsHandled :
    (c : Conn) (id : ℕ) (st : Status) (text : Text) (world : World) (sent : List Published)
    (row : TaskRow)
    → c.fault ≡ sound
    → id ≢ 0
    → find_task id world.db.tasks ≡ some row
    → st ≢ superseded
    → is_finished st ≡ true
    → IsHandled id sent (set_status c id st text world).1
set_status-IsHandled c id st text world sent row fine nonzero found live final =
    elim (update_task_status_settles c id st text world.db row fine nonzero found live) [
      | inl e ↦ settled st e final
      | inr e ↦ settled superseded e refl
    ]

-- A further message, if the broker confirms it, and a final status, if it does not.
abbrev published_or : Sent → Published → Database → (World → World) → World → World
published_or b m db settle world =
    let world₁ = record world { sent = publish b m world.sent } in
    if is_confirmed b then record world₁ { db = db } else settle world₁

published_or-IsHandled :
    (c : Conn) (id : ℕ) (text : Text) (row : TaskRow) (b : Sent) (m : Published) (db : Database)
    (world : World)
    → c.fault ≡ sound
    → id ≢ 0
    → find_task id world.db.tasks ≡ some row
    → of_task m ≡ id
    → IsHandled id world.sent
        (published_or b m db (λ world'. (set_status c id failed text world').1) world)
published_or-IsHandled c id text row Sent.confirmed m db world fine nonzero found at =
    follows m at refl
published_or-IsHandled c id text row Sent.lost m db world fine nonzero found at =
    set_status-IsHandled c id failed text world world.sent row fine nonzero found (ground arith)
      refl
published_or-IsHandled c id text row Sent.unconfirmed m db world fine nonzero found at =
    follows m at refl

module _ (w : Worker) (s : Surroundings) (task : Task) (msg : Message) (nonzero : task.id ≢ 0)
    (last_fine : s.last_status.fault ≡ sound) where
  retry-IsHandled :
      (attempt : ℕ) (text : Text) (world : World) (row : TaskRow)
      → find_task task.id world.db.tasks ≡ some row
      → IsHandled task.id world.sent (retry w s task msg attempt text world).1
  unfolding retry
  retry-IsHandled attempt text world row found =
      published_or-IsHandled s.last_status task.id text row s.broker
        (to_retry task.id attempt (retry_delay w s.dice attempt)) _ world last_fine nonzero found
        refl

  pub dead_letter_task-IsHandled :
      (text : Text) (world : World) (row : TaskRow)
      → find_task task.id world.db.tasks ≡ some row
      → IsHandled task.id world.sent (dead_letter_task w s task msg text world).1
  unfolding dead_letter_task
  dead_letter_task-IsHandled text world row found =
      published_or-IsHandled s.last_status task.id text row s.broker
        (to_dead_letter task.id (next_attempt task msg)) _ world last_fine nonzero found refl

  fail-IsHandled :
      (text : Text) (world : World) (row : TaskRow)
      → find_task task.id world.db.tasks ≡ some row
      → IsHandled task.id world.sent (fail w s task msg text world).1
  unfolding fail
  fail-IsHandled text world row found =
      elim (Bool-cases (ltb (next_attempt task msg) w.max_attempts)) [
        | inl more ↦ rw more (retry-IsHandled (next_attempt task msg) text world row found)
        | inr over ↦ rw over (dead_letter_task-IsHandled text world row found)
      ]

  supersede-IsHandled :
      (r : Result (Unit {0}) × World) (sent : List Published) (row : TaskRow)
      → r.1.sent ≡ sent
      → find_task task.id r.1.db.tasks ≡ some row
      → (r.0 ≡ ok tt → status_of task.id r.1.db.tasks ≡ some superseded)
      → IsHandled task.id sent (supersede w s task msg r).1
  unfolding supersede
  supersede-IsHandled (ok u, world) sent row e found over = settled superseded (over refl) refl
  supersede-IsHandled (err x, world) sent row e found over =
      subst
        (λ l.
          IsHandled task.id l
            (fail w s task msg (codes "persist superseded task: " ++ message x) world).1)
        e (fail-IsHandled (codes "persist superseded task: " ++ message x) world row found)

  module _ (fine : s.status.fault ≡ sound) (same_id : msg.task_id ≡ task.id) where
    review_error-IsHandled :
        (e : Error) (world : World) (row : TaskRow)
        → find_task task.id world.db.tasks ≡ some row
        → IsHandled task.id world.sent (review_error w s task msg e world).1
    unfolding review_error
    review_error-IsHandled (task_superseded detail) world row found =
        subst
          (λ k.
            IsHandled task.id world.sent
              (supersede w s task msg
                (set_status s.status k superseded (message (task_superseded detail)) world)).1)
          (sym same_id)
          (let text = message (task_superseded detail) in
            let (r, there) =
              Change-found task.id row
                (update_task_status-Change s.status task.id superseded text world.db) found in
            supersede-IsHandled (set_status s.status task.id superseded text world) world.sent r
              refl there (update_task_status-status s.status task.id superseded text world.db))
    review_error-IsHandled e world row found = fail-IsHandled (message e) world row found

    pub after_review-IsHandled :
        (end : ReviewEnd) (world : World) (row : TaskRow)
        → find_task task.id world.db.tasks ≡ some row
        → IsHandled task.id world.sent (after_review w s task msg end world).1
    unfolding after_review recover_panic
    after_review-IsHandled reviewed world row found =
        subst (λ k. IsHandled task.id world.sent (set_status s.status k done [] world).1)
          (sym same_id)
          (set_status-IsHandled s.status task.id done [] world world.sent row fine nonzero found
            (ground arith) refl)
    after_review-IsHandled (review_failed e) world row found =
        review_error-IsHandled e world row found
    after_review-IsHandled (review_panicked text) world row found =
        fail-IsHandled (codes "review worker panicked: " ++ text) world row found

-- ===== src/Worker/Recovery/Scans.antt =====
-- internal/worker/worker.go: the recovery scans and the queue.
use github_pr_review_agent.Common.{◌≡◌, ◌≢◌, some, refl, Text, Bool-cases, inl, inr, ◌⊎◌, ltb}
use github_pr_review_agent.Store.Tables.{TaskRow, find_task}
use github_pr_review_agent.Store.Transaction.{sound}
use github_pr_review_agent.Store.Rows.{Task}
use github_pr_review_agent.Queue.{Message, to_retry, Sent}
use github_pr_review_agent.Worker.Options.{Worker}
use github_pr_review_agent.Worker.Failure.{World, Surroundings, next_attempt}
use github_pr_review_agent.Worker.Process.Handled.{IsHandled, follows, dead_letter_task-IsHandled}
use github_pr_review_agent.Worker.Recovery.{recover_retry, recover_running}

recover_retry-follows :
    (w : Worker) (s : Surroundings) (task : Task) (msg : Message) (text : Text) (world : World)
    → (recover_retry w s task msg text world ≡ world)
      ⊎ IsHandled task.id world.sent (recover_retry w s task msg text world)
unfolding recover_retry
recover_retry-follows w s task msg text world = go s.broker refl
  where
    go :
        (b : Sent)
        → s.broker ≡ b
        → (recover_retry w s task msg text world ≡ world)
          ⊎ IsHandled task.id world.sent (recover_retry w s task msg text world)
    go Sent.confirmed e = rw e (inr (follows (to_retry task.id _ _) refl refl))
    go Sent.lost e = rw e (inl refl)
    go Sent.unconfirmed e = rw e (inr (follows (to_retry task.id _ _) refl refl))

-- A stale task is never dropped: if its row is there and its id is not 0, then after its recovery
-- either nothing has changed (the next scan finds it again), or the broker has a further message
-- about it, or its status is final, provided that the status update after a dead letter that was
-- not taken reaches the database.
pub recover_running_accounted :
    (w : Worker) (s : Surroundings) (task : Task) (world : World) (row : TaskRow)
    → task.id ≢ 0
    → find_task task.id world.db.tasks ≡ some row
    → s.last_status.fault ≡ sound
    → (recover_running w s task world ≡ world)
      ⊎ IsHandled task.id world.sent (recover_running w s task world)
unfolding recover_running
recover_running_accounted w s task world row nonzero found fine =
    let msg : Message = record { task_id = task.id; attempt = task.attempt_count } in
    elim (Bool-cases (ltb (next_attempt task msg) w.max_attempts)) [
      | inl more ↦ rw more (recover_retry-follows w s task msg _ world)
      | inr over ↦
          rw over (inr (dead_letter_task-IsHandled w s task msg nonzero fine _ world row found))
    ]

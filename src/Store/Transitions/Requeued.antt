-- ===== src/Store/Transitions/Requeued.antt =====
-- internal/store/mysql.go: RequeueTask by its answer.
use github_pr_review_agent.Common.{ℕ, ◌≡◌, refl, some, Option-cases, inl, inr, arith, ◌≢◌}
use github_pr_review_agent.Store.Tables.{queued, dead_letter, TaskRow, Database, find_task}
use github_pr_review_agent.Store.Transaction.{Conn, ok, commit, rollback, transaction_cases}
use github_pr_review_agent.Store.Trail.{status_of}
use github_pr_review_agent.Store.Transitions.{move_row, requeue_body, requeue_task, requeued_row}
use github_pr_review_agent.Store.Transitions.Bodies.{move_row-commit}
use github_pr_review_agent.Store.Transitions.Settled.{after_move-status}
use github_pr_review_agent.Store.Tables.{attempt_count_reset}

requeue_body-row :
    (c : Conn) (id : ℕ) (db db' : Database) (row : TaskRow)
    → find_task id db.tasks ≡ some row
    → requeue_body c id db ≡ ok (commit tt db')
    → move_row c row dead_letter (requeued_row row) attempt_count_reset db ≡ ok (commit tt db')
unfolding requeue_body
requeue_body-row c id db db' row found h = ground arith

requeue_body-status :
    (c : Conn) (id : ℕ) (db db' : Database)
    → requeue_body c id db ≡ ok (commit tt db')
    → (status_of id db.tasks ≡ some dead_letter) × (status_of id db'.tasks ≡ some queued)
requeue_body-status c id db db' h = elim (Option-cases (find_task id db.tasks)) [
  | inl missing ↦ absurd (unfold requeue_body in ground arith)
  | inr (row, found) ↦
      let (was, e) =
        move_row-commit c row dead_letter (requeued_row row) attempt_count_reset db db'
          (requeue_body-row c id db db' row found h) in
      (
        rw (found, was) refl,
        rw e (after_move-status c id row (requeued_row row) attempt_count_reset db found refl),
      )
]

-- A RequeueTask that succeeds has found the task in the dead letters and left it queued.
pub requeue_task-status :
    (c : Conn) (id : ℕ) (db : Database)
    → (requeue_task c id db).0 ≡ ok tt
    → (status_of id db.tasks ≡ some dead_letter)
      × (status_of id (requeue_task c id db).1.tasks ≡ some queued)
unfolding requeue_task
requeue_task-status c id db =
    transaction_cases c (requeue_body c id) db
      (λ r.
        r.0 ≡ ok tt
        → (status_of id db.tasks ≡ some dead_letter) × (status_of id r.1.tasks ≡ some queued))
      (λ r rolled e. absurd (never (rolled tt e)))
      (λ u db' r e confirmed q. requeue_body-status c id db db' e)
  where
    never : requeue_body c id db ≢ ok (rollback tt)
    never e = absurd (unfold requeue_body move_row in ground arith)

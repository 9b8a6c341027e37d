-- ===== src/Store/Transitions/Effects.antt =====
-- internal/store/mysql.go: the operations on tasks, against the contract of Store/Changes.antt.
use github_pr_review_agent.Common.{ℕ, Text}
use github_pr_review_agent.Store.Tables.{Status, Database}
use github_pr_review_agent.Store.Transaction.{Conn}
use github_pr_review_agent.Store.Changes.{Change, transaction-Change}
use github_pr_review_agent.Store.Transitions.{
  update_status_body, update_task_status, claim_body, claim_task, retry_body, mark_task_retry,
  dead_letter_body, mark_task_dead_letter, requeue_body, requeue_task, touch_body,
  touch_queued_task,
}
use github_pr_review_agent.Store.Transitions.Bodies.{
  update_status_body-Change, claim_body-Change, retry_body-Change, dead_letter_body-Change,
  requeue_body-Change, touch_body-Change,
}

pub update_task_status-Change :
    (c : Conn) (id : ℕ) (status : Status) (text : Text) (db : Database)
    → Change db (update_task_status c id status text db).1
unfolding update_task_status
update_task_status-Change c id status text db =
    transaction-Change c (update_status_body c id status text) db
      (λ a db' e. update_status_body-Change c id status text db db' e)

pub claim_task-Change :
    (c : Conn) (id attempt now : ℕ) (db : Database) → Change db (claim_task c id attempt now db).1
unfolding claim_task
claim_task-Change c id attempt now db =
    transaction-Change c (claim_body c id attempt now) db
      (λ a db' e. claim_body-Change c id attempt now db db' a e)

pub mark_task_retry-Change :
    (c : Conn) (id attempt max_attempts : ℕ) (text : Text) (at : ℕ) (db : Database)
    → Change db (mark_task_retry c id attempt max_attempts text at db).1
unfolding mark_task_retry
mark_task_retry-Change c id attempt max_attempts text at db =
    transaction-Change c (retry_body c id attempt max_attempts text at) db
      (λ a db' e. retry_body-Change c id attempt max_attempts text at db db' e)

pub mark_task_dead_letter-Change :
    (c : Conn) (id attempt max_attempts : ℕ) (text : Text) (db : Database)
    → Change db (mark_task_dead_letter c id attempt max_attempts text db).1
unfolding mark_task_dead_letter
mark_task_dead_letter-Change c id attempt max_attempts text db =
    transaction-Change c (dead_letter_body c id attempt max_attempts text) db
      (λ a db' e. dead_letter_body-Change c id attempt max_attempts text db db' e)

pub requeue_task-Change : (c : Conn) (id : ℕ) (db : Database) → Change db (requeue_task c id db).1
unfolding requeue_task
requeue_task-Change c id db =
    transaction-Change c (requeue_body c id) db (λ a db' e. requeue_body-Change c id db db' e)

pub touch_queued_task-Change :
    (c : Conn) (id at : ℕ) (db : Database) → Change db (touch_queued_task c id at db).1
unfolding touch_queued_task
touch_queued_task-Change c id at db =
    transaction-Change c (touch_body c id at) db (λ a db' e. touch_body-Change c id at db db' e)

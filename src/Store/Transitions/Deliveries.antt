-- ===== src/Store/Transitions/Deliveries.antt =====
-- internal/store/mysql.go: the operations on tasks and the tables of the reviews.
use github_pr_review_agent.Common.{ℕ, ◌≡◌, Text, arith, Bool}
use github_pr_review_agent.Store.Tables.{Status, Database}
use github_pr_review_agent.Store.Transaction.{
  Conn, ok, commit, SameReviews, transaction-SameReviews,
}
use github_pr_review_agent.Store.AuditLogs.{insert_audit_log}
use github_pr_review_agent.Store.Rows.{update_row}
use github_pr_review_agent.Store.Transitions.{
  update_status_body, update_task_status, claim_body, claim_task, retry_body, mark_task_retry,
  dead_letter_body, mark_task_dead_letter, requeue_body, requeue_task, touch_body,
  touch_queued_task,
}

update_status_body-SameReviews :
    (c : Conn) (id : ℕ) (status : Status) (text : Text) (db db' : Database) (a : Unit {0})
    → update_status_body c id status text db ≡ ok (commit a db')
    → SameReviews db db'
unfolding update_status_body update_row insert_audit_log
update_status_body-SameReviews c id status text db db' a h = ground arith

pub update_task_status-SameReviews :
    (c : Conn) (id : ℕ) (status : Status) (text : Text) (db : Database)
    → SameReviews db (update_task_status c id status text db).1
unfolding update_task_status
update_task_status-SameReviews c id status text db =
    transaction-SameReviews c (update_status_body c id status text) db
      (λ a db' h. update_status_body-SameReviews c id status text db db' a h)

claim_body-SameReviews :
    (c : Conn) (id attempt now : ℕ) (db db' : Database) (a : Bool)
    → claim_body c id attempt now db ≡ ok (commit a db')
    → SameReviews db db'
unfolding claim_body update_row insert_audit_log
claim_body-SameReviews c id attempt now db db' a h = ground arith

pub claim_task-SameReviews :
    (c : Conn) (id attempt now : ℕ) (db : Database)
    → SameReviews db (claim_task c id attempt now db).1
unfolding claim_task
claim_task-SameReviews c id attempt now db =
    transaction-SameReviews c (claim_body c id attempt now) db
      (λ a db' h. claim_body-SameReviews c id attempt now db db' a h)

retry_body-SameReviews :
    (c : Conn) (id attempt most : ℕ) (text : Text) (at : ℕ) (db db' : Database) (a : Unit {0})
    → retry_body c id attempt most text at db ≡ ok (commit a db')
    → SameReviews db db'
unfolding retry_body update_row insert_audit_log
retry_body-SameReviews c id attempt most text at db db' a h = ground arith

pub mark_task_retry-SameReviews :
    (c : Conn) (id attempt most : ℕ) (text : Text) (at : ℕ) (db : Database)
    → SameReviews db (mark_task_retry c id attempt most text at db).1
unfolding mark_task_retry
mark_task_retry-SameReviews c id attempt most text at db =
    transaction-SameReviews c (retry_body c id attempt most text at) db
      (λ a db' h. retry_body-SameReviews c id attempt most text at db db' a h)

dead_letter_body-SameReviews :
    (c : Conn) (id attempt most : ℕ) (text : Text) (db db' : Database) (a : Unit {0})
    → dead_letter_body c id attempt most text db ≡ ok (commit a db')
    → SameReviews db db'
unfolding dead_letter_body update_row insert_audit_log
dead_letter_body-SameReviews c id attempt most text db db' a h = ground arith

pub mark_task_dead_letter-SameReviews :
    (c : Conn) (id attempt most : ℕ) (text : Text) (db : Database)
    → SameReviews db (mark_task_dead_letter c id attempt most text db).1
unfolding mark_task_dead_letter
mark_task_dead_letter-SameReviews c id attempt most text db =
    transaction-SameReviews c (dead_letter_body c id attempt most text) db
      (λ a db' h. dead_letter_body-SameReviews c id attempt most text db db' a h)

requeue_body-SameReviews :
    (c : Conn) (id : ℕ) (db db' : Database) (a : Unit {0})
    → requeue_body c id db ≡ ok (commit a db')
    → SameReviews db db'
unfolding requeue_body update_row insert_audit_log
requeue_body-SameReviews c id db db' a h = ground arith

pub requeue_task-SameReviews :
    (c : Conn) (id : ℕ) (db : Database) → SameReviews db (requeue_task c id db).1
unfolding requeue_task
requeue_task-SameReviews c id db =
    transaction-SameReviews c (requeue_body c id) db
      (λ a db' h. requeue_body-SameReviews c id db db' a h)

touch_body-SameReviews :
    (c : Conn) (id at : ℕ) (db db' : Database) (a : Unit {0})
    → touch_body c id at db ≡ ok (commit a db')
    → SameReviews db db'
unfolding touch_body update_row insert_audit_log
touch_body-SameReviews c id at db db' a h = ground arith

pub touch_queued_task-SameReviews :
    (c : Conn) (id at : ℕ) (db : Database) → SameReviews db (touch_queued_task c id at db).1
unfolding touch_queued_task
touch_queued_task-SameReviews c id at db =
    transaction-SameReviews c (touch_body c id at) db
      (λ a db' h. touch_body-SameReviews c id at db db' a h)

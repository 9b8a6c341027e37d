-- ===== src/Store/Creation/Deliveries.antt =====
-- internal/store/mysql.go: CreateTask and the tables of the reviews.
use github_pr_review_agent.Common.{◌≡◌, Text, arith, Bool}
use github_pr_review_agent.Store.Tables.{NewTask, Database}
use github_pr_review_agent.Store.Transaction.{
  Conn, ok, commit, SameReviews, transaction-SameReviews,
}
use github_pr_review_agent.Store.AuditLogs.{insert_audit_log}
use github_pr_review_agent.Store.Rows.{Task}
use github_pr_review_agent.Store.Creation.{create_body, create_task, with_delivery_id}

create_body-SameReviews :
    (c : Conn) (input : NewTask) (db db' : Database) (a : Task × Bool)
    → create_body c input db ≡ ok (commit a db')
    → SameReviews db db'
unfolding create_body insert_audit_log
create_body-SameReviews c input db db' a h = ground arith

pub create_task-SameReviews :
    (c : Conn) (random : Text) (input : NewTask) (db : Database)
    → SameReviews db (create_task c random input db).1
unfolding create_task
create_task-SameReviews c random input db =
    transaction-SameReviews c (create_body c (with_delivery_id random input)) db
      (λ a db' h. create_body-SameReviews c (with_delivery_id random input) db db' a h)

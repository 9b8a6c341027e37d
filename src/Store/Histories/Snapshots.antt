-- ===== src/Store/Histories/Snapshots.antt =====
-- internal/store: a row of review_delivery through a history.
use github_pr_review_agent.Common.{ℕ, Text}
use github_pr_review_agent.Store.Tables.{Database}
use github_pr_review_agent.Store.Transaction.{Conn}
use github_pr_review_agent.Store.Creation.{create_task}
use github_pr_review_agent.Store.Creation.Deliveries.{create_task-SameReviews}
use github_pr_review_agent.Store.Transitions.{
  update_task_status, claim_task, mark_task_retry, mark_task_dead_letter, requeue_task,
  touch_queued_task,
}
use github_pr_review_agent.Store.Transitions.Deliveries.{
  update_task_status-SameReviews, claim_task-SameReviews, mark_task_retry-SameReviews,
  mark_task_dead_letter-SameReviews, requeue_task-SameReviews, touch_queued_task-SameReviews,
}
use github_pr_review_agent.Store.Reviews.{create_review_result}
use github_pr_review_agent.Store.Reviews.Snapshots.{
  IsSnapshot, deliveries-IsSnapshot, create_review_result-deliveries,
  prepare_review_delivery-IsSnapshot, mark_review_delivered-IsSnapshot,
}
use github_pr_review_agent.Store.Histories.{
  Call, creates, updates, claims, retries, buries, requeues, touches, saves, prepares, delivers,
  perform,
}

-- Once a task has a delivery, every operation of the store leaves its commit and its marker as they
-- are, whatever its arguments and its fault: a retry reviews the same commit and looks for the same
-- marker.
pub perform-IsSnapshot :
    (k : Conn × Call) (db : Database) (id : ℕ) (sha marker : Text)
    → IsSnapshot id sha marker db
    → IsSnapshot id sha marker (perform k db)
unfolding perform
perform-IsSnapshot (c, creates random input) db id sha marker v =
    deliveries-IsSnapshot id sha marker db (create_task c random input db).1
      (create_task-SameReviews c random input db).0 v
perform-IsSnapshot (c, updates i status text) db id sha marker v =
    deliveries-IsSnapshot id sha marker db (update_task_status c i status text db).1
      (update_task_status-SameReviews c i status text db).0 v
perform-IsSnapshot (c, claims i attempt now) db id sha marker v =
    deliveries-IsSnapshot id sha marker db (claim_task c i attempt now db).1
      (claim_task-SameReviews c i attempt now db).0 v
perform-IsSnapshot (c, retries i attempt most text at) db id sha marker v =
    deliveries-IsSnapshot id sha marker db (mark_task_retry c i attempt most text at db).1
      (mark_task_retry-SameReviews c i attempt most text at db).0 v
perform-IsSnapshot (c, buries i attempt most text) db id sha marker v =
    deliveries-IsSnapshot id sha marker db (mark_task_dead_letter c i attempt most text db).1
      (mark_task_dead_letter-SameReviews c i attempt most text db).0 v
perform-IsSnapshot (c, requeues i) db id sha marker v =
    deliveries-IsSnapshot id sha marker db (requeue_task c i db).1
      (requeue_task-SameReviews c i db).0 v
perform-IsSnapshot (c, touches i at) db id sha marker v =
    deliveries-IsSnapshot id sha marker db (touch_queued_task c i at db).1
      (touch_queued_task-SameReviews c i at db).0 v
perform-IsSnapshot (c, saves input) db id sha marker v =
    deliveries-IsSnapshot id sha marker db (create_review_result c input db).1
      (create_review_result-deliveries c input db) v
perform-IsSnapshot (c, prepares token i head) db id sha marker v =
    prepare_review_delivery-IsSnapshot id sha marker c token i head db v
perform-IsSnapshot (c, delivers i review_id) db id sha marker v =
    mark_review_delivered-IsSnapshot id sha marker c i review_id db v

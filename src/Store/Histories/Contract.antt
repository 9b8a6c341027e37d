-- ===== src/Store/Histories/Contract.antt =====
-- internal/store: the contract of each operation that writes, on all tables.
use github_pr_review_agent.Store.Tables.{Database}
use github_pr_review_agent.Store.Transaction.{Conn, SameReviews}
use github_pr_review_agent.Store.Changes.{Change}
use github_pr_review_agent.Store.Creation.Deliveries.{create_task-SameReviews}
use github_pr_review_agent.Store.Transitions.Deliveries.{
  update_task_status-SameReviews, claim_task-SameReviews, mark_task_retry-SameReviews,
  mark_task_dead_letter-SameReviews, requeue_task-SameReviews, touch_queued_task-SameReviews,
}
use github_pr_review_agent.Store.Reviews.Contract.{
  Saves, Prepares, Delivers, create_review_result-Saves, prepare_review_delivery-Prepares,
  mark_review_delivered-Delivers,
}
use github_pr_review_agent.Store.Histories.{
  Call, creates, updates, claims, retries, buries, requeues, touches, saves, prepares, delivers,
  perform, perform-Change,
}

-- What a call may do to the tables of the reviews.
abbrev pub ReviewTables : Call → Database → Database → Type 0
ReviewTables (saves input) db db' = Saves input db db'
ReviewTables (prepares token id sha) db db' = Prepares token id db db'
ReviewTables (delivers id review_id) db db' = Delivers id review_id db db'
ReviewTables _ db db' = SameReviews db db'

perform-ReviewTables : (k : Conn × Call) (db : Database) → ReviewTables k.1 db (perform k db)
unfolding perform
perform-ReviewTables (c, creates random input) db = create_task-SameReviews c random input db
perform-ReviewTables (c, updates id status text) db =
    update_task_status-SameReviews c id status text db
perform-ReviewTables (c, claims id attempt now) db = claim_task-SameReviews c id attempt now db
perform-ReviewTables (c, retries id attempt most text at) db =
    mark_task_retry-SameReviews c id attempt most text at db
perform-ReviewTables (c, buries id attempt most text) db =
    mark_task_dead_letter-SameReviews c id attempt most text db
perform-ReviewTables (c, requeues id) db = requeue_task-SameReviews c id db
perform-ReviewTables (c, touches id at) db = touch_queued_task-SameReviews c id at db
perform-ReviewTables (c, saves input) db = create_review_result-Saves c input db
perform-ReviewTables (c, prepares token id sha) db =
    prepare_review_delivery-Prepares c token id sha db
perform-ReviewTables (c, delivers id review_id) db =
    mark_review_delivered-Delivers c id review_id db

-- Whatever the operation, its arguments and its fault, the tables change as the contract says. The
-- tables of tasks and audit entries: not at all, by one new task in status received with its audit
-- entry, by one task that moves to an allowed status together with an audit entry of that very move
-- and keeps what the webhook gave, by nothing but the time stamp of one task, or by an audit entry
-- without a status. The tables of results and deliveries: CreateReviewResult adds at most one result,
-- with what it was given; PrepareReviewDelivery at most one delivery, for a task that has none, with
-- its token and no review; MarkReviewDelivered sets at most the review of the delivery of its task;
-- and every other operation leaves both tables alone.
pub perform-Contract :
    (k : Conn × Call) (db : Database)
    → Change db (perform k db) × ReviewTables k.1 db (perform k db)
perform-Contract k db = (perform-Change k db, perform-ReviewTables k db)

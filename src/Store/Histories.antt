-- ===== src/Store/Histories.antt =====
-- internal/store: any sequence of the operations, with any faults.
pub mod Lasting
pub mod Redelivery
pub mod Snapshots
pub mod Contract
use github_pr_review_agent.Common.{
  ℕ, ◌≡◌, ◌≢◌, refl, Option, none, some, List, [], ◌∷◌, arith, ◌⊎◌, inl, inr, Text, Bool-cases,
  if◌then◌else◌, ◌==◌, ==→≡, map_option, ◌∙◌, ap, subst,
}
use github_pr_review_agent.Store.Tables.{
  Status, received, running, superseded, TaskRow, NewTask, NewReviewResult, Database,
  empty_database, find_task, find_task-id, find_task-set_task, set_task,
}
use github_pr_review_agent.Store.Transaction.{Conn}
use github_pr_review_agent.Store.Creation.{create_task}
use github_pr_review_agent.Store.Creation.Effects.{create_task-Change}
use github_pr_review_agent.Store.Transitions.{
  update_task_status, claim_task, mark_task_retry, mark_task_dead_letter, requeue_task,
  touch_queued_task,
}
use github_pr_review_agent.Store.Transitions.Effects.{
  update_task_status-Change, claim_task-Change, mark_task_retry-Change,
  mark_task_dead_letter-Change, requeue_task-Change, touch_queued_task-Change,
}
use github_pr_review_agent.Store.Reviews.{
  create_review_result, prepare_review_delivery, mark_review_delivered,
}
use github_pr_review_agent.Store.Reviews.Effects.{
  create_review_result-Change, prepare_review_delivery-Change, mark_review_delivered-Change,
}
use github_pr_review_agent.Store.Changes.{Change, same, inserted, moved, touched, logged, SameTask}
use github_pr_review_agent.Store.Trail.{
  IsAudited, Change-IsAudited, empty-IsAudited, last_status, status_of,
}

-- A call of an operation that writes, with its arguments.
pub data Call : Type 0 where
  creates : Text → NewTask → Call
  updates : ℕ → Status → Text → Call
  claims : ℕ → ℕ → ℕ → Call
  retries : ℕ → ℕ → ℕ → Text → ℕ → Call
  buries : ℕ → ℕ → ℕ → Text → Call
  requeues : ℕ → Call
  touches : ℕ → ℕ → Call
  saves : NewReviewResult → Call
  prepares : Text → ℕ → Text → Call
  delivers : ℕ → ℕ → Call

unfoldable pub perform : Conn × Call → Database → Database
perform (c, creates random input) db = (create_task c random input db).1
perform (c, updates id status text) db = (update_task_status c id status text db).1
perform (c, claims id attempt now) db = (claim_task c id attempt now db).1
perform (c, retries id attempt most text at) db = (mark_task_retry c id attempt most text at db).1
perform (c, buries id attempt most text) db = (mark_task_dead_letter c id attempt most text db).1
perform (c, requeues id) db = (requeue_task c id db).1
perform (c, touches id at) db = (touch_queued_task c id at db).1
perform (c, saves input) db = (create_review_result c input db).1
perform (c, prepares token id sha) db = (prepare_review_delivery c token id sha db).1
perform (c, delivers id review_id) db = (mark_review_delivered c id review_id db).1

unfoldable pub run : List (Conn × Call) → Database → Database
run [] db = db
run (k ∷ ks) db = run ks (perform k db)

-- The tables of the tasks change as the contract says.
pub perform-Change : (k : Conn × Call) (db : Database) → Change db (perform k db)
unfolding perform
perform-Change (c, creates random input) db = create_task-Change c random input db
perform-Change (c, updates id status text) db = update_task_status-Change c id status text db
perform-Change (c, claims id attempt now) db = claim_task-Change c id attempt now db
perform-Change (c, retries id attempt most text at) db =
    mark_task_retry-Change c id attempt most text at db
perform-Change (c, buries id attempt most text) db =
    mark_task_dead_letter-Change c id attempt most text db
perform-Change (c, requeues id) db = requeue_task-Change c id db
perform-Change (c, touches id at) db = touch_queued_task-Change c id at db
perform-Change (c, saves input) db = create_review_result-Change c input db
perform-Change (c, prepares token id sha) db = prepare_review_delivery-Change c token id sha db
perform-Change (c, delivers id review_id) db = mark_review_delivered-Change c id review_id db

-- After any sequence of operations on the empty database, with any faults, the newest audit entry
-- of each task id that gives a status gives the status of its row, and there is none exactly where
-- there is no row; and every such entry starts from the status that the entries before it gave.
pub run-IsAudited : (ks : List (Conn × Call)) → IsAudited (run ks empty_database)
unfolding run
run-IsAudited ks = go ks empty_database empty-IsAudited
  where
    go : (ks : List (Conn × Call)) (db : Database) → IsAudited db → IsAudited (run ks db)
    go [] db v = v
    go (k ∷ ks) db v = go ks (perform k db) (Change-IsAudited (perform-Change k db) v)

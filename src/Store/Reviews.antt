-- ===== src/Store/Reviews.antt =====
-- internal/store/mysql.go (review_result) and review_delivery.go: saved reviews, and the record of
-- what was published for each.
pub mod Effects
pub mod Snapshots
pub mod Contract
use github_pr_review_agent.Common.{
  ℕ, ◌+◌, ◌==◌, ◌&&◌, ◌||◌, not, none, some, List, [], ◌∷◌, Text, text_eq, is_empty, if◌then◌else◌,
  codes, Bool,
}
use github_pr_review_agent.Store.Tables.{
  running, done, status_eq, TaskRow, Database, NewReviewResult, ReviewResult, ReviewDelivery,
  result_detail, github_review_detail, review_result_created, task_status_changed, find_task,
  find_result, find_delivery, set_delivery,
}
use github_pr_review_agent.Store.Transaction.{
  Conn, Result, ok, err, broken, task_transition_failed, review_result_not_found,
  review_delivery_not_found, statement, Ending, commit, transaction, no_rows, or_fail, ◌>>=◌, ◌>>◌,
}
use github_pr_review_agent.Store.AuditLogs.{insert_audit_log}
use github_pr_review_agent.Store.Rows.{Task, get_task, update_row}

-- INSERT INTO review_result: task_id is unique, and is a key of review_task.
insert_result : Conn → NewReviewResult → Database → Result (ReviewResult × Database)
insert_result c input db = elim (find_task input.task_id db.tasks) [
  | none ↦ err (broken (codes "insert review result: no such task"))
  | some task ↦ elim (find_result input.task_id db.results) [
    | some old ↦ err (broken (codes "insert review result: duplicate entry"))
    | none ↦
        let id = db.next_result_id + c.gap in
        let row : ReviewResult = record { id = id; content = input; created_at = c.clock } in
        ok (row, record db { results = row ∷ db.results; next_result_id = id + 1 })
  ]
]

create_result_body : Conn → NewReviewResult → Database → Result (Ending ReviewResult)
unfolding insert_result insert_audit_log statement
create_result_body c input db = do
  statement c 0
  statement c 1
  (row, db₁) ← insert_result c input db
  statement c 2
  db₂ ←
      insert_audit_log c 3 input.task_id review_result_created none none
        (result_detail row.id input) db₁
  statement c 4
  statement c 5
  ok (commit row db₂)

unfoldable pub create_review_result :
    Conn → NewReviewResult → Database → Result ReviewResult × Database
unfolding create_result_body transaction
create_review_result c input db = transaction c (create_result_body c input) db

unfoldable pub get_review_result_by_task_id : Conn → ℕ → Database → Result ReviewResult
unfolding statement
get_review_result_by_task_id c id db =
    statement c 0 >> or_fail (find_result id db.results) review_result_not_found

unfoldable pub get_review_delivery : Conn → ℕ → Database → Result ReviewDelivery
unfolding statement
get_review_delivery c id db =
    statement c 0 >> or_fail (find_delivery id db.deliveries) review_delivery_not_found

has_marker : Text → List ReviewDelivery → Bool
has_marker m [] = Bool.false
has_marker m (d ∷ ds) = text_eq d.marker m || has_marker m ds

-- INSERT ... ON DUPLICATE KEY UPDATE task_id = task_id: task_id and marker are unique.
insert_delivery : ReviewDelivery → Database → Database
unfolding has_marker
insert_delivery d db = elim (find_delivery d.task_id db.deliveries) [
  | some old ↦ db
  | none ↦
      if has_marker d.marker db.deliveries then db else record db { deliveries = d ∷ db.deliveries }
]

-- The statement that inserts, number 2, commits by itself.
prepare_body : Conn → ReviewDelivery → Database → Result (Ending (Unit {0}))
unfolding insert_delivery statement
prepare_body c d db = do statement c 1; statement c 2; ok (commit tt (insert_delivery d db))

-- The webhook's commit, if it gave one.
snapshot : Task → Text → Text
snapshot task sha = if is_empty task.commit_sha then sha else task.commit_sha

-- The read that follows the insert is statement number 3.
pub reread : Conn → ℕ → Result (Unit {0}) × Database → Result ReviewDelivery × Database
unfolding statement
reread c id (err e, db) = (err e, db)
reread c id (ok _, db) =
    (statement c 3 >> or_fail (find_delivery id db.deliveries) review_delivery_not_found, db)

prepare_for : Conn → Text → ℕ → Text → Result Task → Database → Result ReviewDelivery × Database
unfolding prepare_body transaction snapshot reread
prepare_for c token id sha (err e) db = (err e, db)
prepare_for c token id sha (ok task) db =
    let row : ReviewDelivery = record {
      task_id = id;
      commit_sha = snapshot task sha;
      marker = token;
      github_review_id = 0;
    } in
    reread c id (transaction c (prepare_body c row) db)

-- `token` is the hexadecimal form of the 16 random bytes.
unfoldable pub prepare_review_delivery :
    Conn → Text → ℕ → Text → Database → Result ReviewDelivery × Database
unfolding prepare_for get_task
prepare_review_delivery c token id sha db =
    if (id == 0) || is_empty sha
    then (err (broken (codes "task and commit are required for review delivery")), db)
    else prepare_for c token id sha (get_task c id db) db

pub record_review_id : Conn → TaskRow → ReviewDelivery → ℕ → Database → Result (Ending (Unit {0}))
unfolding update_row insert_audit_log statement
record_review_id c row d review_id db = do
  statement c 3
  let db₁ = record db {
    deliveries = set_delivery (record d { github_review_id = review_id }) db.deliveries;
  }
  db₂ ← update_row c 4 row (record row { status = done; error = none; next_retry_at = none }) db₁
  db₃ ←
      insert_audit_log c 5 row.id task_status_changed (some row.status) (some done)
        (github_review_detail review_id) db₂
  statement c 6
  ok (commit tt db₃)

pub delivered_body : Conn → ℕ → ℕ → Database → Result (Ending (Unit {0}))
unfolding record_review_id statement
delivered_body c id review_id db = do
  statement c 0
  statement c 1
  row ← or_fail (find_task id db.tasks) (broken no_rows)
  if not (status_eq row.status running) && not (status_eq row.status done)
      then err task_transition_failed
      else do
        statement c 2
        d ← or_fail (find_delivery id db.deliveries) (broken no_rows)
        if not (d.github_review_id == 0) && not (d.github_review_id == review_id)
            then err (broken (codes "conflicting GitHub review ID"))
            else if (d.github_review_id == review_id) && status_eq row.status done
            then statement c 6 >> ok (commit tt db)
            else record_review_id c row d review_id db

unfoldable pub mark_review_delivered : Conn → ℕ → ℕ → Database → Result (Unit {0}) × Database
unfolding delivered_body transaction
mark_review_delivered c id review_id db =
    if review_id == 0
    then (err (broken (codes "GitHub review ID is required")), db)
    else transaction c (delivered_body c id review_id) db

-- ===== src/Store/Transitions.antt =====
-- internal/store/mysql.go: the operations that change a row of review_task. The statements of a
-- transaction are numbered from 0, its Commit last.
mod Bodies
pub mod Claims
pub mod Settled
pub mod Effects
pub mod Requeued
pub mod Deliveries
use github_pr_review_agent.Common.{
  ℕ, ◌==◌, ◌&&◌, ◌||◌, Bool, true, false, not, Option, none, some, Text, trim_space, is_empty, ltb,
  leb, max, if◌then◌else◌, codes,
}
use github_pr_review_agent.Store.Tables.{
  Status, received, queued, running, retrying, done, dead_letter, superseded, status_eq, TaskRow,
  Database, Detail, error_detail, attempt_detail, retry_detail, dead_letter_detail,
  attempt_count_reset, task_status_changed, find_task, set_task,
}
use github_pr_review_agent.Store.Transaction.{
  Conn, Result, ok, err, broken, task_not_found, task_transition_failed, statement, Ending, commit,
  rollback, transaction, no_rows, or_fail, ◌>>=◌, ◌>>◌,
}
use github_pr_review_agent.Store.AuditLogs.{insert_audit_log}
use github_pr_review_agent.Store.Rows.{update_row}

pub error_message : Text → Option Text
error_message task_error = if is_empty (trim_space task_error) then none else some task_error

abbrev pub status_row : TaskRow → Status → Option Text → TaskRow
status_row row status error = record row {
  status = status;
  error = error;
  next_retry_at = if status_eq status superseded then none else row.next_retry_at;
}

pub write_status : Conn → TaskRow → Status → Option Text → Database → Result (Ending (Unit {0}))
unfolding update_row insert_audit_log statement
write_status c row status error db = do
  db₁ ← update_row c 2 row (status_row row status error) db
  db₂ ←
      insert_audit_log c 3 row.id task_status_changed (some row.status) (some status)
        (error_detail error) db₁
  statement c 4
  ok (commit tt db₂)

abbrev is_none {ℓ} : {A : Type ℓ} → Option A → Bool
is_none none = true
is_none (some a) = false

pub update_status_body : Conn → ℕ → Status → Text → Database → Result (Ending (Unit {0}))
unfolding write_status error_message statement
update_status_body c id status task_error db = do
  statement c 0
  statement c 1
  row ← or_fail (find_task id db.tasks) task_not_found
  let error = error_message task_error
  if status_eq row.status superseded
      then (if status_eq status superseded
          then statement c 4 >> ok (commit tt db)
          else err task_transition_failed)
      else if status_eq status superseded && not (status_eq row.status running)
      then err task_transition_failed
      else if status_eq row.status done && status_eq status done && is_none error
      then statement c 4 >> ok (commit tt db)
      else write_status c row status error db

unfoldable pub update_task_status :
    Conn → ℕ → Status → Text → Database → Result (Unit {0}) × Database
unfolding update_status_body transaction
update_task_status c id status task_error db =
    transaction c (update_status_body c id status task_error) db

abbrev pub due : Option ℕ → ℕ → Bool
due none now = true
due (some at) now = leb at now

-- The condition of the UPDATE of ClaimTask.
unfoldable pub claimable : TaskRow → ℕ → ℕ → Bool
claimable row attempt now =
    ((status_eq row.status queued || status_eq row.status retrying) && due row.next_retry_at now)
    || (status_eq row.status running && ltb row.attempt_count attempt)

abbrev pub claimed_row : TaskRow → ℕ → TaskRow
claimed_row row attempt = record row {
  status = running;
  error = none;
  attempt_count = max row.attempt_count attempt;
}

pub take_claim : Conn → TaskRow → ℕ → Database → Result (Ending Bool)
unfolding update_row insert_audit_log statement
take_claim c row attempt db = do
  db₁ ← update_row c 2 row (claimed_row row attempt) db
  statement c 3
  db₂ ←
      insert_audit_log c 4 row.id task_status_changed (some row.status) (some running)
        (attempt_detail attempt) db₁
  statement c 5
  ok (commit true db₂)

pub claim_row : Conn → Option TaskRow → ℕ → ℕ → Database → Result (Ending Bool)
unfolding claimable take_claim statement
claim_row c none attempt now db = ok (rollback false)
claim_row c (some row) attempt now db =
    if claimable row attempt now
    then take_claim c row attempt db
    else (do statement c 2; statement c 3; ok (rollback false))

pub claim_body : Conn → ℕ → ℕ → ℕ → Database → Result (Ending Bool)
unfolding claim_row statement
claim_body c id attempt now db = do
  statement c 0
  statement c 1
  claim_row c (find_task id db.tasks) attempt now db

unfoldable pub claim_task : Conn → ℕ → ℕ → ℕ → Database → Result Bool × Database
unfolding claim_body transaction
claim_task c id attempt now db = transaction c (claim_body c id attempt now) db

-- UPDATE ... WHERE id = ? AND status = `from`, its audit entry, and the Commit; no row changed is
-- ErrTaskTransitionFailed.
pub move_row : Conn → TaskRow → Status → TaskRow → Detail → Database → Result (Ending (Unit {0}))
unfolding update_row insert_audit_log statement
move_row c row from target detail db =
    if status_eq row.status from
    then (do
      db₁ ← update_row c 2 row target db
      statement c 3
      db₂ ←
          insert_audit_log c 4 row.id task_status_changed (some row.status) (some target.status)
            detail db₁
      statement c 5
      ok (commit tt db₂))
    else (do statement c 2; statement c 3; err task_transition_failed)

-- The columns that each UPDATE sets.
abbrev pub retrying_row : TaskRow → ℕ → ℕ → Text → ℕ → TaskRow
retrying_row row attempt max_attempts task_error next_retry_at = record row {
  status = retrying;
  attempt_count = attempt;
  max_attempts = max_attempts;
  error = some task_error;
  next_retry_at = some next_retry_at;
}

abbrev pub dead_letter_row : TaskRow → ℕ → ℕ → Text → TaskRow
dead_letter_row row attempt max_attempts task_error = record row {
  status = dead_letter;
  attempt_count = attempt;
  max_attempts = max_attempts;
  error = some task_error;
  next_retry_at = none;
}

abbrev pub requeued_row : TaskRow → TaskRow
requeued_row row = record row { status = queued; attempt_count = 0; next_retry_at = none }

pub retry_body : Conn → ℕ → ℕ → ℕ → Text → ℕ → Database → Result (Ending (Unit {0}))
unfolding move_row statement
retry_body c id attempt max_attempts task_error next_retry_at db = do
  statement c 0
  statement c 1
  row ← or_fail (find_task id db.tasks) (broken no_rows)
  move_row c row running (retrying_row row attempt max_attempts task_error next_retry_at)
      (retry_detail attempt max_attempts task_error next_retry_at) db

unfoldable pub mark_task_retry :
    Conn → ℕ → ℕ → ℕ → Text → ℕ → Database → Result (Unit {0}) × Database
unfolding retry_body transaction
mark_task_retry c id attempt max_attempts task_error next_retry_at db =
    transaction c (retry_body c id attempt max_attempts task_error next_retry_at) db

pub dead_letter_body : Conn → ℕ → ℕ → ℕ → Text → Database → Result (Ending (Unit {0}))
unfolding move_row statement
dead_letter_body c id attempt max_attempts task_error db = do
  statement c 0
  statement c 1
  row ← or_fail (find_task id db.tasks) (broken no_rows)
  move_row c row running (dead_letter_row row attempt max_attempts task_error)
      (dead_letter_detail attempt max_attempts task_error) db

unfoldable pub mark_task_dead_letter :
    Conn → ℕ → ℕ → ℕ → Text → Database → Result (Unit {0}) × Database
unfolding dead_letter_body transaction
mark_task_dead_letter c id attempt max_attempts task_error db =
    transaction c (dead_letter_body c id attempt max_attempts task_error) db

pub requeue_body : Conn → ℕ → Database → Result (Ending (Unit {0}))
unfolding move_row statement
requeue_body c id db = do
  statement c 0
  statement c 1
  row ← or_fail (find_task id db.tasks) task_not_found
  move_row c row dead_letter (requeued_row row) attempt_count_reset db

unfoldable pub requeue_task : Conn → ℕ → Database → Result (Unit {0}) × Database
unfolding requeue_body transaction
requeue_task c id db = transaction c (requeue_body c id) db

touch_row : TaskRow → ℕ → Database → Result (Ending (Unit {0}))
touch_row row updated_at db =
    if (status_eq row.status received || status_eq row.status queued)
      && not (row.updated_at == updated_at)
    then ok (
        commit tt
          (record db { tasks = set_task (record row { updated_at = updated_at }) db.tasks }))
    else err task_transition_failed

pub touch_body : Conn → ℕ → ℕ → Database → Result (Ending (Unit {0}))
unfolding touch_row statement
touch_body c id updated_at db = do
  statement c 0
  statement c 1
  row ← or_fail (find_task id db.tasks) task_transition_failed
  touch_row row updated_at db

-- One statement outside a transaction commits by itself.
unfoldable pub touch_queued_task : Conn → ℕ → ℕ → Database → Result (Unit {0}) × Database
unfolding touch_body transaction
touch_queued_task c id updated_at db = transaction c (touch_body c id updated_at) db

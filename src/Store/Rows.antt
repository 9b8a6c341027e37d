-- ===== src/Store/Rows.antt =====
-- internal/store/mysql.go: a row of review_task as the Go code reads it, and its UPDATE.
use github_pr_review_agent.Common.{
  ℕ, ◌==◌, ◌&&◌, Bool, true, false, Option, none, some, [], Text, text_eq, if◌then◌else◌,
}
use github_pr_review_agent.Store.Tables.{Status, status_eq, TaskRow, Database, find_task, set_task}
use github_pr_review_agent.Store.Transaction.{
  Conn, Result, ok, task_not_found, statement, or_fail, ◌>>=◌, ◌>>◌,
}

-- The Go struct Task, which a row is scanned into.
pub record Task : Type 0 where
  pub id : ℕ
  pub repo : Text
  pub pr_number : ℕ
  pub commit_sha : Text
  pub action : Text
  pub delivery_id : Text
  pub status : Status
  pub error : Text
  pub attempt_count : ℕ
  pub max_attempts : ℕ
  pub next_retry_at : Option ℕ
  pub created_at : ℕ
  pub updated_at : ℕ

-- COALESCE(error, '')
abbrev or_blank : Option Text → Text
or_blank none = []
or_blank (some t) = t

unfoldable pub scan_task : TaskRow → Task
scan_task r = record {
  id = r.id;
  repo = r.repo;
  pr_number = r.pr_number;
  commit_sha = r.commit_sha;
  action = r.action;
  delivery_id = r.delivery_id;
  status = r.status;
  error = or_blank r.error;
  attempt_count = r.attempt_count;
  max_attempts = r.max_attempts;
  next_retry_at = r.next_retry_at;
  created_at = r.created_at;
  updated_at = r.updated_at;
}

abbrev option_eq {ℓ} : {A : Type ℓ} → (A → A → Bool) → Option A → Option A → Bool
option_eq eq none none = true
option_eq eq (some a) (some b) = eq a b
option_eq eq _ _ = false

-- An UPDATE that leaves every column as it was does not touch the row.
unchanged : TaskRow → TaskRow → Bool
unchanged a b =
    status_eq a.status b.status
    && option_eq text_eq a.error b.error
    && (a.attempt_count == b.attempt_count)
    && (a.max_attempts == b.max_attempts)
    && option_eq (λ x y. x == y) a.next_retry_at b.next_retry_at

-- updated_at ... ON UPDATE CURRENT_TIMESTAMP(3)
unfoldable pub stamp : Conn → TaskRow → TaskRow → TaskRow
unfolding unchanged
stamp c old new = record new { updated_at = if unchanged old new then old.updated_at else c.clock }

-- The UPDATE of the row `old`, as statement number k.
unfoldable pub update_row : Conn → ℕ → TaskRow → TaskRow → Database → Result Database
unfolding statement stamp
update_row c k old new db = do
  statement c k
  ok (record db { tasks = set_task (stamp c old new) db.tasks })

unfoldable pub get_task : Conn → ℕ → Database → Result Task
unfolding statement scan_task
get_task c id db = do
  statement c 0
  row ← or_fail (find_task id db.tasks) task_not_found
  ok (scan_task row)

-- ===== src/Store/Creation.antt =====
-- internal/store/mysql.go: CreateTask. The statements of a transaction are numbered from 0, its
-- Commit last.
pub mod Effects
pub mod Deliveries
pub mod Idempotence
use github_pr_review_agent.Common.{
  ℕ, ◌+◌, Bool, true, false, none, some, ◌∷◌, Text, is_empty, if◌then◌else◌,
}
use github_pr_review_agent.Store.Tables.{
  received, TaskRow, NewTask, Database, created_detail, task_created, find_task, find_delivery_id,
}
use github_pr_review_agent.Store.Transaction.{
  Conn, Result, ok, task_not_found, statement, Ending, commit, transaction, or_fail, ◌>>=◌, ◌>>◌,
}
use github_pr_review_agent.Store.AuditLogs.{insert_audit_log}
use github_pr_review_agent.Store.Rows.{Task, scan_task}

pub new_row : Conn → ℕ → NewTask → TaskRow
new_row c id input = record {
  id = id;
  repo = input.repo;
  pr_number = input.pr_number;
  commit_sha = input.commit_sha;
  action = input.action;
  delivery_id = input.delivery_id;
  status = received;
  error = none;
  attempt_count = 0;
  max_attempts = 3;
  next_retry_at = none;
  created_at = c.clock;
  updated_at = c.clock;
}

-- INSERT ... ON DUPLICATE KEY UPDATE id = LAST_INSERT_ID(id): the id, whether a row was inserted.
insert_task : Conn → NewTask → Database → ℕ × Bool × Database
unfolding new_row
insert_task c input db = elim (find_delivery_id input.delivery_id db.tasks) [
  | some t ↦ (t.id, false, db)
  | none ↦
      let id = db.next_task_id + c.gap in
      (id, true, record db { tasks = new_row c id input ∷ db.tasks; next_task_id = id + 1 })
]

-- `random` is what randomID gives.
unfoldable pub with_delivery_id : Text → NewTask → NewTask
with_delivery_id random input =
    if is_empty input.delivery_id then record input { delivery_id = random } else input

pub create_body : Conn → NewTask → Database → Result (Ending (Task × Bool))
unfolding statement insert_task insert_audit_log scan_task
create_body c input db = do
  statement c 0
  statement c 1
  let (id, created, db₁) = insert_task c input db
  statement c 2
  statement c 3
  db₂ ←
      if created
      then insert_audit_log c 4 id task_created none (some received) (created_detail input) db₁
      else ok db₁
  statement c 5
  row ← or_fail (find_task id db₂.tasks) task_not_found
  statement c 6
  ok (commit (scan_task row, created) db₂)

unfoldable pub create_task : Conn → Text → NewTask → Database → Result (Task × Bool) × Database
unfolding create_body transaction with_delivery_id
create_task c random input db = transaction c (create_body c (with_delivery_id random input)) db

-- ===== src/Store/Creation/Effects.antt =====
-- internal/store/mysql.go: CreateTask, against the contract of Store/Changes.antt.
use github_pr_review_agent.Common.{
  ℕ, ◌+◌, ◌≡◌, refl, none, some, ◌∷◌, arith, true, false, Text, ap, Option-cases, inl, inr, Bool,
}
use github_pr_review_agent.Store.Tables.{
  received, TaskRow, NewTask, AuditLog, Database, task_created, created_detail, find_task,
  find_delivery_id,
}
use github_pr_review_agent.Store.Transaction.{Conn, ok, commit}
use github_pr_review_agent.Store.Rows.{Task, scan_task}
use github_pr_review_agent.Store.AuditLogs.{insert_audit_log}
use github_pr_review_agent.Store.Changes.{Change, same, inserted, transaction-Change}
use github_pr_review_agent.Store.Creation.{create_body, create_task, new_row, with_delivery_id}

pub created_entry : Conn → ℕ → NewTask → AuditLog
created_entry c id input = record {
  task_id = id;
  action = task_created;
  old_status = none;
  new_status = some received;
  detail = created_detail input;
  created_at = c.clock;
}

-- A delivery id that is known: nothing is written, and the answer is the old row.
pub create_body_known :
    (c : Conn) (input : NewTask) (db db' : Database) (row : TaskRow) (a : Task × Bool)
    → find_delivery_id input.delivery_id db.tasks ≡ some row
    → create_body c input db ≡ ok (commit a db')
    → (db' ≡ db) × (a.1 ≡ false)
unfolding create_body insert_audit_log
create_body_known c input db db' row a known h = ground arith

-- The tables after a task has been inserted.
abbrev pub after_insert : Conn → NewTask → Database → Database
after_insert c input db =
    let id = db.next_task_id + c.gap in
    record db {
      tasks = new_row c id input ∷ db.tasks;
      audit = created_entry c id input ∷ db.audit;
      next_task_id = id + 1;
    }

pub create_body_fresh :
    (c : Conn) (input : NewTask) (db db' : Database) (a : Task × Bool)
    → find_delivery_id input.delivery_id db.tasks ≡ none
    → create_body c input db ≡ ok (commit a db')
    → (db' ≡ after_insert c input db)
      × (a ≡ (scan_task (new_row c (db.next_task_id + c.gap) input), true))
unfolding create_body insert_audit_log created_entry find_task
create_body_fresh c input db db' a fresh h = ground arith

create_body-Change :
    (c : Conn) (input : NewTask) (db db' : Database) (a : Task × Bool)
    → create_body c input db ≡ ok (commit a db')
    → Change db db'
unfolding new_row
create_body-Change c input db db' a h =
    elim (Option-cases (find_delivery_id input.delivery_id db.tasks)) [
      | inl fresh ↦
          let e = (create_body_fresh c input db db' a fresh h).0 in
          let id = db.next_task_id + c.gap in
          inserted (new_row c id input) (created_entry c id input) (omega arith) fresh refl
            (unfold created_entry in record { of_task = refl; from = refl; to = refl })
            (ap (λ (d : Database). d.tasks) e) (ap (λ (d : Database). d.audit) e)
            (ap (λ (d : Database). d.next_task_id) e)
      | inr (row, known) ↦
          rw ((create_body_known c input db db' row a known h).0) (same refl refl refl)
    ]

pub create_task-Change :
    (c : Conn) (random : Text) (input : NewTask) (db : Database)
    → Change db (create_task c random input db).1
unfolding create_task
create_task-Change c random input db =
    transaction-Change c (create_body c (with_delivery_id random input)) db
      (λ a db' e. create_body-Change c (with_delivery_id random input) db db' a e)

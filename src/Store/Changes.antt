-- ===== src/Store/Changes.antt =====
-- What one call of internal/store may do to review_task and audit_log: the contract of the store.
use github_pr_review_agent.Common.{ℕ, ◌+◌, ◌≤◌, ◌≡◌, ◌≢◌, refl, Option, none, some, ◌∷◌}
use github_pr_review_agent.Store.Tables.{
  Status, received, running, superseded, TaskRow, AuditLog, Database, find_task, find_delivery_id,
  set_task,
}
use github_pr_review_agent.Store.Transaction.{
  Conn, Result, ok, Ending, commit, transaction, transaction_cases,
}

-- The columns that no operation writes after the INSERT.
pub record SameTask (old new : TaskRow) : Type 0 where
  pub same_id : new.id ≡ old.id
  pub same_repo : new.repo ≡ old.repo
  pub same_pr_number : new.pr_number ≡ old.pr_number
  pub same_commit_sha : new.commit_sha ≡ old.commit_sha
  pub same_delivery_id : new.delivery_id ≡ old.delivery_id
  pub same_action : new.action ≡ old.action
  pub same_created_at : new.created_at ≡ old.created_at

-- A status may change, unless it is superseded, and becomes superseded only out of running.
pub record MayMove (old new : Status) : Type 0 where
  pub leaves : old ≢ superseded
  pub supersedes : new ≡ superseded → old ≡ running

pub record Records (e : AuditLog) (id : ℕ) (old new : Option Status) : Type 0 where
  pub of_task : e.task_id ≡ id
  pub from : e.old_status ≡ old
  pub to : e.new_status ≡ new

pub data Change (db db' : Database) : Type 0 where
  same :
      db'.tasks ≡ db.tasks
      → db'.audit ≡ db.audit
      → db'.next_task_id ≡ db.next_task_id
      → Change db db'
  inserted :
      (r : TaskRow) (e : AuditLog)
      → db.next_task_id ≤ r.id
      → find_delivery_id r.delivery_id db.tasks ≡ none
      → r.status ≡ received
      → Records e r.id none (some received)
      → db'.tasks ≡ r ∷ db.tasks
      → db'.audit ≡ e ∷ db.audit
      → db'.next_task_id ≡ r.id + 1
      → Change db db'
  moved :
      (old new : TaskRow) (e : AuditLog)
      → find_task old.id db.tasks ≡ some old
      → SameTask old new
      → MayMove old.status new.status
      → Records e old.id (some old.status) (some new.status)
      → db'.tasks ≡ set_task new db.tasks
      → db'.audit ≡ e ∷ db.audit
      → db'.next_task_id ≡ db.next_task_id
      → Change db db'
  touched :
      (old new : TaskRow)
      → find_task old.id db.tasks ≡ some old
      → SameTask old new
      → new.status ≡ old.status
      → new ≡ record old { updated_at = new.updated_at }
      → db'.tasks ≡ set_task new db.tasks
      → db'.audit ≡ db.audit
      → db'.next_task_id ≡ db.next_task_id
      → Change db db'
  logged :
      (e : AuditLog)
      → e.new_status ≡ none
      → db'.tasks ≡ db.tasks
      → db'.audit ≡ e ∷ db.audit
      → db'.next_task_id ≡ db.next_task_id
      → Change db db'

module _ {ℓ} {A : Type ℓ} where
  pub transaction-Change :
      (c : Conn) (body : Database → Result (Ending A)) (db : Database)
      → ((a : A) (db' : Database) → body db ≡ ok (commit a db') → Change db db')
      → Change db (transaction c body db).1
  transaction-Change c body db change =
      transaction_cases c body db (λ r. Change db r.1) (λ r _. same refl refl refl)
        (λ a db' r e _. change a db' e)

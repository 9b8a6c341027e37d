-- ===== src/Store/Moves.antt =====
-- A row of review_task written together with its audit entry: the usual change.
use github_pr_review_agent.Common.{ℕ, ◌≡◌, refl, some, ◌∷◌, ap, subst, sym}
use github_pr_review_agent.Store.Tables.{
  Status, TaskRow, AuditLog, Database, Detail, task_status_changed, find_task, find_task-id,
  set_task,
}
use github_pr_review_agent.Store.Transaction.{Conn}
use github_pr_review_agent.Store.Rows.{stamp}
use github_pr_review_agent.Store.Changes.{Change, moved, SameTask, MayMove}

-- The audit entry that goes with a written row.
abbrev move_entry : Conn → TaskRow → Status → Detail → AuditLog
move_entry c row status detail = record {
  task_id = row.id;
  action = task_status_changed;
  old_status = some row.status;
  new_status = some status;
  detail = detail;
  created_at = c.clock;
}

-- The tables after a row has been written together with its audit entry.
abbrev pub after_move : Conn → TaskRow → TaskRow → Detail → Database → Database
after_move c row target detail db = record db {
  tasks = set_task (stamp c row target) db.tasks;
  audit = move_entry c row target.status detail ∷ db.audit;
}

pub after_move-Change :
    (c : Conn) (id : ℕ) (row target : TaskRow) (detail : Detail) (db db' : Database)
    → find_task id db.tasks ≡ some row
    → SameTask row target
    → MayMove row.status target.status
    → db' ≡ after_move c row target detail db
    → Change db db'
unfolding stamp
after_move-Change c id row target detail db db' found keeps may e =
    moved row (stamp c row target) (move_entry c row target.status detail)
      (subst (λ i. find_task i db.tasks ≡ some row) (sym (find_task-id id db.tasks row found))
        found)
      (record {
        same_id = keeps.same_id;
        same_repo = keeps.same_repo;
        same_pr_number = keeps.same_pr_number;
        same_commit_sha = keeps.same_commit_sha;
        same_delivery_id = keeps.same_delivery_id;
        same_action = keeps.same_action;
        same_created_at = keeps.same_created_at;
      })
      may (record { of_task = refl; from = refl; to = refl }) (ap (λ (d : Database). d.tasks) e)
      (ap (λ (d : Database). d.audit) e) (ap (λ (d : Database). d.next_task_id) e)

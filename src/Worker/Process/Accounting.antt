-- ===== src/Worker/Process/Accounting.antt =====
-- internal/worker/worker.go: what process leaves behind when it acknowledges a message.
use github_pr_review_agent.Common.{ℕ, ◌≡◌, some, Text, ◌⊎◌}
use github_pr_review_agent.Store.Tables.{TaskRow, Database, find_task}
use github_pr_review_agent.Store.Rows.{Task}
use github_pr_review_agent.Store.Transitions.Claims.{MayClaim}
use github_pr_review_agent.Queue.{Message, Action, ack}
use github_pr_review_agent.Worker.Options.{Worker}
use github_pr_review_agent.Worker.Failure.{World, Reviewer, Surroundings}
use github_pr_review_agent.Worker.Process.Handled.{IsHandled}

-- The task of the message is not to be claimed for it: its row neither waits with its retry time
-- past, nor runs on behalf of an earlier attempt.
abbrev pub Idle : ℕ → ℕ → ℕ → World → Type 0
Idle id attempt now world =
    (row : TaskRow) × (find_task id world.db.tasks ≡ some row) × (¬ MayClaim row attempt now)

-- What an acknowledged message leaves behind: everything as it was, with the task not to be claimed
-- for it, a further message about the task with the broker, or its status final.
abbrev pub Accounted : Surroundings → Message → ℕ → World → Action × World → Type 0
Accounted s msg id world (a, world') =
    a ≡ ack → ((world' ≡ world) × Idle id msg.attempt s.now world) ⊎ IsHandled id world.sent world'

-- ReviewPR deletes no task.
abbrev pub KeepsTasks : Reviewer → Type 0
KeepsTasks reviewer =
    (owner repo : Text) (number task_id id : ℕ) (db : Database) (row : TaskRow)
    → find_task id db.tasks ≡ some row
    → (row' : TaskRow) × (find_task id (reviewer owner repo number task_id db).1.tasks ≡ some row')

-- What process reads of the row.
abbrev IsRead : Task → TaskRow → Type 0
IsRead task row = (task.status ≡ row.status) × (task.attempt_count ≡ row.attempt_count)

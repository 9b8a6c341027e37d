-- ===== src/Tests/Store.antt =====
-- internal/store on concrete histories.
use github_pr_review_agent.Common.{◌≡◌, ◌≢◌, refl, true, false, some, [], ◌∷◌, List, codes, arith}
use github_pr_review_agent.Store.Tables.{
  received, queued, running, superseded, TaskRow, empty_database, find_task, set_task,
  find_delivery_id,
}
use github_pr_review_agent.Store.Transaction.{Conn, ok}
use github_pr_review_agent.Store.Rows.{Task, scan_task}
use github_pr_review_agent.Store.Creation.{create_task}
use github_pr_review_agent.Store.Transitions.{claim_task, update_task_status, claimable}
use github_pr_review_agent.Store.Transitions.Claims.{MayClaim, IsClaimed, claim_granted, claim_once}
use github_pr_review_agent.Store.Changes.{Change}
use github_pr_review_agent.Store.Trail.{IsAudited}
use github_pr_review_agent.Store.Histories.Contract.{ReviewTables, perform-Contract}
use github_pr_review_agent.Store.Histories.{
  Call, creates, updates, claims, retries, perform, run, run-IsAudited,
}
use github_pr_review_agent.Store.Histories.Lasting.{Keeps, task_lasts}
use github_pr_review_agent.Store.Histories.Redelivery.{redelivered_once}
use github_pr_review_agent.Tests.Samples.{good, broken_commit, opened, queued_row, queued_database}

abbrev first_steps : List (Conn × Call)
first_steps =
    (good, creates (codes "x") opened)
    ∷ (broken_commit, updates 1 queued [])
    ∷ (good, claims 1 1 1_000)
    ∷ []

abbrev later_steps : List (Conn × Call)
later_steps =
    (good, retries 1 2 3 (codes "timeout") 5_000)
    ∷ (good, updates 1 superseded (codes "newer head"))
    ∷ []

abbrev created_row : TaskRow
created_row = record queued_row { status = running; attempt_count = 1 }

perform-Contract_example :
    Change queued_database (perform (good, claims 1 1 1_000) queued_database)
    × ReviewTables
        (claims 1 1 1_000)
        queued_database
        (perform (good, claims 1 1 1_000) queued_database)
perform-Contract_example = perform-Contract (good, claims 1 1 1_000) queued_database

run-IsAudited_example : IsAudited (run (first_steps) empty_database)
run-IsAudited_example = run-IsAudited first_steps

task_lasts_example :
    (r' : TaskRow) × (find_task 1 (run later_steps (run first_steps empty_database)).tasks
      ≡ some r')
    × Keeps created_row r'
unfolding run perform create_task update_task_status claim_task claimable find_task set_task
    find_delivery_id
task_lasts_example = task_lasts first_steps later_steps 1 created_row refl

claim_granted_example :
    (row : TaskRow) × (find_task 1 queued_database.tasks ≡ some row)
    × MayClaim row 1 1_000
    × IsClaimed row 1 1 (claim_task good 1 1 1_000 queued_database).1
unfolding claim_task claimable find_task set_task
claim_granted_example = claim_granted good 1 1 1_000 queued_database refl

claim_once_example :
    let db' = (claim_task good 1 1 1_000 queued_database).1 in
    ((claim_task good 1 1 1_005 db').0 ≢ ok true) × ((claim_task good 1 1 1_005 db').1 ≡ db')
unfolding claim_task claimable find_task set_task
claim_once_example = claim_once good 1 1 1_000 queued_database good 1 1_005 refl (omega arith)

redelivered_once_example :
    let db' = run later_steps (create_task good (codes "x") opened empty_database).1 in
    (t : Task) × (create_task good (codes "y") opened db' ≡ (ok (t, false), db')) × (t.id ≡ 1)
unfolding create_task find_task find_delivery_id
redelivered_once_example =
    redelivered_once good (codes "x") opened empty_database
      (scan_task (record queued_row { status = received }), true) later_steps good (codes "y")
      opened (ground arith) refl refl refl

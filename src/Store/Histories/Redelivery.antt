-- ===== src/Store/Histories/Redelivery.antt =====
-- internal/store/mysql.go: CreateTask called again for a webhook delivery.
use github_pr_review_agent.Common.{
  ℕ, ◌≡◌, ◌≢◌, List, [], ◌∷◌, some, false, Bool, Text, subst, sym, ◌∙◌,
}
use github_pr_review_agent.Store.Tables.{NewTask, Database}
use github_pr_review_agent.Store.Transaction.{Conn, ok, sound}
use github_pr_review_agent.Store.Rows.{Task}
use github_pr_review_agent.Store.Creation.{create_task}
use github_pr_review_agent.Store.Creation.Idempotence.{
  known_as, Change-known_as, create_task-known_as, create_task_known,
}
use github_pr_review_agent.Store.Histories.{Call, perform, run, perform-Change}

run-known_as :
    (ks : List (Conn × Call)) (db : Database) (d : Text) (i : ℕ)
    → known_as d db.tasks ≡ some i
    → known_as d (run ks db).tasks ≡ some i
unfolding run
run-known_as [] db d i known = known
run-known_as (k ∷ ks) db d i known =
    run-known_as ks (perform k db) d i (Change-known_as d i (perform-Change k db) known)

-- Once CreateTask has answered for a delivery id that is not empty, then, after any further
-- operations with any faults, CreateTask for the same id (in a call in which nothing fails) answers
-- that no task was created, with a task of the same id as the first time, and changes no table.
pub redelivered_once :
    (c : Conn) (random : Text) (input : NewTask) (db : Database) (a : Task × Bool)
    (ks : List (Conn × Call)) (c' : Conn) (random' : Text) (input' : NewTask)
    → input.delivery_id ≢ []
    → (create_task c random input db).0 ≡ ok a
    → input'.delivery_id ≡ input.delivery_id
    → c'.fault ≡ sound
    → let db' = run ks (create_task c random input db).1 in
      (t : Task) × (create_task c' random' input' db' ≡ (ok (t, false), db')) × (t.id ≡ a.0.id)
redelivered_once c random input db a ks c' random' input' has first again fine =
    create_task_known c' random' input' (run ks (create_task c random input db).1) a.0.id
      (λ e. has (sym again ∙ e)) fine
      (subst (λ d. known_as d (run ks (create_task c random input db).1).tasks ≡ some a.0.id)
        (sym again)
        (run-known_as ks (create_task c random input db).1 input.delivery_id a.0.id
          (create_task-known_as c random input db a has first)))

-- ===== src/Store/Reviews/Effects.antt =====
-- internal/store: the operations on reviews, against the contract of Store/Changes.antt.
use github_pr_review_agent.Common.{
  ℕ, ◌≡◌, ◌≢◌, refl, none, some, ◌∷◌, arith, Text, Option-cases, inl, inr, ◌⊎◌, subst, sym,
  Bool-cases, ◌==◌, ◌||◌, is_empty, ◌∙◌,
}
use github_pr_review_agent.Store.Tables.{
  running, done, TaskRow, ReviewResult, ReviewDelivery, NewReviewResult, AuditLog, Database,
  review_result_created, result_detail, github_review_detail, find_task, find_delivery,
  set_delivery,
}
use github_pr_review_agent.Store.Transaction.{Conn, Result, ok, err, commit, transaction}
use github_pr_review_agent.Store.Rows.{Task, get_task, update_row}
use github_pr_review_agent.Store.AuditLogs.{insert_audit_log}
use github_pr_review_agent.Store.Changes.{
  Change, same, inserted, moved, touched, logged, transaction-Change,
}
use github_pr_review_agent.Store.Moves.{after_move, after_move-Change}
use github_pr_review_agent.Store.Reviews.{
  insert_result, create_result_body, create_review_result, prepare_body, reread, prepare_for,
  prepare_review_delivery, record_review_id, delivered_body, mark_review_delivered, insert_delivery,
  snapshot,
}

-- The audit entry of a saved review.
result_entry : Conn → ReviewResult → AuditLog
result_entry c row = record {
  task_id = row.task_id;
  action = review_result_created;
  old_status = none;
  new_status = none;
  detail = result_detail row.id row.content;
  created_at = c.clock;
}

insert_result-tables :
    (c : Conn) (input : NewReviewResult) (db db' : Database) (row : ReviewResult)
    → insert_result c input db ≡ ok (row, db')
    → (row.content ≡ input)
      × (db'.tasks ≡ db.tasks)
      × (db'.audit ≡ db.audit)
      × (db'.next_task_id ≡ db.next_task_id)
unfolding insert_result
insert_result-tables c input db db' row h = ground arith

create_result_body-commit :
    (c : Conn) (input : NewReviewResult) (db db' : Database) (a : ReviewResult)
    → create_result_body c input db ≡ ok (commit a db')
    → (db'.tasks ≡ db.tasks)
      × (db'.audit ≡ result_entry c a ∷ db.audit)
      × (db'.next_task_id ≡ db.next_task_id)
unfolding create_result_body insert_audit_log result_entry insert_result
create_result_body-commit c input db db' a h = ground arith

create_result_body-Change :
    (c : Conn) (input : NewReviewResult) (db db' : Database) (a : ReviewResult)
    → create_result_body c input db ≡ ok (commit a db')
    → Change db db'
unfolding result_entry
create_result_body-Change c input db db' a h =
    let (tasks, audit, next) = create_result_body-commit c input db db' a h in
    logged (result_entry c a) refl tasks audit next

pub create_review_result-Change :
    (c : Conn) (input : NewReviewResult) (db : Database)
    → Change db (create_review_result c input db).1
unfolding create_review_result
create_review_result-Change c input db =
    transaction-Change c (create_result_body c input) db
      (λ a db' e. create_result_body-Change c input db db' a e)

-- Preparing a delivery leaves the tables of the contract alone.
prepare_body-Change :
    (c : Conn) (d : ReviewDelivery) (db db' : Database)
    → prepare_body c d db ≡ ok (commit tt db')
    → Change db db'
unfolding prepare_body insert_delivery
prepare_body-Change c d db db' h = same (ground arith) (ground arith) (ground arith)

reread-same : (c : Conn) (id : ℕ) (r : Result (Unit {0}) × Database) → (reread c id r).1 ≡ r.1
unfolding reread
reread-same c id (ok u, db) = refl
reread-same c id (err e, db) = refl

prepare_for-Change :
    (c : Conn) (token : Text) (id : ℕ) (sha : Text) (r : Result Task) (db : Database)
    → Change db (prepare_for c token id sha r db).1
unfolding prepare_for
prepare_for-Change c token id sha (err e) db = same refl refl refl
prepare_for-Change c token id sha (ok task) db =
    let d : ReviewDelivery = record {
      task_id = id;
      commit_sha = snapshot task sha;
      marker = token;
      github_review_id = 0;
    } in
    subst (Change db) (sym (reread-same c id (transaction c (prepare_body c d) db)))
      (transaction-Change c (prepare_body c d) db (λ a db' e. prepare_body-Change c d db db' e))

pub prepare_review_delivery-Change :
    (c : Conn) (token : Text) (id : ℕ) (sha : Text) (db : Database)
    → Change db (prepare_review_delivery c token id sha db).1
unfolding prepare_review_delivery
prepare_review_delivery-Change c token id sha db = elim (Bool-cases ((id == 0) || is_empty sha)) [
  | inl bad ↦ rw bad (same refl refl refl)
  | inr good ↦ rw good (prepare_for-Change c token id sha (get_task c id db) db)
]

-- The row of a task whose review is out.
abbrev pub delivered_row : TaskRow → TaskRow
delivered_row row = record row { status = done; error = none; next_retry_at = none }

-- The record of the review id, in the same commit as the status.
abbrev pub with_review_id : ReviewDelivery → ℕ → Database → Database
with_review_id d review_id db = record db {
  deliveries = set_delivery (record d { github_review_id = review_id }) db.deliveries;
}

record_review_id-commit :
    (c : Conn) (row : TaskRow) (d : ReviewDelivery) (review_id : ℕ) (db db' : Database)
    → record_review_id c row d review_id db ≡ ok (commit tt db')
    → db'
      ≡ after_move c row
          (delivered_row row)
          (github_review_detail review_id)
          (with_review_id d review_id db)
unfolding record_review_id update_row insert_audit_log
record_review_id-commit c row d review_id db db' h = ground arith

pub delivered_body-cases :
    (c : Conn) (id review_id : ℕ) (row : TaskRow) (db db' : Database)
    → find_task id db.tasks ≡ some row
    → delivered_body c id review_id db ≡ ok (commit tt db')
    → (d : ReviewDelivery) × (find_delivery id db.deliveries ≡ some d)
      × ((row.status ≡ running) ⊎ (row.status ≡ done))
      × ((d.github_review_id ≡ 0) ⊎ (d.github_review_id ≡ review_id))
      × ((db' ≡ db) ⊎ (record_review_id c row d review_id db ≡ ok (commit tt db')))
unfolding delivered_body
delivered_body-cases c id review_id row db db' found h =
    elim (Option-cases (find_delivery id db.deliveries)) [
      | inl missing ↦ absurd (ground arith)
      | inr (d, has) ↦ (d, has, ground arith, ground arith, ground arith)
    ]

delivered_body-found :
    (c : Conn) (id review_id : ℕ) (db db' : Database)
    → find_task id db.tasks ≡ none
    → delivered_body c id review_id db ≢ ok (commit tt db')
unfolding delivered_body
delivered_body-found c id review_id db db' missing h = ground arith

-- A change of tables that differ from `db` outside the contract.
Change-with :
    {db : Database} (mid : Database) {db' : Database}
    → mid.tasks ≡ db.tasks
    → mid.audit ≡ db.audit
    → mid.next_task_id ≡ db.next_task_id
    → Change mid db'
    → Change db db'
Change-with mid t a n (same e f g) = same (e ∙ t) (f ∙ a) (g ∙ n)
Change-with mid t a n (inserted r x fresh new at rec e f g) =
    inserted r x (rw (← n) fresh) (rw (← t) new) at rec (rw (← t) e) (rw (← a) f) g
Change-with mid t a n (moved old new x found keeps may rec e f g) =
    moved old new x (rw (← t) found) keeps may rec (rw (← t) e) (rw (← a) f) (g ∙ n)
Change-with mid t a n (touched old new found keeps at only e f g) =
    touched old new (rw (← t) found) keeps at only (rw (← t) e) (f ∙ a) (g ∙ n)
Change-with mid t a n (logged x blank e f g) = logged x blank (e ∙ t) (rw (← a) f) (g ∙ n)

delivered_body-Change :
    (c : Conn) (id review_id : ℕ) (db db' : Database)
    → delivered_body c id review_id db ≡ ok (commit tt db')
    → Change db db'
delivered_body-Change c id review_id db db' h = elim (Option-cases (find_task id db.tasks)) [
  | inl missing ↦ absurd (delivered_body-found c id review_id db db' missing h)
  | inr (row, found) ↦
      let (d, has, at, free, e) = delivered_body-cases c id review_id row db db' found h in
      elim e [
        | inl q ↦ rw q (same refl refl refl)
        | inr q ↦ recorded row d found at (record_review_id-commit c row d review_id db db' q)
      ]
]
  where
    recorded :
        (row : TaskRow) (d : ReviewDelivery)
        → find_task id db.tasks ≡ some row
        → (row.status ≡ running) ⊎ (row.status ≡ done)
        → db'
          ≡ after_move c row
              (delivered_row row)
              (github_review_detail review_id)
              (with_review_id d review_id db)
        → Change db db'
    recorded row d found at q = Change-with (with_review_id d review_id db) refl refl refl (
        after_move-Change c id row (delivered_row row) (github_review_detail review_id)
          (with_review_id d review_id db) db' found (ground arith)
          (record { leaves = λ e. ground arith; supersedes = λ e. absurd (ground arith) }) q)

pub mark_review_delivered-Change :
    (c : Conn) (id review_id : ℕ) (db : Database)
    → Change db (mark_review_delivered c id review_id db).1
unfolding mark_review_delivered
mark_review_delivered-Change c id review_id db = elim (Bool-cases (review_id == 0)) [
  | inl bad ↦ rw bad (same refl refl refl)
  | inr good ↦ rw good (
      transaction-Change c (delivered_body c id review_id) db
        (λ a db' e. delivered_body-Change c id review_id db db' e))
]

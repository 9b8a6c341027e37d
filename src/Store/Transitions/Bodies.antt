-- ===== src/Store/Transitions/Bodies.antt =====
-- internal/store/mysql.go: what the transactions of Store/Transitions.antt commit.
use github_pr_review_agent.Common.{
  ℕ, ◌≡◌, ◌≢◌, refl, Option, none, some, arith, true, Text, Option-cases, inl, inr, ◌⊎◌, subst, sym,
  Bool,
}
use github_pr_review_agent.Store.Tables.{
  Status, running, dead_letter, superseded, TaskRow, Database, Detail, find_task, find_task-id,
  attempt_detail, error_detail, retry_detail, dead_letter_detail, attempt_count_reset,
}
use github_pr_review_agent.Store.Transaction.{Conn, Error, ok, commit, or_fail}
use github_pr_review_agent.Store.Rows.{update_row}
use github_pr_review_agent.Store.AuditLogs.{insert_audit_log}
use github_pr_review_agent.Store.Changes.{Change, same, touched, SameTask, MayMove}
use github_pr_review_agent.Store.Transitions.{
  move_row, take_claim, write_status, update_status_body, claim_row, claim_body, retry_body,
  dead_letter_body, requeue_body, touch_row, touch_body, claimable, error_message, retrying_row,
  dead_letter_row, requeued_row, status_row, claimed_row,
}
use github_pr_review_agent.Store.Moves.{after_move, after_move-Change}

pub move_row-commit :
    (c : Conn) (row : TaskRow) (from : Status) (target : TaskRow) (detail : Detail)
    (db db' : Database)
    → move_row c row from target detail db ≡ ok (commit tt db')
    → (row.status ≡ from) × (db' ≡ after_move c row target detail db)
unfolding move_row update_row insert_audit_log
move_row-commit c row from target detail db db' h = ground arith

-- A move out of a status other than superseded, to one other than superseded.
move_row-Change :
    (c : Conn) (id : ℕ) (row : TaskRow) (from : Status) (target : TaskRow) (detail : Detail)
    (db db' : Database)
    → find_task id db.tasks ≡ some row
    → SameTask row target
    → from ≢ superseded
    → target.status ≢ superseded
    → move_row c row from target detail db ≡ ok (commit tt db')
    → Change db db'
move_row-Change c id row from target detail db db' found keeps leaves arrives h =
    let (at, e) = move_row-commit c row from target detail db db' h in
    after_move-Change c id row target detail db db' found keeps
      (record { leaves = rw at leaves; supersedes = λ s. absurd (arrives s) }) e

or_fail-ok {ℓ} : {A : Type ℓ} (o : Option A) (e : Error) {a : A} → or_fail o e ≡ ok a → o ≡ some a
or_fail-ok none e h = cc
or_fail-ok (some b) e h = cc

pub retry_body-Change :
    (c : Conn) (id attempt max_attempts : ℕ) (text : Text) (at : ℕ) (db db' : Database)
    → retry_body c id attempt max_attempts text at db ≡ ok (commit tt db')
    → Change db db'
unfolding retry_body
retry_body-Change c id attempt max_attempts text at db db' h =
    elim (Option-cases (find_task id db.tasks)) [
      | inl missing ↦ absurd (ground arith)
      | inr (row, found) ↦
          move_row-Change c id row running (retrying_row row attempt max_attempts text at)
            (retry_detail attempt max_attempts text at) db db' found (ground arith) (ground arith)
            (ground arith) (ground arith)
    ]

pub dead_letter_body-Change :
    (c : Conn) (id attempt max_attempts : ℕ) (text : Text) (db db' : Database)
    → dead_letter_body c id attempt max_attempts text db ≡ ok (commit tt db')
    → Change db db'
unfolding dead_letter_body
dead_letter_body-Change c id attempt max_attempts text db db' h =
    elim (Option-cases (find_task id db.tasks)) [
      | inl missing ↦ absurd (ground arith)
      | inr (row, found) ↦
          move_row-Change c id row running (dead_letter_row row attempt max_attempts text)
            (dead_letter_detail attempt max_attempts text) db db' found (ground arith)
            (ground arith) (ground arith) (ground arith)
    ]

pub requeue_body-Change :
    (c : Conn) (id : ℕ) (db db' : Database)
    → requeue_body c id db ≡ ok (commit tt db')
    → Change db db'
unfolding requeue_body
requeue_body-Change c id db db' h = elim (Option-cases (find_task id db.tasks)) [
  | inl missing ↦ absurd (ground arith)
  | inr (row, found) ↦
      move_row-Change c id row dead_letter (requeued_row row) attempt_count_reset db db' found
        (ground arith) (ground arith) (ground arith) (ground arith)
]

pub write_status-commit :
    (c : Conn) (row : TaskRow) (status : Status) (error : Option Text) (db db' : Database)
    → write_status c row status error db ≡ ok (commit tt db')
    → db' ≡ after_move c row (status_row row status error) (error_detail error) db
unfolding write_status update_row insert_audit_log
write_status-commit c row status error db db' h = ground arith

-- UpdateTaskStatus after its locking read: it commits nothing new, or one allowed move.
pub update_status_body-cases :
    (c : Conn) (row : TaskRow) (id : ℕ) (status : Status) (text : Text) (db db' : Database)
    → find_task id db.tasks ≡ some row
    → update_status_body c id status text db ≡ ok (commit tt db')
    → ((db' ≡ db) × (row.status ≡ status))
      ⊎ (MayMove row.status status
          × (write_status c row status (error_message text) db ≡ ok (commit tt db')))
unfolding update_status_body
update_status_body-cases c row id status text db db' found h = ground arith

pub update_status_body-Change :
    (c : Conn) (id : ℕ) (status : Status) (text : Text) (db db' : Database)
    → update_status_body c id status text db ≡ ok (commit tt db')
    → Change db db'
unfolding update_status_body
update_status_body-Change c id status text db db' h = elim (Option-cases (find_task id db.tasks)) [
  | inl missing ↦ absurd (ground arith)
  | inr (row, found) ↦ elim (update_status_body-cases c row id status text db db' found h) [
    | inl (e, _) ↦ rw e (same refl refl refl)
    | inr (may, e) ↦
        after_move-Change c id row (status_row row status (error_message text)) _ db db' found
          (ground arith) may (write_status-commit c row status (error_message text) db db' e)
  ]
]

pub take_claim-commit :
    (c : Conn) (row : TaskRow) (attempt : ℕ) (db db' : Database) (b : Bool)
    → take_claim c row attempt db ≡ ok (commit b db')
    → (b ≡ true) × (db' ≡ after_move c row (claimed_row row attempt) (attempt_detail attempt) db)
unfolding take_claim update_row insert_audit_log
take_claim-commit c row attempt db db' b h = ground arith

pub claim_row-commit :
    (c : Conn) (row : TaskRow) (attempt now : ℕ) (db db' : Database) (b : Bool)
    → claim_row c (some row) attempt now db ≡ ok (commit b db')
    → (claimable row attempt now ≡ true) × (take_claim c row attempt db ≡ ok (commit b db'))
unfolding claim_row
claim_row-commit c row attempt now db db' b h = ground arith

pub claim_row_missing :
    (c : Conn) (attempt now : ℕ) (db db' : Database) (b : Bool)
    → claim_row c none attempt now db ≢ ok (commit b db')
unfolding claim_row
claim_row_missing c attempt now db db' b h = ground arith

claimable-leaves :
    (row : TaskRow) (attempt now : ℕ) → claimable row attempt now ≡ true → row.status ≢ superseded
unfolding claimable
claimable-leaves row attempt now h e = ground arith

pub claim_body-commit :
    (c : Conn) (id attempt now : ℕ) (db db' : Database) (b : Bool)
    → claim_body c id attempt now db ≡ ok (commit b db')
    → claim_row c (find_task id db.tasks) attempt now db ≡ ok (commit b db')
unfolding claim_body
claim_body-commit c id attempt now db db' b h = ground arith

pub claim_body-Change :
    (c : Conn) (id attempt now : ℕ) (db db' : Database) (b : Bool)
    → claim_body c id attempt now db ≡ ok (commit b db')
    → Change db db'
claim_body-Change c id attempt now db db' b h = go (find_task id db.tasks) refl
  where
    go : (o : Option TaskRow) → find_task id db.tasks ≡ o → Change db db'
    go none e = absurd (
        claim_row_missing c attempt now db db' b (
          subst (λ o. claim_row c o attempt now db ≡ ok (commit b db')) e
            (claim_body-commit c id attempt now db db' b h)))
    go (some row) e =
        let (can, taken) = claim_row-commit c row attempt now db db' b (
          subst (λ o. claim_row c o attempt now db ≡ ok (commit b db')) e
            (claim_body-commit c id attempt now db db' b h)) in
        after_move-Change c id row (claimed_row row attempt) (attempt_detail attempt) db db' e
          (ground arith)
          (record {
            leaves = claimable-leaves row attempt now can;
            supersedes = λ s. absurd (ground arith);
          })
          (take_claim-commit c row attempt db db' b taken).1

touch_row-Change :
    (c : Conn) (id : ℕ) (row : TaskRow) (at : ℕ) (db db' : Database)
    → find_task id db.tasks ≡ some row
    → touch_row row at db ≡ ok (commit tt db')
    → Change db db'
unfolding touch_row
touch_row-Change c id row at db db' found h =
    touched row (record row { updated_at = at })
      (subst (λ i. find_task i db.tasks ≡ some row) (sym (find_task-id id db.tasks row found))
        found)
      (ground arith) refl refl (ground arith) (ground arith) (ground arith)

pub touch_body-Change :
    (c : Conn) (id at : ℕ) (db db' : Database)
    → touch_body c id at db ≡ ok (commit tt db')
    → Change db db'
unfolding touch_body
touch_body-Change c id at db db' h = elim (Option-cases (find_task id db.tasks)) [
  | inl missing ↦ absurd (ground arith)
  | inr (row, found) ↦ touch_row-Change c id row at db db' found (ground arith)
]

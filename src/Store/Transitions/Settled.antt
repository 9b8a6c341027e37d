-- ===== src/Store/Transitions/Settled.antt =====
-- internal/store/mysql.go: UpdateTaskStatus and ClaimTask by their answers.
use github_pr_review_agent.Common.{
  ℕ, ◌≡◌, ◌≢◌, List, ◌∷◌, Bool-cases, refl, Option, none, some, arith, true, false, Bool, ◌⊎◌, sym,
  ◌∙◌, Text, Option-cases, inl, inr, ap,
}
use github_pr_review_agent.Store.Tables.{
  Status, superseded, TaskRow, Database, find_task, find_task-id, find_task-set_task, Detail,
  status_eq, error_detail, set_task,
}
use github_pr_review_agent.Store.Transaction.{
  Conn, Result, ok, err, sound, task_transition_failed, transaction_sound, transaction_err, commit,
  rollback, transaction_cases, statement,
}
use github_pr_review_agent.Store.Rows.{stamp, update_row}
use github_pr_review_agent.Store.AuditLogs.{insert_audit_log}
use github_pr_review_agent.Store.Changes.{Change, same, inserted, moved, touched, logged}
use github_pr_review_agent.Store.Moves.{after_move}
use github_pr_review_agent.Store.Trail.{status_of}
use github_pr_review_agent.Store.Transitions.{
  update_status_body, update_task_status, write_status, error_message, status_row, claim_task,
  claim_body, claim_row, take_claim,
}
use github_pr_review_agent.Store.Transitions.Bodies.{update_status_body-cases, write_status-commit}

present :
    (id : ℕ) (ts : List TaskRow)
    → find_task id ts ≢ none
    → (r : TaskRow) × (find_task id ts ≡ some r)
present id ts h = elim (Option-cases (find_task id ts)) [ inl e ↦ absurd (h e) | inr found ↦ found ]

cons-present :
    (id : ℕ) (new r : TaskRow) (ts : List TaskRow)
    → find_task id ts ≡ some r
    → find_task id (new ∷ ts) ≢ none
unfolding find_task
cons-present id new r ts found missing = ground arith

set_task-present :
    (id : ℕ) (new r : TaskRow) (ts : List TaskRow)
    → find_task id ts ≡ some r
    → find_task id (set_task new ts) ≢ none
set_task-present id new r ts found missing = ground (arith, find_task-set_task id new ts)

-- A row that is there stays there.
pub Change-found :
    {db db' : Database} (id : ℕ) (r : TaskRow)
    → Change db db'
    → find_task id db.tasks ≡ some r
    → (r' : TaskRow) × (find_task id db'.tasks ≡ some r')
Change-found id r (same t a n) found = (r, rw t found)
Change-found {db} id r (inserted new e fresh unknown at rec t a n) found =
    rw t (present id (new ∷ db.tasks) (cons-present id new r db.tasks found))
Change-found {db} id r (moved old new e has keeps may rec t a n) found =
    rw t (present id (set_task new db.tasks) (set_task-present id new r db.tasks found))
Change-found {db} id r (touched old new has keeps at only t a n) found =
    rw t (present id (set_task new db.tasks) (set_task-present id new r db.tasks found))
Change-found id r (logged e blank t a n) found = (r, rw t found)

-- A written row has the status that was written.
pub after_move-status :
    (c : Conn) (id : ℕ) (row target : TaskRow) (detail : Detail) (db : Database)
    → find_task id db.tasks ≡ some row
    → target.id ≡ row.id
    → status_of id (after_move c row target detail db).tasks ≡ some target.status
unfolding stamp
after_move-status c id row target detail db found kept =
    ground (
      arith,
      find_task-id id db.tasks row found,
      find_task-set_task id (stamp c row target) db.tasks,
    )

update_status_body-status :
    (c : Conn) (id : ℕ) (status : Status) (text : Text) (db db' : Database)
    → update_status_body c id status text db ≡ ok (commit tt db')
    → status_of id db'.tasks ≡ some status
update_status_body-status c id status text db db' h = go (find_task id db.tasks) refl
  where
    go : (o : Option TaskRow) → find_task id db.tasks ≡ o → status_of id db'.tasks ≡ some status
    go none e = absurd (unfold update_status_body in ground arith)
    go (some row) e = elim (update_status_body-cases c row id status text db db' e h) [
      | inl (kept, at) ↦ rw (kept, e) (ap some at)
      | inr (may, written) ↦
          rw (write_status-commit c row status (error_message text) db db' written) (
            after_move-status c id row (status_row row status (error_message text))
              (error_detail (error_message text)) db e refl)
    ]

-- An UpdateTaskStatus that reports success has left the task in the wanted status.
pub update_task_status-status :
    (c : Conn) (id : ℕ) (status : Status) (text : Text) (db : Database)
    → (update_task_status c id status text db).0 ≡ ok tt
    → status_of id (update_task_status c id status text db).1.tasks ≡ some status
unfolding update_task_status
update_task_status-status c id status text db =
    transaction_cases c (update_status_body c id status text) db
      (λ r. r.0 ≡ ok tt → status_of id r.1.tasks ≡ some status)
      (λ r rolled e. absurd (never (rolled tt e)))
      (λ u db' r e confirmed q. update_status_body-status c id status text db db' e)
  where
    never : update_status_body c id status text db ≢ ok (rollback tt)
    never e = unfold update_status_body write_status in ground arith

write_status_sound :
    (c : Conn) (row : TaskRow) (status : Status) (error : Option Text) (db : Database)
    → c.fault ≡ sound
    → row.id ≢ 0
    → write_status c row status error db
      ≡ ok (commit tt (after_move c row (status_row row status error) (error_detail error) db))
unfolding write_status update_row insert_audit_log statement
write_status_sound c row status error db fine nonzero = ground arith

update_status_body_sound :
    (c : Conn) (id : ℕ) (status : Status) (text : Text) (db : Database) (row : TaskRow)
    → c.fault ≡ sound
    → row.id ≢ 0
    → find_task id db.tasks ≡ some row
    → status ≢ superseded
    → row.status ≢ superseded
    → (update_status_body c id status text db ≡ ok (commit tt db))
      ⊎ (update_status_body c id status text db ≡ write_status c row status (error_message text) db)
unfolding update_status_body statement
update_status_body_sound c id status text db row fine nonzero found live fresh = ground arith

update_status_body_over :
    (c : Conn) (id : ℕ) (status : Status) (text : Text) (db : Database) (row : TaskRow)
    → c.fault ≡ sound
    → find_task id db.tasks ≡ some row
    → status ≢ superseded
    → row.status ≡ superseded
    → update_status_body c id status text db ≡ err task_transition_failed
unfolding update_status_body statement
update_status_body_over c id status text db row fine found live over = ground arith

update_task_status_ok :
    (c : Conn) (id : ℕ) (status : Status) (text : Text) (db : Database) (row : TaskRow)
    → c.fault ≡ sound
    → row.id ≢ 0
    → find_task id db.tasks ≡ some row
    → status ≢ superseded
    → row.status ≢ superseded
    → (update_task_status c id status text db).0 ≡ ok tt
unfolding update_task_status
update_task_status_ok c id status text db row fine nonzero found live fresh =
    elim (update_status_body_sound c id status text db row fine nonzero found live fresh) [
      | inl e ↦
          ap (λ (r : Result (Unit {0}) × Database). r.0)
            (transaction_sound c (update_status_body c id status text) db db tt fine e)
      | inr e ↦
          ap (λ (r : Result (Unit {0}) × Database). r.0)
            (transaction_sound c (update_status_body c id status text) db _ tt fine
              (e ∙ write_status_sound c row status (error_message text) db fine nonzero))
    ]

-- With nothing failing, UpdateTaskStatus on a task that exists, with an id other than 0, settles it
-- in the wanted status, other than superseded, unless it is superseded already.
pub update_task_status_settles :
    (c : Conn) (id : ℕ) (status : Status) (text : Text) (db : Database) (row : TaskRow)
    → c.fault ≡ sound
    → id ≢ 0
    → find_task id db.tasks ≡ some row
    → status ≢ superseded
    → let after = status_of id (update_task_status c id status text db).1.tasks in
      (after ≡ some status) ⊎ (after ≡ some superseded)
unfolding update_task_status
update_task_status_settles c id status text db row fine nonzero found live =
    elim (Bool-cases (status_eq row.status superseded)) [
      | inl over ↦ inr (
          rw
            (
              transaction_err c (update_status_body c id status text) db task_transition_failed
                  (update_status_body_over c id status text db row fine found live (ground arith)),
              found,
            )
            (ground arith))
      | inr fresh ↦ inl (
          update_task_status-status c id status text db (
            update_task_status_ok c id status text db row fine
              (omega (arith, find_task-id id db.tasks row found)) found live (ground arith)))
    ]

claim_body-commit_true :
    (c : Conn) (id attempt now : ℕ) (db db' : Database) (b : Bool)
    → claim_body c id attempt now db ≡ ok (commit b db')
    → b ≡ true
unfolding claim_body claim_row take_claim
claim_body-commit_true c id attempt now db db' b h = ground arith

-- A claim that is refused changes nothing.
pub claim_task-false :
    (c : Conn) (id attempt now : ℕ) (db : Database)
    → (claim_task c id attempt now db).0 ≡ ok false
    → (claim_task c id attempt now db).1 ≡ db
unfolding claim_task
claim_task-false c id attempt now db =
    transaction_cases c (claim_body c id attempt now) db (λ r. r.0 ≡ ok false → r.1 ≡ db)
      (λ r rolled e. refl)
      (λ b db' r e confirmed q.
        absurd
          (no_false (sym (confirmed false q ∙ claim_body-commit_true c id attempt now db db' b e))))
  where
    no_false : true ≢ false
    no_false e = ground arith

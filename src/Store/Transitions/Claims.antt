-- ===== src/Store/Transitions/Claims.antt =====
-- internal/store/mysql.go: ClaimTask, granted and refused.
use github_pr_review_agent.Common.{
  ℕ, ◌≤◌, ◌<◌, ◌≡◌, ◌≢◌, refl, Option, none, some, arith, true, false, Bool, max, ◌⊎◌, subst, sym,
}
use github_pr_review_agent.Store.Tables.{
  queued, running, retrying, TaskRow, Database, find_task, find_task-id, find_task-set_task,
  attempt_detail,
}
use github_pr_review_agent.Store.Transaction.{Conn, ok, commit, rollback, transaction_cases}
use github_pr_review_agent.Store.Rows.{stamp}
use github_pr_review_agent.Store.Moves.{after_move}
use github_pr_review_agent.Store.Transitions.{
  claimable, claimed_row, due, claim_row, claim_body, claim_task, take_claim,
}
use github_pr_review_agent.Store.Transitions.Bodies.{
  claim_body-commit, claim_row-commit, claim_row_missing, take_claim-commit,
}

-- A row that a claim has written for the given attempt, out of `row`.
pub record IsClaimed (row : TaskRow) (attempt : ℕ) (id : ℕ) (db : Database) : Type 0 where
  pub now_row : TaskRow
  pub found : find_task id db.tasks ≡ some now_row
  pub is_running : now_row.status ≡ running
  pub counted : now_row.attempt_count ≡ max row.attempt_count attempt
  pub cleared : now_row.error ≡ none

-- The rows that the UPDATE of ClaimTask takes.
abbrev pub MayClaim : TaskRow → ℕ → ℕ → Type 0
MayClaim row attempt now =
    (((row.status ≡ queued) ⊎ (row.status ≡ retrying)) × (due row.next_retry_at now ≡ true))
    ⊎ ((row.status ≡ running) × (row.attempt_count < attempt))

claimable-MayClaim :
    (row : TaskRow) (attempt now : ℕ) → claimable row attempt now ≡ true → MayClaim row attempt now
unfolding claimable
claimable-MayClaim row attempt now h = ground arith

not_claimable :
    (row : TaskRow) (attempt now : ℕ)
    → claimable row attempt now ≡ false
    → ¬ MayClaim row attempt now
unfolding claimable
not_claimable row attempt now h may = ground arith

after_move-IsClaimed :
    (c : Conn) (id : ℕ) (row : TaskRow) (attempt : ℕ) (db : Database)
    → find_task id db.tasks ≡ some row
    → IsClaimed row attempt id
        (after_move c row (claimed_row row attempt) (attempt_detail attempt) db)
unfolding stamp
after_move-IsClaimed c id row attempt db found = record {
  now_row = stamp c row (claimed_row row attempt);
  found =
      rw (find_task-set_task id (stamp c row (claimed_row row attempt)) db.tasks)
        (ground (arith, find_task-id id db.tasks row found));
  is_running = refl;
  counted = refl;
  cleared = refl;
}

claim_body-taken :
    (c : Conn) (id attempt now : ℕ) (db db' : Database) (b : Bool)
    → claim_body c id attempt now db ≡ ok (commit b db')
    → (row : TaskRow) × (find_task id db.tasks ≡ some row)
      × MayClaim row attempt now
      × IsClaimed row attempt id db'
claim_body-taken c id attempt now db db' b h = go (find_task id db.tasks) refl
  where
    go :
        (o : Option TaskRow)
        → find_task id db.tasks ≡ o
        → (row : TaskRow) × (find_task id db.tasks ≡ some row)
          × MayClaim row attempt now
          × IsClaimed row attempt id db'
    go none e = absurd (
        claim_row_missing c attempt now db db' b (
          subst (λ o. claim_row c o attempt now db ≡ ok (commit b db')) e
            (claim_body-commit c id attempt now db db' b h)))
    go (some row) e =
        let (can, taken) = claim_row-commit c row attempt now db db' b (
          subst (λ o. claim_row c o attempt now db ≡ ok (commit b db')) e
            (claim_body-commit c id attempt now db db' b h)) in
        (
          row,
          e,
          claimable-MayClaim row attempt now can,
          subst (IsClaimed row attempt id) (sym (take_claim-commit c row attempt db db' b taken).1)
              (after_move-IsClaimed c id row attempt db e),
        )

claim_body-rollback :
    (c : Conn) (id attempt now : ℕ) (db : Database) (b : Bool)
    → claim_body c id attempt now db ≡ ok (rollback b)
    → b ≡ false
unfolding claim_body claim_row take_claim
claim_body-rollback c id attempt now db b h = ground arith

claim_body-idle :
    (c : Conn) (id attempt now : ℕ) (db : Database) (row : TaskRow)
    → find_task id db.tasks ≡ some row
    → claim_body c id attempt now db ≡ ok (rollback false)
    → claimable row attempt now ≡ false
unfolding claim_body claim_row take_claim
claim_body-idle c id attempt now db row found h = ground arith

claim_body-committed :
    (c : Conn) (id attempt now : ℕ) (db db' : Database)
    → claim_body c id attempt now db ≢ ok (commit false db')
unfolding claim_body claim_row take_claim
claim_body-committed c id attempt now db db' h = ground arith

-- A claim that answers false was for a row that was not to be claimed.
pub claim_task-idle :
    (c : Conn) (id attempt now : ℕ) (db : Database) (row : TaskRow)
    → find_task id db.tasks ≡ some row
    → (claim_task c id attempt now db).0 ≡ ok false
    → ¬ MayClaim row attempt now
unfolding claim_task
claim_task-idle c id attempt now db row found =
    transaction_cases c (claim_body c id attempt now) db
      (λ r. r.0 ≡ ok false → ¬ MayClaim row attempt now)
      (λ r rolled refused.
        not_claimable row attempt now
          (claim_body-idle c id attempt now db row found (rolled false refused)))
      (λ b db' r e confirmed refused. absurd (
        claim_body-committed c id attempt now db db' (
          subst (λ a. claim_body c id attempt now db ≡ ok (commit a db'))
            (sym (confirmed false refused)) e)))

-- A claim that is granted was due: the task was waiting and not before its retry time, or running
-- on behalf of an earlier attempt. It leaves the row running, its error cleared, and counted up to
-- the attempt of the message.
pub claim_granted :
    (c : Conn) (id attempt now : ℕ) (db : Database)
    → (claim_task c id attempt now db).0 ≡ ok true
    → (row : TaskRow) × (find_task id db.tasks ≡ some row)
      × MayClaim row attempt now
      × IsClaimed row attempt id (claim_task c id attempt now db).1
unfolding claim_task
claim_granted c id attempt now db =
    transaction_cases c (claim_body c id attempt now) db
      (λ r.
        r.0 ≡ ok true
        → (row : TaskRow) × (find_task id db.tasks ≡ some row)
          × MayClaim row attempt now
          × IsClaimed row attempt id r.1)
      (λ r rolled granted.
        absurd (true_ne_false (claim_body-rollback c id attempt now db true (rolled true granted))))
      (λ b db' r e confirmed granted. claim_body-taken c id attempt now db db' b e)
  where
    true_ne_false : true ≢ false
    true_ne_false e = ground arith

-- A running task refuses every claim for an attempt that it has counted already, whatever fails,
-- and the tables stay as they are.
claim_refused :
    (c : Conn) (id attempt now : ℕ) (db : Database) (row : TaskRow)
    → find_task id db.tasks ≡ some row
    → row.status ≡ running
    → attempt ≤ row.attempt_count
    → ((claim_task c id attempt now db).0 ≢ ok true) × ((claim_task c id attempt now db).1 ≡ db)
unfolding claim_task
claim_refused c id attempt now db row found busy old =
    transaction_cases c (claim_body c id attempt now) db (λ r. (r.0 ≢ ok true) × (r.1 ≡ db))
      (λ r rolled. (
        (λ granted.
            absurd
              (ground (arith, claim_body-rollback c id attempt now db true (rolled true granted)))),
        refl,
      ))
      (λ b db' r e confirmed. absurd (refused b db' e))
  where
    refused : (b : Bool) (db' : Database) → claim_body c id attempt now db ≡ ok (commit b db') → ⊥
    refused b db' e =
        let (row', found', may, _) = claim_body-taken c id attempt now db db' b e in
        ground (arith, may)

-- Of several claims for one message only one is granted: after a granted claim, a claim for the
-- same or an earlier attempt is refused and changes nothing.
pub claim_once :
    (c : Conn) (id attempt now : ℕ) (db : Database) (c' : Conn) (attempt' now' : ℕ)
    → (claim_task c id attempt now db).0 ≡ ok true
    → attempt' ≤ attempt
    → let db' = (claim_task c id attempt now db).1 in
      ((claim_task c' id attempt' now' db').0 ≢ ok true)
      × ((claim_task c' id attempt' now' db').1 ≡ db')
claim_once c id attempt now db c' attempt' now' granted earlier =
    let (row, found, may, claimed) = claim_granted c id attempt now db granted in
    claim_refused c' id attempt' now' (claim_task c id attempt now db).1 claimed.now_row
      claimed.found claimed.is_running (omega (arith, claimed.counted))

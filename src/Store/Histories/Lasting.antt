-- ===== src/Store/Histories/Lasting.antt =====
-- internal/store: a row of review_task through a history.
use github_pr_review_agent.Common.{
  ℕ, ◌≡◌, ◌≢◌, refl, Option, some, List, [], ◌∷◌, arith, inl, inr, Bool-cases, ◌==◌, ==→≡, ◌<◌, ◌∙◌,
  subst,
}
use github_pr_review_agent.Store.Tables.{
  superseded, TaskRow, Database, empty_database, find_task, find_task-id, find_task-set_task,
  set_task,
}
use github_pr_review_agent.Store.Transaction.{Conn}
use github_pr_review_agent.Store.Changes.{Change, same, inserted, moved, touched, logged, SameTask}
use github_pr_review_agent.Store.Trail.{IsAudited, Change-IsAudited, find_task-Below}
use github_pr_review_agent.Store.Histories.{Call, perform, run, perform-Change, run-IsAudited}

-- What a later row of a task has kept: its columns, and superseded, if it was that.
pub record Keeps (old new : TaskRow) : Type 0 where
  pub columns : SameTask old new
  pub ended : old.status ≡ superseded → new.status ≡ superseded

Keeps-refl : (r : TaskRow) → Keeps r r
Keeps-refl r = record {
  columns = record {
    same_id = refl;
    same_repo = refl;
    same_pr_number = refl;
    same_commit_sha = refl;
    same_delivery_id = refl;
    same_action = refl;
    same_created_at = refl;
  };
  ended = λ e. e;
}

Keeps-trans : {a b c : TaskRow} → Keeps a b → Keeps b c → Keeps a c
Keeps-trans p q = record {
  columns = record {
    same_id = q.columns.same_id ∙ p.columns.same_id;
    same_repo = q.columns.same_repo ∙ p.columns.same_repo;
    same_pr_number = q.columns.same_pr_number ∙ p.columns.same_pr_number;
    same_commit_sha = q.columns.same_commit_sha ∙ p.columns.same_commit_sha;
    same_delivery_id = q.columns.same_delivery_id ∙ p.columns.same_delivery_id;
    same_action = q.columns.same_action ∙ p.columns.same_action;
    same_created_at = q.columns.same_created_at ∙ p.columns.same_created_at;
  };
  ended = λ e. q.ended (p.ended e);
}

abbrev Later : TaskRow → ℕ → Database → Type 0
Later r id db = (r' : TaskRow) × (find_task id db.tasks ≡ some r') × Keeps r r'

set_task-Keeps :
    (id : ℕ) (r old new : TaskRow) (ts : List TaskRow)
    → find_task id ts ≡ some r
    → find_task old.id ts ≡ some old
    → Keeps old new
    → (r' : TaskRow) × (find_task id (set_task new ts) ≡ some r') × Keeps r r'
set_task-Keeps id r old new ts found has keeps = elim (Bool-cases (new.id == id)) [
  | inl hit ↦ (
    new,
    rw (find_task-set_task id new ts) (rw hit (rw found refl)),
    subst (λ o. Keeps o new)
        (some_inj
          (subst (λ k. find_task k ts ≡ some old)
            (subst (λ k. k ≡ id) keeps.columns.same_id (==→≡ new.id id hit)) has)
          found)
        keeps,
  )
  | inr miss ↦ (r, rw (find_task-set_task id new ts) (rw miss found), Keeps-refl r)
]
  where
    some_inj : {o : Option TaskRow} {a b : TaskRow} → o ≡ some a → o ≡ some b → a ≡ b
    some_inj p q = cc

inserted-Later :
    (id : ℕ) (r new : TaskRow) (ts : List TaskRow)
    → id ≢ new.id
    → find_task id ts ≡ some r
    → find_task id (new ∷ ts) ≡ some r
unfolding find_task
inserted-Later id r new ts other found = ground arith

known-lt :
    {db : Database} (id : ℕ) (r : TaskRow)
    → IsAudited db
    → find_task id db.tasks ≡ some r
    → id < db.next_task_id
known-lt {db} id r v found = omega (
  arith,
  find_task-id id db.tasks r found,
  find_task-Below db.next_task_id id db.tasks r found v.ids,
)

Change-Later :
    {db db' : Database} (id : ℕ) (r : TaskRow)
    → Change db db'
    → IsAudited db
    → find_task id db.tasks ≡ some r
    → Later r id db'
Change-Later id r (same t a n) v found = (r, rw t found, Keeps-refl r)
Change-Later {db} id r (inserted new e fresh unknown at rec t a n) v found = (
  r,
  rw t (inserted-Later id r new db.tasks (omega (arith, known-lt id r v found)) found),
  Keeps-refl r,
)
Change-Later {db} id r (moved old new e has keeps may rec t a n) v found = rw t (
    set_task-Keeps id r old new db.tasks found has
      (record { columns = keeps; ended = λ e. absurd (may.leaves e) }))
Change-Later {db} id r (touched old new has keeps at only t a n) v found = rw t (
    set_task-Keeps id r old new db.tasks found has
      (record { columns = keeps; ended = λ e. at ∙ e }))
Change-Later id r (logged e blank t a n) v found = (r, rw t found, Keeps-refl r)

run-Later :
    (ks : List (Conn × Call)) (db : Database) (id : ℕ) (r : TaskRow)
    → IsAudited db
    → find_task id db.tasks ≡ some r
    → Later r id (run ks db)
unfolding run
run-Later [] db id r v found = (r, found, Keeps-refl r)
run-Later (k ∷ ks) db id r v found =
    let (r₁, found₁, keeps₁) = Change-Later id r (perform-Change k db) v found in
    let (r₂, found₂, keeps₂) =
      run-Later ks (perform k db) id r₁ (Change-IsAudited (perform-Change k db) v) found₁ in
    (r₂, found₂, Keeps-trans keeps₁ keeps₂)

-- A task that a history has made stays through any further history, with its id, repository, pull
-- request number, commit and delivery id, and once superseded it stays superseded.
pub task_lasts :
    (before after : List (Conn × Call)) (id : ℕ) (r : TaskRow)
    → find_task id (run before empty_database).tasks ≡ some r
    → (r' : TaskRow) × (find_task id (run after (run before empty_database)).tasks ≡ some r')
      × Keeps r r'
task_lasts before after id r found =
    run-Later after (run before empty_database) id r (run-IsAudited before) found

-- ===== src/Store/Creation/Idempotence.antt =====
-- internal/store/mysql.go: CreateTask and the delivery ids of webhooks.
use github_pr_review_agent.Common.{
  ℕ, ◌≡◌, ◌≢◌, refl, Option, none, some, List, [], ◌∷◌, arith, false, Text, text_eq, text_eq_refl,
  text_eq→≡, Bool, Bool-cases, inl, inr, Option-cases, ap, sym, map_option, ◌∙◌,
}
use github_pr_review_agent.Store.Tables.{
  TaskRow, NewTask, Database, find_delivery_id, find_task, find_task-id, set_task,
}
use github_pr_review_agent.Store.Transaction.{
  Conn, ok, commit, rollback, transaction_cases, transaction_sound, statement, sound,
}
use github_pr_review_agent.Store.Rows.{Task, scan_task}
use github_pr_review_agent.Store.Changes.{Change, same, inserted, moved, touched, logged}
use github_pr_review_agent.Store.Creation.{
  create_body, create_task, with_delivery_id, new_row, insert_task,
}
use github_pr_review_agent.Store.Creation.Effects.{create_body_known, create_body_fresh}

-- The id of the task that a delivery id has.
abbrev pub known_as : Text → List TaskRow → Option ℕ
known_as d ts = map_option (λ (r : TaskRow). r.id) (find_delivery_id d ts)

known_as-set_task :
    (d : Text) (new old : TaskRow) (ts : List TaskRow)
    → find_task new.id ts ≡ some old
    → new.delivery_id ≡ old.delivery_id
    → known_as d (set_task new ts) ≡ known_as d ts
unfolding find_task set_task find_delivery_id
known_as-set_task d new old [] found keeps = cc
known_as-set_task d new old (t ∷ ts) found keeps =
    ground (arith, known_as-set_task d new old ts, ap (λ x. text_eq x d) keeps)

known_as-cons :
    (d : Text) (r : TaskRow) (ts : List TaskRow) (i : ℕ)
    → find_delivery_id r.delivery_id ts ≡ none
    → known_as d ts ≡ some i
    → known_as d (r ∷ ts) ≡ some i
unfolding find_delivery_id
known_as-cons d r ts i fresh known = elim (Bool-cases (text_eq r.delivery_id d)) [
  | inl hit ↦
      absurd (ground (arith, ap (λ x. find_delivery_id x ts) (text_eq→≡ r.delivery_id d hit)))
  | inr miss ↦ rw miss known
]

-- A delivery id keeps its task under every operation of the store.
pub Change-known_as :
    {db db' : Database} (d : Text) (i : ℕ)
    → Change db db'
    → known_as d db.tasks ≡ some i
    → known_as d db'.tasks ≡ some i
Change-known_as d i (same t a n) known = rw t known
Change-known_as {db} d i (inserted r e fresh new at rec t a n) known =
    rw t (known_as-cons d r db.tasks i new known)
Change-known_as {db} d i (moved old new e has keeps may rec t a n) known =
    rw t
      (known_as-set_task d new old db.tasks (rw keeps.same_id has) keeps.same_delivery_id ∙ known)
Change-known_as {db} d i (touched old new has keeps at only t a n) known =
    rw t
      (known_as-set_task d new old db.tasks (rw keeps.same_id has) keeps.same_delivery_id ∙ known)
Change-known_as d i (logged e blank t a n) known = rw t known

find_task-total :
    (d : Text) (ts : List TaskRow) (row : TaskRow)
    → find_delivery_id d ts ≡ some row
    → (r : TaskRow) × (find_task row.id ts ≡ some r)
unfolding find_task find_delivery_id
find_task-total d ts row known = go (find_task row.id ts) refl ts known
  where
    member : (us : List TaskRow) → find_delivery_id d us ≡ some row → find_task row.id us ≢ none
    member [] h = λ e. cc
    member (t ∷ us) h = λ e. ground (arith, member us)

    go :
        (o : Option TaskRow)
        → find_task row.id ts ≡ o
        → (us : List TaskRow) → find_delivery_id d ts ≡ some row
        → (r : TaskRow) × (find_task row.id ts ≡ some r)
    go none e us h = absurd (member ts h e)
    go (some r) e us h = (r, e)

named :
    (random : Text) (input : NewTask)
    → input.delivery_id ≢ []
    → with_delivery_id random input ≡ input
unfolding with_delivery_id
named random input h = ground arith

create_body_answer :
    (c : Conn) (input : NewTask) (db db' : Database) (row r : TaskRow) (a : Task × Bool)
    → find_delivery_id input.delivery_id db.tasks ≡ some row
    → find_task row.id db.tasks ≡ some r
    → create_body c input db ≡ ok (commit a db')
    → a ≡ (scan_task r, false)
unfolding create_body insert_task
create_body_answer c input db db' row r a known found h = ground arith

create_body-known_as :
    (c : Conn) (input : NewTask) (db db' : Database) (a : Task × Bool)
    → create_body c input db ≡ ok (commit a db')
    → known_as input.delivery_id db'.tasks ≡ some a.0.id
unfolding find_delivery_id new_row scan_task
create_body-known_as c input db db' a h =
    elim (Option-cases (find_delivery_id input.delivery_id db.tasks)) [
      | inl fresh ↦
          let (after, answer) = create_body_fresh c input db db' a fresh h in
          rw (after, answer) (rw (text_eq_refl input.delivery_id) refl)
      | inr (row, known) ↦
          let (r, found) = find_task-total input.delivery_id db.tasks row known in
          rw
            (
              (create_body_known c input db db' row a known h).0,
              create_body_answer c input db db' row r a known found h,
              known,
            )
            (ap some (sym (find_task-id row.id db.tasks r found)))
    ]

create_body_again :
    (c : Conn) (input : NewTask) (db : Database) (row r : TaskRow)
    → c.fault ≡ sound
    → find_delivery_id input.delivery_id db.tasks ≡ some row
    → find_task row.id db.tasks ≡ some r
    → create_body c input db ≡ ok (commit (scan_task r, false) db)
unfolding create_body insert_task statement
create_body_again c input db row r fine known found = ground arith

known_as-some :
    (d : Text) (ts : List TaskRow) (i : ℕ)
    → known_as d ts ≡ some i
    → (row : TaskRow) × (find_delivery_id d ts ≡ some row) × (row.id ≡ i)
known_as-some d ts i h = elim (Option-cases (find_delivery_id d ts)) [
  | inl e ↦ absurd (ground arith)
  | inr (row, e) ↦ (row, e, ground arith)
]

pub create_task-known_as :
    (c : Conn) (random : Text) (input : NewTask) (db : Database) (a : Task × Bool)
    → input.delivery_id ≢ []
    → (create_task c random input db).0 ≡ ok a
    → known_as input.delivery_id (create_task c random input db).1.tasks ≡ some a.0.id
unfolding create_task
create_task-known_as c random input db a has = rw (named random input has) (
    transaction_cases c (create_body c input) db
      (λ r. r.0 ≡ ok a → known_as input.delivery_id r.1.tasks ≡ some a.0.id)
      (λ r rolled e. absurd (never a (rolled a e)))
      (λ b db' r e confirmed q. rw (confirmed a q) (create_body-known_as c input db db' b e)))
  where
    never : (x : Task × Bool) → create_body c input db ≢ ok (rollback x)
    never x e = unfold create_body in ground arith

-- A delivery id that has a task: CreateTask answers with that task, not created, and writes
-- nothing.
pub create_task_known :
    (c : Conn) (random : Text) (input : NewTask) (db : Database) (i : ℕ)
    → input.delivery_id ≢ []
    → c.fault ≡ sound
    → known_as input.delivery_id db.tasks ≡ some i
    → (t : Task) × (create_task c random input db ≡ (ok (t, false), db)) × (t.id ≡ i)
unfolding create_task scan_task
create_task_known c random input db i has fine known =
    let (row, found, at) = known_as-some input.delivery_id db.tasks i known in
    let (r, there) = find_task-total input.delivery_id db.tasks row found in
    (
      scan_task r,
      rw (named random input has) (
          transaction_sound c (create_body c input) db db (scan_task r, false) fine
            (create_body_again c input db row r fine found there)),
      find_task-id row.id db.tasks r there ∙ at,
    )

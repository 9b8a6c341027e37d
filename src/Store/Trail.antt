-- ===== src/Store/Trail.antt =====
-- internal/store/audit.go: what the audit log tells of the status of each task.
use github_pr_review_agent.Common.{
  ℕ, ◌+◌, ◌≤◌, ◌<◌, ◌≡◌, ◌≢◌, refl, Option, none, some, List, [], ◌∷◌, arith, map_option,
  if◌then◌else◌, ◌==◌, Bool-cases, inl, inr, All, ==→≡, subst, sym,
}
use mathlib.Core.Path.{subst₂}
use github_pr_review_agent.Store.Tables.{
  Status, received, TaskRow, AuditLog, Database, empty_database, find_task, set_task,
  find_task-set_task,
}
use github_pr_review_agent.Store.Changes.{Change, same, inserted, moved, touched, logged, Records}

abbrev or_else {ℓ} : {A : Type ℓ} → Option A → Option A → Option A
or_else none b = b
or_else (some a) b = some a

-- The status that the newest entry of a task gives it.
pub last_status : ℕ → List AuditLog → Option Status
last_status id [] = none
last_status id (e ∷ es) =
    let before = last_status id es in
    if e.task_id == id then or_else e.new_status before else before

-- Each entry that gives a status starts from the status that the entries before it gave.
abbrev pub Chained : List AuditLog → Type 0
Chained [] = Unit {0}
Chained (e ∷ es) = (e.new_status ≢ none → e.old_status ≡ last_status e.task_id es) × Chained es

abbrev pub status_of : ℕ → List TaskRow → Option Status
status_of id ts = map_option (λ (r : TaskRow). r.status) (find_task id ts)

abbrev pub Below : ℕ → List TaskRow → Type 0
Below n = All (λ (r : TaskRow). r.id < n)

pub record IsAudited (db : Database) : Type 0 where
  pub ids : Below db.next_task_id db.tasks
  pub trail : (id : ℕ) → last_status id db.audit ≡ status_of id db.tasks
  pub chained : Chained db.audit

Below-mono : (m n : ℕ) (ts : List TaskRow) → m ≤ n → Below m ts → Below n ts
Below-mono m n [] h b = tt
Below-mono m n (t ∷ ts) h b = (omega arith, Below-mono m n ts h b.1)

set_task-Below :
    (n : ℕ) (r : TaskRow) (ts : List TaskRow) → r.id < n → Below n ts → Below n (set_task r ts)
unfolding set_task
set_task-Below n r [] h b = tt
set_task-Below n r (t ∷ ts) h b = ground (arith, set_task-Below n r ts h b.1)

find_task_above : (n id : ℕ) (ts : List TaskRow) → n ≤ id → Below n ts → find_task id ts ≡ none
unfolding find_task
find_task_above n id [] h b = refl
find_task_above n id (t ∷ ts) h b = ground (arith, find_task_above n id ts h b.1)

pub find_task-Below :
    (n id : ℕ) (ts : List TaskRow) (r : TaskRow) → find_task id ts ≡ some r → Below n ts → r.id < n
unfolding find_task
find_task-Below n id [] r e b = cc
find_task-Below n id (t ∷ ts) r e b = ground (arith, find_task-Below n id ts r)

-- A row written back with another status changes the status of its own task only.
pub status_of-set_task :
    (id : ℕ) (r : TaskRow) (ts : List TaskRow) (old : TaskRow)
    → find_task r.id ts ≡ some old
    → status_of id (set_task r ts) ≡ (if r.id == id then some r.status else status_of id ts)
status_of-set_task id r ts old found = elim (Bool-cases (r.id == id)) [
  | inl hit ↦
      rw (find_task-set_task id r ts)
        (rw hit (rw (subst (λ k. find_task k ts ≡ some old) (==→≡ r.id id hit) found)))
  | inr miss ↦ rw (find_task-set_task id r ts) (rw miss refl)
]

last_status-cons :
    (id : ℕ) (e : AuditLog) (es : List AuditLog) (s : Status)
    → e.new_status ≡ some s
    → last_status id (e ∷ es) ≡ (if e.task_id == id then some s else last_status id es)
unfolding last_status
last_status-cons id e es s h = ground arith

last_status_blank :
    (id : ℕ) (e : AuditLog) (es : List AuditLog)
    → e.new_status ≡ none
    → last_status id (e ∷ es) ≡ last_status id es
unfolding last_status
last_status_blank id e es h = ground arith

module _ {db : Database} (v : IsAudited db) where
  inserted-trail :
      (r : TaskRow) (e : AuditLog) (id : ℕ)
      → r.status ≡ received
      → Records e r.id none (some received)
      → last_status id (e ∷ db.audit) ≡ status_of id (r ∷ db.tasks)
  unfolding find_task
  inserted-trail r e id at rec =
      rw (last_status-cons id e db.audit received rec.to, rec.of_task) (ground (arith, v.trail id))

  moved-trail :
      (old new : TaskRow) (e : AuditLog) (id : ℕ)
      → find_task old.id db.tasks ≡ some old
      → new.id ≡ old.id
      → Records e old.id (some old.status) (some new.status)
      → last_status id (e ∷ db.audit) ≡ status_of id (set_task new db.tasks)
  moved-trail old new e id found same_id rec = ground (
    arith,
    last_status-cons id e db.audit new.status rec.to,
    status_of-set_task id new db.tasks old (rw same_id found),
    v.trail id,
  )

  touched-trail :
      (old new : TaskRow) (id : ℕ)
      → find_task old.id db.tasks ≡ some old
      → new.id ≡ old.id
      → new.status ≡ old.status
      → last_status id db.audit ≡ status_of id (set_task new db.tasks)
  touched-trail old new id found same_id at =
      ground (
        arith,
        status_of-set_task id new db.tasks old (rw same_id found),
        v.trail id,
        ==→≡ new.id id,
      )

pub Change-IsAudited : {db db' : Database} → Change db db' → IsAudited db → IsAudited db'
Change-IsAudited {db} {db'} (same t a n) v = record {
  ids = rw (t, n) v.ids;
  trail = λ id. rw (t, a) (v.trail id);
  chained = rw a v.chained;
}
Change-IsAudited {db} {db'} (inserted r e fresh new at rec t a n) v = record {
  ids =
      subst₂ Below (sym n) (sym t)
        (omega arith, Below-mono db.next_task_id (r.id + 1) db.tasks (omega arith) v.ids);
  trail = λ id. rw (t, a) (inserted-trail v r e id at rec);
  chained = rw a (
    λ _. rw (
      rec.from,
      rec.of_task,
      v.trail r.id,
      find_task_above db.next_task_id r.id db.tasks fresh v.ids,
    ),
    v.chained,
  );
}
Change-IsAudited {db} {db'} (moved old new e found keeps may rec t a n) v = record {
  ids =
      rw (t, n)
        (set_task-Below db.next_task_id new db.tasks
          (rw keeps.same_id (find_task-Below db.next_task_id old.id db.tasks old found v.ids))
          v.ids);
  trail = λ id. rw (t, a) (moved-trail v old new e id found keeps.same_id rec);
  chained = rw a (λ _. rw (rec.from, rec.of_task, v.trail old.id, found), v.chained);
}
Change-IsAudited {db} {db'} (touched old new found keeps at only t a n) v = record {
  ids =
      rw (t, n)
        (set_task-Below db.next_task_id new db.tasks
          (rw keeps.same_id (find_task-Below db.next_task_id old.id db.tasks old found v.ids))
          v.ids);
  trail = λ id. rw (t, a) (touched-trail v old new id found keeps.same_id at);
  chained = rw a v.chained;
}
Change-IsAudited {db} {db'} (logged e blank t a n) v = record {
  ids = rw (t, n) v.ids;
  trail = λ id. rw (t, a, last_status_blank id e db.audit blank) (v.trail id);
  chained = rw a (λ h. absurd (h blank), v.chained);
}

pub empty-IsAudited : IsAudited empty_database
unfolding last_status find_task
empty-IsAudited = record { ids = tt; trail = λ id. refl; chained = tt }

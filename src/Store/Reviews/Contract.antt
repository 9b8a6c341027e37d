-- ===== src/Store/Reviews/Contract.antt =====
-- internal/store: what the operations on reviews do to the tables of the reviews.
use github_pr_review_agent.Common.{
  ℕ, ◌≡◌, refl, ◌⊎◌, inl, inr, Text, some, ◌∷◌, ◌==◌, ◌||◌, is_empty, arith, Bool-cases, sym, subst,
  Option-cases, none,
}
use github_pr_review_agent.Store.Tables.{
  NewReviewResult, ReviewResult, ReviewDelivery, Database, find_delivery, set_delivery,
}
use github_pr_review_agent.Store.Transaction.{
  Conn, Result, ok, err, commit, transaction, transaction_cases,
}
use github_pr_review_agent.Store.AuditLogs.{insert_audit_log}
use github_pr_review_agent.Store.Rows.{Task, get_task, update_row}
use github_pr_review_agent.Store.Reviews.{
  create_result_body, create_review_result, insert_result, insert_delivery, prepare_body, snapshot,
  prepare_for, prepare_review_delivery, delivered_body, mark_review_delivered,
}
use github_pr_review_agent.Store.Reviews.Snapshots.{
  reread-same, delivered_body-deliveries, delivered_body_missing,
}

-- A result is saved, or none.
abbrev pub Saves : NewReviewResult → Database → Database → Type 0
Saves input db db' =
    (db'.deliveries ≡ db.deliveries)
    × ((db'.results ≡ db.results)
        ⊎ ((r : ReviewResult) × (r.content ≡ input) × (db'.results ≡ r ∷ db.results)))

-- A delivery of the task is inserted, with the token for its marker and no review, or none.
abbrev pub Prepares : Text → ℕ → Database → Database → Type 0
Prepares token id db db' =
    (db'.results ≡ db.results)
    × ((db'.deliveries ≡ db.deliveries)
        ⊎ ((d : ReviewDelivery) × (d.task_id ≡ id)
            × (d.marker ≡ token)
            × (d.github_review_id ≡ 0)
            × (find_delivery id db.deliveries ≡ none)
            × (db'.deliveries ≡ d ∷ db.deliveries)))

-- The delivery of the task gets its review, or none.
abbrev pub Delivers : ℕ → ℕ → Database → Database → Type 0
Delivers id review_id db db' =
    (db'.results ≡ db.results)
    × ((db'.deliveries ≡ db.deliveries)
        ⊎ ((d : ReviewDelivery) × (find_delivery id db.deliveries ≡ some d)
            × (db'.deliveries
                ≡ set_delivery (record d { github_review_id = review_id }) db.deliveries)))

create_result_body-Saves :
    (c : Conn) (input : NewReviewResult) (db db' : Database) (a : ReviewResult)
    → create_result_body c input db ≡ ok (commit a db')
    → (a.content ≡ input) × (db'.deliveries ≡ db.deliveries) × (db'.results ≡ a ∷ db.results)
unfolding create_result_body insert_result insert_audit_log
create_result_body-Saves c input db db' a h = ground arith

pub create_review_result-Saves :
    (c : Conn) (input : NewReviewResult) (db : Database)
    → Saves input db (create_review_result c input db).1
unfolding create_review_result
create_review_result-Saves c input db =
    transaction_cases c (create_result_body c input) db (λ r. Saves input db r.1)
      (λ r _. (refl, inl refl))
      (λ a db' r e _.
        let (saved, kept, added) = create_result_body-Saves c input db db' a e in
        (kept, inr (a, saved, added)))

insert_delivery-cases :
    (d : ReviewDelivery) (db : Database)
    → ((insert_delivery d db).results ≡ db.results)
      × (((insert_delivery d db).deliveries ≡ db.deliveries)
          ⊎ ((find_delivery d.task_id db.deliveries ≡ none)
              × ((insert_delivery d db).deliveries ≡ d ∷ db.deliveries)))
unfolding insert_delivery
insert_delivery-cases d db = ground arith

insert_delivery-Prepares :
    (d : ReviewDelivery) (db : Database)
    → d.github_review_id ≡ 0
    → Prepares d.marker d.task_id db (insert_delivery d db)
insert_delivery-Prepares d db h =
    let (results, cases) = insert_delivery-cases d db in
    (
      results,
      elim cases [ inl kept ↦ inl kept | inr (free, added) ↦ inr (d, refl, refl, h, free, added) ],
    )

prepare_body-commit :
    (c : Conn) (d : ReviewDelivery) (db db' : Database) (a : Unit {0})
    → prepare_body c d db ≡ ok (commit a db')
    → db' ≡ insert_delivery d db
unfolding prepare_body
prepare_body-commit c d db db' a h = ground arith

prepare_for-Prepares :
    (c : Conn) (token : Text) (id : ℕ) (sha : Text) (r : Result Task) (db : Database)
    → Prepares token id db (prepare_for c token id sha r db).1
unfolding prepare_for
prepare_for-Prepares c token id sha (err e) db = (refl, inl refl)
prepare_for-Prepares c token id sha (ok task) db =
    let d : ReviewDelivery = record {
      task_id = id;
      commit_sha = snapshot task sha;
      marker = token;
      github_review_id = 0;
    } in
    subst (Prepares token id db) (sym (reread-same c id (transaction c (prepare_body c d) db))) (
      transaction_cases c (prepare_body c d) db (λ r. Prepares token id db r.1)
        (λ r _. (refl, inl refl))
        (λ a db' r e _.
          subst (Prepares token id db) (sym (prepare_body-commit c d db db' a e))
            (insert_delivery-Prepares d db refl)))

pub prepare_review_delivery-Prepares :
    (c : Conn) (token : Text) (id : ℕ) (sha : Text) (db : Database)
    → Prepares token id db (prepare_review_delivery c token id sha db).1
unfolding prepare_review_delivery
prepare_review_delivery-Prepares c token id sha db = elim (Bool-cases ((id == 0) || is_empty sha)) [
  | inl bad ↦ rw bad (refl, inl refl)
  | inr good ↦ rw good (prepare_for-Prepares c token id sha (get_task c id db) db)
]

delivered_body-results :
    (c : Conn) (id review_id : ℕ) (db db' : Database) (a : Unit {0})
    → delivered_body c id review_id db ≡ ok (commit a db')
    → db'.results ≡ db.results
unfolding delivered_body update_row insert_audit_log
delivered_body-results c id review_id db db' a h = ground arith

delivered_body-Delivers :
    (c : Conn) (id review_id : ℕ) (db db' : Database) (a : Unit {0})
    → delivered_body c id review_id db ≡ ok (commit a db')
    → Delivers id review_id db db'
delivered_body-Delivers c id review_id db db' a h =
    elim (Option-cases (find_delivery id db.deliveries)) [
      | inl missing ↦ absurd (delivered_body_missing c id review_id db db' a missing h)
      | inr (d, has) ↦ (
        delivered_body-results c id review_id db db' a h,
        elim (delivered_body-deliveries c id review_id d db db' a has h) [
          | inl kept ↦ inl kept
          | inr set ↦ inr (d, has, set)
        ],
      )
    ]

pub mark_review_delivered-Delivers :
    (c : Conn) (id review_id : ℕ) (db : Database)
    → Delivers id review_id db (mark_review_delivered c id review_id db).1
unfolding mark_review_delivered
mark_review_delivered-Delivers c id review_id db = elim (Bool-cases (review_id == 0)) [
  | inl bad ↦ rw bad (refl, inl refl)
  | inr good ↦ rw good (
      transaction_cases c (delivered_body c id review_id) db (λ r. Delivers id review_id db r.1)
        (λ r _. (refl, inl refl))
        (λ a db' r e _. delivered_body-Delivers c id review_id db db' a e))
]

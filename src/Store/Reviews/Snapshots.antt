-- ===== src/Store/Reviews/Snapshots.antt =====
-- internal/store/review_delivery.go: the commit and the marker of a delivery under the operations
-- on reviews.
use github_pr_review_agent.Common.{
  ℕ, ◌≡◌, ◌≢◌, ◌⊎◌, refl, none, some, Text, arith, Bool-cases, inl, inr, ◌==◌, ◌||◌, is_empty, ◌∙◌,
  ap, sym, subst, ==→≡, List, [], ◌∷◌, Option-cases,
}
use github_pr_review_agent.Store.Tables.{
  NewReviewResult, ReviewResult, ReviewDelivery, Database, find_delivery, set_delivery,
  find_delivery-set_delivery,
}
use github_pr_review_agent.Store.Transaction.{
  Conn, Result, ok, err, commit, transaction, transaction_cases, transaction-deliveries,
}
use github_pr_review_agent.Store.AuditLogs.{insert_audit_log}
use github_pr_review_agent.Store.Rows.{Task, update_row, get_task}
use github_pr_review_agent.Store.Reviews.{
  create_result_body, create_review_result, insert_delivery, prepare_body, reread, snapshot,
  prepare_for, prepare_review_delivery, delivered_body, mark_review_delivered,
}

-- The delivery of a task, and its commit and marker.
pub record IsSnapshot (id : ℕ) (sha marker : Text) (db : Database) : Type 0 where
  pub delivery : ReviewDelivery
  pub found : find_delivery id db.deliveries ≡ some delivery
  pub same_commit : delivery.commit_sha ≡ sha
  pub same_marker : delivery.marker ≡ marker

pub deliveries-IsSnapshot :
    (id : ℕ) (sha marker : Text) (db db' : Database)
    → db'.deliveries ≡ db.deliveries
    → IsSnapshot id sha marker db
    → IsSnapshot id sha marker db'
deliveries-IsSnapshot id sha marker db db' e v = record {
  delivery = v.delivery;
  found = rw e v.found;
  same_commit = v.same_commit;
  same_marker = v.same_marker;
}

create_result_body-deliveries :
    (c : Conn) (input : NewReviewResult) (db db' : Database) (a : ReviewResult)
    → create_result_body c input db ≡ ok (commit a db')
    → db'.deliveries ≡ db.deliveries
unfolding create_result_body insert_audit_log
create_result_body-deliveries c input db db' a h = ground arith

pub create_review_result-deliveries :
    (c : Conn) (input : NewReviewResult) (db : Database)
    → (create_review_result c input db).1.deliveries ≡ db.deliveries
unfolding create_review_result
create_review_result-deliveries c input db =
    transaction-deliveries c (create_result_body c input) db
      (λ a db' h. create_result_body-deliveries c input db db' a h)

pub reread-same : (c : Conn) (id : ℕ) (r : Result (Unit {0}) × Database) → (reread c id r).1 ≡ r.1
unfolding reread
reread-same c id (ok u, db) = refl
reread-same c id (err e, db) = refl

find_delivery-task_id :
    (id : ℕ) (ds : List ReviewDelivery) (d : ReviewDelivery)
    → find_delivery id ds ≡ some d
    → d.task_id ≡ id
unfolding find_delivery
find_delivery-task_id id [] d h = cc
find_delivery-task_id id (x ∷ ds) d h = ground (arith, find_delivery-task_id id ds d)

this_delivery :
    (id j : ℕ) (ds : List ReviewDelivery) (d x : ReviewDelivery)
    → d.task_id ≡ j
    → find_delivery id ds ≡ some d
    → find_delivery j ds ≡ some x
    → d ≡ x
this_delivery id j ds d x at has found =
    let named : d.task_id ≡ id = find_delivery-task_id id ds d has in cc

insert_delivery-found :
    (d old : ReviewDelivery) (id : ℕ) (db : Database)
    → find_delivery id db.deliveries ≡ some old
    → find_delivery id (insert_delivery d db).deliveries ≡ some old
unfolding insert_delivery find_delivery
insert_delivery-found d old id db h = grind arith

prepare_body-found :
    (c : Conn) (d old : ReviewDelivery) (id : ℕ) (db db' : Database) (a : Unit {0})
    → find_delivery id db.deliveries ≡ some old
    → prepare_body c d db ≡ ok (commit a db')
    → find_delivery id db'.deliveries ≡ some old
unfolding prepare_body
prepare_body-found c d old id db db' a found h = ground (arith, insert_delivery-found d old id db)

pub delivered_body_missing :
    (c : Conn) (id review_id : ℕ) (db db' : Database) (a : Unit {0})
    → find_delivery id db.deliveries ≡ none
    → delivered_body c id review_id db ≢ ok (commit a db')
unfolding delivered_body
delivered_body_missing c id review_id db db' a missing h = ground arith

pub delivered_body-deliveries :
    (c : Conn) (id review_id : ℕ) (d : ReviewDelivery) (db db' : Database) (a : Unit {0})
    → find_delivery id db.deliveries ≡ some d
    → delivered_body c id review_id db ≡ ok (commit a db')
    → (db'.deliveries ≡ db.deliveries)
      ⊎ (db'.deliveries ≡ set_delivery (record d { github_review_id = review_id }) db.deliveries)
unfolding delivered_body update_row insert_audit_log
delivered_body-deliveries c id review_id d db db' a has h = ground arith

module _ (j : ℕ) (sha marker : Text) where
  prepare_for-IsSnapshot :
      (c : Conn) (token : Text) (id : ℕ) (commit_sha : Text) (r : Result Task) (db : Database)
      → IsSnapshot j sha marker db
      → IsSnapshot j sha marker (prepare_for c token id commit_sha r db).1
  unfolding prepare_for
  prepare_for-IsSnapshot c token id commit_sha (err e) db v = v
  prepare_for-IsSnapshot c token id commit_sha (ok task) db v =
      let d : ReviewDelivery = record {
        task_id = id;
        commit_sha = snapshot task commit_sha;
        marker = token;
        github_review_id = 0;
      } in
      subst (IsSnapshot j sha marker) (sym (reread-same c id (transaction c (prepare_body c d) db)))
        (transaction_cases c (prepare_body c d) db (λ r. IsSnapshot j sha marker r.1) (λ r _. v)
          (λ a db' r e _. record {
            delivery = v.delivery;
            found = prepare_body-found c d v.delivery j db db' a v.found e;
            same_commit = v.same_commit;
            same_marker = v.same_marker;
          }))

  pub prepare_review_delivery-IsSnapshot :
      (c : Conn) (token : Text) (id : ℕ) (commit_sha : Text) (db : Database)
      → IsSnapshot j sha marker db
      → IsSnapshot j sha marker (prepare_review_delivery c token id commit_sha db).1
  unfolding prepare_review_delivery
  prepare_review_delivery-IsSnapshot c token id commit_sha db v =
      elim (Bool-cases ((id == 0) || is_empty commit_sha)) [
        | inl bad ↦ rw bad v
        | inr good ↦ rw good (prepare_for-IsSnapshot c token id commit_sha (get_task c id db) db v)
      ]

  set_delivery-IsSnapshot :
      (d : ReviewDelivery) (id review_id : ℕ) (db db' : Database)
      → find_delivery id db.deliveries ≡ some d
      → db'.deliveries ≡ set_delivery (record d { github_review_id = review_id }) db.deliveries
      → IsSnapshot j sha marker db
      → IsSnapshot j sha marker db'
  set_delivery-IsSnapshot d id review_id db db' has e v = elim (Bool-cases (d.task_id == j)) [
    | inl this ↦ record {
      delivery = record d { github_review_id = review_id };
      found =
          rw
            (
              e,
              find_delivery-set_delivery j (record d { github_review_id = review_id })
                  db.deliveries,
              this,
              v.found,
            )
            refl;
      same_commit =
          ap (λ (x : ReviewDelivery). x.commit_sha)
            (this_delivery id j db.deliveries d v.delivery (==→≡ d.task_id j this) has v.found)
          ∙ v.same_commit;
      same_marker =
          ap (λ (x : ReviewDelivery). x.marker)
            (this_delivery id j db.deliveries d v.delivery (==→≡ d.task_id j this) has v.found)
          ∙ v.same_marker;
    }
    | inr other ↦ record {
      delivery = v.delivery;
      found =
          rw
            (
              e,
              find_delivery-set_delivery j (record d { github_review_id = review_id })
                  db.deliveries,
              other,
            )
            v.found;
      same_commit = v.same_commit;
      same_marker = v.same_marker;
    }
  ]

  delivered_body-IsSnapshot :
      (c : Conn) (id review_id : ℕ) (db db' : Database) (a : Unit {0})
      → delivered_body c id review_id db ≡ ok (commit a db')
      → IsSnapshot j sha marker db
      → IsSnapshot j sha marker db'
  delivered_body-IsSnapshot c id review_id db db' a h v =
      elim (Option-cases (find_delivery id db.deliveries)) [
        | inl missing ↦ absurd (delivered_body_missing c id review_id db db' a missing h)
        | inr (d, has) ↦ elim (delivered_body-deliveries c id review_id d db db' a has h) [
          | inl e ↦ deliveries-IsSnapshot j sha marker db db' e v
          | inr e ↦ set_delivery-IsSnapshot d id review_id db db' has e v
        ]
      ]

  pub mark_review_delivered-IsSnapshot :
      (c : Conn) (id review_id : ℕ) (db : Database)
      → IsSnapshot j sha marker db
      → IsSnapshot j sha marker (mark_review_delivered c id review_id db).1
  unfolding mark_review_delivered
  mark_review_delivered-IsSnapshot c id review_id db v = elim (Bool-cases (review_id == 0)) [
    | inl bad ↦ rw bad v
    | inr good ↦ rw good (
        transaction_cases c (delivered_body c id review_id) db (λ r. IsSnapshot j sha marker r.1)
          (λ r _. v) (λ a db' r e _. delivered_body-IsSnapshot c id review_id db db' a e v))
  ]

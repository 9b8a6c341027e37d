-- ===== src/Review/Delivery/Retries.antt =====
-- internal/review/delivery.go: any number of attempts.
use github_pr_review_agent.Common.{
  ℕ, ◌≤◌, ◌≡◌, refl, List, [], ◌∷◌, Text, Bool-cases, inl, inr, text_eq,
}
use github_pr_review_agent.Store.Tables.{NewReviewResult, ReviewResult, ReviewDelivery, Database}
use github_pr_review_agent.Store.Transaction.{Conn, review_result_not_found, Result, ok, err}
use github_pr_review_agent.Store.Reviews.{
  create_review_result, get_review_result_by_task_id, get_review_delivery,
}
use github_pr_review_agent.Store.Reviews.Snapshots.{
  IsSnapshot, deliveries-IsSnapshot, create_review_result-deliveries,
  prepare_review_delivery-IsSnapshot,
}
use github_pr_review_agent.Store.Histories.{Call, perform}
use github_pr_review_agent.Store.Histories.Snapshots.{perform-IsSnapshot}
use github_pr_review_agent.Github.Reviews.{Host}
use github_pr_review_agent.Review.Delivery.{
  Attempt, Resumed, stopped, handled, fresh, resume_saved, resume_new, resume_with, resume_review,
  publish_created, finish_at, finish_with, finish_review, review_resumed, review_pr,
}
use github_pr_review_agent.Review.Delivery.Single.{
  Single, copies, get_review_delivery-found, publish_saved_review-Single,
}

-- What happens to a task between its first snapshot and its end: an attempt of ReviewPR, with what
-- it meets and what its analysis gives, or any other operation of the store.
pub data Event : Type 0 where
  tries : Attempt → (Text → Result NewReviewResult) → Event
  stores : Conn × Call → Event

module _ (h : Host) (id : ℕ) where
  open h use {State}

  unfoldable pub happens : Event → Database × State → Database × State
  happens (tries a analysis) site = let (r, db, s) = review_pr h a id analysis site in (db, s)
  happens (stores call) (db, s) = (perform call db, s)

  unfoldable pub play : List Event → Database × State → Database × State
  play [] site = site
  play (e ∷ es) site = play es (happens e site)

  module _ (sha marker : Text) where
    abbrev Fine {ℓ} : {A : Type ℓ} → A × Database × State → Type 0
    Fine (r, db, s) = Single h id sha marker (db, s)

    module _ (a : Attempt) where
      resume_saved-Fine :
          (result : ReviewResult) (got : Result ReviewDelivery) (db : Database) (s : State)
          → ((d : ReviewDelivery) → got ≡ ok d → (d.commit_sha ≡ sha) × (d.marker ≡ marker))
          → Single h id sha marker (db, s)
          → Fine (resume_saved h a result got (db, s))
      unfolding resume_saved
      resume_saved-Fine result (err e) db s known v = v
      resume_saved-Fine result (ok d) db s known v =
          let (commits, markers) = known d refl in
          publish_saved_review-Single h id sha marker a result d db s commits markers v

      resume_new-Fine :
          (head : Result Text) (db : Database) (s : State)
          → Single h id sha marker (db, s)
          → Fine (resume_new h a id head (db, s))
      unfolding resume_new
      resume_new-Fine (err e) db s v = v
      resume_new-Fine (ok head) db s (v, few) =
          (prepare_review_delivery-IsSnapshot id sha marker a.prepare a.token id head db v, few)

      resume_with-Fine :
          (got : Result ReviewResult) (db : Database) (s : State)
          → Single h id sha marker (db, s)
          → Fine (resume_with h a id got (db, s))
      unfolding resume_with
      resume_with-Fine (ok result) db s v =
          resume_saved-Fine result (get_review_delivery a.first_snapshot id db) db s
            (λ d. get_review_delivery-found h id sha marker a.first_snapshot db d v.0) v
      resume_with-Fine (err review_result_not_found) db s v = resume_new-Fine a.head db s v
      resume_with-Fine (err _) db s v = v

      publish_created-Fine :
          (d : ReviewDelivery) (got : Result ReviewResult) (db : Database) (s : State)
          → d.commit_sha ≡ sha
          → d.marker ≡ marker
          → Single h id sha marker (db, s)
          → Fine (publish_created h a d (got, db) s)
      unfolding publish_created
      publish_created-Fine d (err e) db s commits markers v = v
      publish_created-Fine d (ok result) db s commits markers v =
          publish_saved_review-Single h id sha marker a result d db s commits markers v

      finish_at-Fine :
          (input : NewReviewResult) (d : ReviewDelivery) (head : Result Text) (db : Database)
          (s : State)
          → d.commit_sha ≡ sha
          → d.marker ≡ marker
          → Single h id sha marker (db, s)
          → Fine (finish_at h a input d head (db, s))
      unfolding finish_at
      finish_at-Fine input d (err e) db s commits markers v = v
      finish_at-Fine input d (ok head) db s commits markers v =
          elim (Bool-cases (text_eq head d.commit_sha)) [
            | inr stale ↦ rw stale v
            | inl current ↦ rw current (
                publish_created-Fine d (create_review_result a.save input db).0
                  (create_review_result a.save input db).1 s commits markers
                  (
                    deliveries-IsSnapshot id sha marker db (create_review_result a.save input db).1
                        (create_review_result-deliveries a.save input db) v.0,
                    v.1,
                  ))
          ]

      finish_with-Fine :
          (input : NewReviewResult) (got : Result ReviewDelivery) (db : Database) (s : State)
          → ((d : ReviewDelivery) → got ≡ ok d → (d.commit_sha ≡ sha) × (d.marker ≡ marker))
          → Single h id sha marker (db, s)
          → Fine (finish_with h a input got (db, s))
      unfolding finish_with
      finish_with-Fine input (err e) db s known v = v
      finish_with-Fine input (ok d) db s known v =
          let (commits, markers) = known d refl in
          finish_at-Fine input d a.new_head db s commits markers v

      review_resumed-Fine :
          (analysis : Text → Result NewReviewResult) (resumed : Resumed) (db : Database) (s : State)
          → Single h id sha marker (db, s)
          → Fine (review_resumed h a id analysis (resumed, db, s))
      unfolding review_resumed finish_review
      review_resumed-Fine analysis (stopped e) db s v = v
      review_resumed-Fine analysis (handled r) db s v = v
      review_resumed-Fine analysis (fresh head) db s v = go (analysis head)
        where
          go :
              (answer : Result NewReviewResult)
              → Fine {A = Result (Unit {0})} (elim answer [
                | err e ↦ (err e, db, s)
                | ok input ↦ finish_review h a (record input { task_id = id }) (db, s)
              ])
          go (err e) = v
          go (ok input) =
              finish_with-Fine (record input { task_id = id })
                (get_review_delivery a.snapshot id db) db s
                (λ d. get_review_delivery-found h id sha marker a.snapshot db d v.0) v

    happens-Single :
        (e : Event) (db : Database) (s : State)
        → Single h id sha marker (db, s)
        → Single h id sha marker (happens e (db, s))
    unfolding happens review_pr
    happens-Single (tries a analysis) db s v =
        let resumed = resume_review h a id (db, s) in
        review_resumed-Fine a analysis resumed.0 resumed.1 resumed.2 (
          unfold resume_review in
          resume_with-Fine a (get_review_result_by_task_id a.saved id db) db s v)
    happens-Single (stores call) db s (v, few) = (perform-IsSnapshot call db id sha marker v, few)

    -- At most one review on GitHub, however often a task is tried: once the task has its snapshot
    -- and GitHub has at most one review with its marker at its commit, then after any sequence of
    -- attempts of ReviewPR and other operations of the store, with any faults, lost answers and
    -- pushes in between, the task still has that snapshot and GitHub still has at most one such
    -- review.
    pub play-Single :
        (es : List Event) (db : Database) (s : State)
        → IsSnapshot id sha marker db
        → copies h id sha marker s ≤ 1
        → Single h id sha marker (play es (db, s))
    unfolding play
    play-Single [] db s v few = (v, few)
    play-Single (e ∷ es) db s v few =
        let (v', few') = happens-Single e db s (v, few) in
        play-Single es (happens e (db, s)).0 (happens e (db, s)).1 v' few'

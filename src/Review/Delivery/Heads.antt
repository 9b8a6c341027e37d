-- ===== src/Review/Delivery/Heads.antt =====
-- internal/review/delivery.go: finishReview and the head of the pull request.
use github_pr_review_agent.Common.{
  ◌≡◌, ◌≢◌, refl, some, Text, arith, Bool-cases, inl, inr, text_eq, codes, text_eq→≡, ap,
}
use github_pr_review_agent.Store.Tables.{NewReviewResult, ReviewDelivery, Database, find_delivery}
use github_pr_review_agent.Store.Transaction.{Error, task_superseded, Result, ok, err}
use github_pr_review_agent.Store.Reviews.{get_review_delivery}
use github_pr_review_agent.Github.Reviews.{Host}
use github_pr_review_agent.Review.Delivery.{Attempt, finish_at, finish_with, finish_review}

module _ (h : Host) (a : Attempt) where
  open h use {State}

  finish_at-stale :
      (input : NewReviewResult) (d : ReviewDelivery) (head : Result Text) (db : Database)
      (s : State)
      → head ≢ ok d.commit_sha
      → (e : Error) × (finish_at h a input d head (db, s) ≡ (err e, db, s))
  unfolding finish_at
  finish_at-stale input d (err e) db s moved = (e, refl)
  finish_at-stale input d (ok head) db s moved = elim (Bool-cases (text_eq head d.commit_sha)) [
    | inl current ↦ absurd (moved (ap ok (text_eq→≡ head d.commit_sha current)))
    | inr stale ↦ (
      task_superseded (codes "PR head changed during review; result not published"),
      rw stale refl,
    )
  ]

  -- A result for a commit that is no longer the head is neither saved nor published: unless the
  -- fresh read of the head gives the commit of the task's snapshot, finishReview gives an error and
  -- changes neither the tables nor GitHub.
  pub finish_review-stale :
      (input : NewReviewResult) (db : Database) (s : State)
      → ((d : ReviewDelivery)
          → find_delivery input.task_id db.deliveries ≡ some d
          → a.new_head ≢ ok d.commit_sha)
      → (e : Error) × (finish_review h a input (db, s) ≡ (err e, db, s))
  unfolding finish_review
  finish_review-stale input db s moved = go (get_review_delivery a.snapshot input.task_id db) refl
    where
      got :
          (d : ReviewDelivery)
          → get_review_delivery a.snapshot input.task_id db ≡ ok d
          → find_delivery input.task_id db.deliveries ≡ some d
      got d q = unfold get_review_delivery in ground arith

      go :
          (r : Result ReviewDelivery)
          → get_review_delivery a.snapshot input.task_id db ≡ r
          → (e : Error) × (finish_with h a input r (db, s) ≡ (err e, db, s))
      go (err e) q = (e, refl)
      go (ok d) q = finish_at-stale input d a.new_head db s (moved d (got d q))

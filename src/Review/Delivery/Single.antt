-- ===== src/Review/Delivery/Single.antt =====
-- internal/review/delivery.go: one attempt, seen from the snapshot of the task.
use github_pr_review_agent.Common.{
  ℕ, ◌≤◌, ◌≡◌, refl, Option, none, some, List, [], ◌∷◌, Text, tally, arith, ◌==◌, Bool-cases, inl,
  inr, subst, sym, is_empty, ◌||◌, ==→≡, false,
}
use github_pr_review_agent.Store.Tables.{ReviewResult, ReviewDelivery, Database}
use github_pr_review_agent.Store.Transaction.{Conn, Result, ok, err}
use github_pr_review_agent.Store.Reviews.{get_review_delivery}
use github_pr_review_agent.Store.Reviews.Snapshots.{IsSnapshot, mark_review_delivered-IsSnapshot}
use github_pr_review_agent.Github.Reviews.{PullRequestReview, Host, list_pull_request_reviews}
use github_pr_review_agent.Review.Delivery.{
  Attempt, is_ours, find_ours, marker_of, mark, after_post, publish_missing, after_listing,
  publish_saved_review,
}
use github_pr_review_agent.Review.Delivery.Once.{unchanged, posted, publish_saved_review-Delivered}

is_ours-same :
    (d d' : ReviewDelivery) (r : PullRequestReview)
    → d.commit_sha ≡ d'.commit_sha
    → d.marker ≡ d'.marker
    → is_ours d r ≡ is_ours d' r
unfolding is_ours marker_of
is_ours-same d d' r commits markers = rw (commits, markers) refl

tally-is_ours :
    (d d' : ReviewDelivery) (rs : List PullRequestReview)
    → d.commit_sha ≡ d'.commit_sha
    → d.marker ≡ d'.marker
    → tally (is_ours d) rs ≡ tally (is_ours d') rs
tally-is_ours d d' [] commits markers = refl
tally-is_ours d d' (r ∷ rs) commits markers =
    rw (is_ours-same d d' r commits markers, tally-is_ours d d' rs commits markers) refl

module _ (h : Host) (id : ℕ) (sha marker : Text) where
  open h use {State, reviews}

  -- What every delivery of the task carries.
  abbrev pub snapshot_of : ReviewDelivery
  snapshot_of = record { task_id = id; commit_sha = sha; marker = marker; github_review_id = 0 }

  -- How many reviews with the marker GitHub has at the commit.
  abbrev pub copies : State → ℕ
  copies s = tally (is_ours snapshot_of) (reviews s)

  -- The task has its delivery, and GitHub has at most one review for it.
  abbrev pub Single : Database × State → Type 0
  Single (db, s) = IsSnapshot id sha marker db × (copies s ≤ 1)

  pub get_review_delivery-found :
      (c : Conn) (db : Database) (d : ReviewDelivery)
      → IsSnapshot id sha marker db
      → get_review_delivery c id db ≡ ok d
      → (d.commit_sha ≡ sha) × (d.marker ≡ marker)
  unfolding get_review_delivery
  get_review_delivery-found c db d v q = ground arith

  module _ (a : Attempt) where
    after_post-IsSnapshot :
        (task_id : ℕ) (answer : Result ℕ × State) (db : Database)
        → IsSnapshot id sha marker db
        → IsSnapshot id sha marker (after_post h a.mark task_id answer db).1
    unfolding after_post mark
    after_post-IsSnapshot task_id (err e, s) db v = v
    after_post-IsSnapshot task_id (ok review_id, s) db v =
        mark_review_delivered-IsSnapshot id sha marker a.mark task_id review_id db v

    after_listing-IsSnapshot :
        (result : ReviewResult) (d : ReviewDelivery) (rs : Result (List PullRequestReview))
        (db : Database) (s : State)
        → IsSnapshot id sha marker db
        → IsSnapshot id sha marker (after_listing h a result d rs (db, s)).1
    unfolding after_listing publish_missing mark
    after_listing-IsSnapshot result d (err e) db s v = v
    after_listing-IsSnapshot result d (ok rs) db s v = go (find_ours d rs)
      where
        go : (o : Option ℕ) → IsSnapshot id sha marker (publish_missing h a result d o (db, s)).1
        go (some review_id) =
            mark_review_delivered-IsSnapshot id sha marker a.mark result.task_id review_id db v
        go none = after_post-IsSnapshot result.task_id _ db v

    publish_saved_review-IsSnapshot :
        (result : ReviewResult) (d : ReviewDelivery) (db : Database) (s : State)
        → IsSnapshot id sha marker db
        → IsSnapshot id sha marker (publish_saved_review h a result d (db, s)).1
    unfolding publish_saved_review
    publish_saved_review-IsSnapshot result d db s v = elim (Bool-cases (d.github_review_id == 0)) [
      | inr done_already ↦ rw done_already v
      | inl open_delivery ↦
          rw open_delivery (elim (Bool-cases (is_empty d.marker || is_empty d.commit_sha)) [
            | inl bad ↦ rw bad v
            | inr good ↦ rw good (
                after_listing-IsSnapshot result d (list_pull_request_reviews a.listing (reviews s))
                  db s v)
          ])
    ]

    publish_saved_review-copies :
        (result : ReviewResult) (d : ReviewDelivery) (db : Database) (s : State)
        → d.commit_sha ≡ sha
        → d.marker ≡ marker
        → copies s ≤ 1
        → copies (publish_saved_review h a result d (db, s)).2 ≤ 1
    publish_saved_review-copies result d db s commits markers few =
        elim (Bool-cases (d.github_review_id == 0)) [
          | inr done_already ↦
              subst (λ s'. copies s' ≤ 1) (sym (published_already done_already)) few
          | inl open_delivery ↦
              elim (publish_saved_review-Delivered h a result d db s
                (==→≡ d.github_review_id 0 open_delivery)) [
                  | unchanged e _ ↦ subst (λ s'. copies s' ≤ 1) (sym e) few
                  | posted _ one ↦ omega (
                    arith,
                    one,
                    tally-is_ours d snapshot_of
                        (reviews (publish_saved_review h a result d (db, s)).2) commits markers,
                  )
                ]
        ]
      where
        published_already :
            (d.github_review_id == 0) ≡ false → (publish_saved_review h a result d (db, s)).2 ≡ s
        published_already e = unfold publish_saved_review in rw e refl

    -- An attempt to publish with the delivery of the task.
    pub publish_saved_review-Single :
        (result : ReviewResult) (d : ReviewDelivery) (db : Database) (s : State)
        → d.commit_sha ≡ sha
        → d.marker ≡ marker
        → Single (db, s)
        → let after = publish_saved_review h a result d (db, s) in Single (after.1, after.2)
    publish_saved_review-Single result d db s commits markers (v, few) = (
      publish_saved_review-IsSnapshot result d db s v,
      publish_saved_review-copies result d db s commits markers few,
    )

-- ===== src/Review/Delivery.antt =====
-- internal/review/delivery.go: from a saved result to one review on GitHub.
pub mod Matching
pub mod Once
pub mod Single
pub mod Retries
pub mod Heads
use github_pr_review_agent.Common.{
  ℕ, ◌==◌, Bool, true, false, ◌&&◌, ◌||◌, not, Option, none, some, List, [], ◌∷◌, ◌++◌, Text, codes,
  text_eq, is_empty, contains, if◌then◌else◌,
}
use github_pr_review_agent.Store.Tables.{NewReviewResult, ReviewResult, ReviewDelivery, Database}
use github_pr_review_agent.Store.Transaction.{
  Conn, Error, review_result_not_found, task_superseded, broken, message, Result, ok, err,
}
use github_pr_review_agent.Store.Reviews.{
  create_review_result, get_review_result_by_task_id, get_review_delivery, prepare_review_delivery,
  mark_review_delivered,
}
use github_pr_review_agent.Github.Reviews.{
  PullRequestReview, Host, list_pull_request_reviews, Posting, create_pull_request_review_at_commit,
}
use github_pr_review_agent.Review.Comment.{build_review_comment}

-- fmt.Errorf("...: %w", err). What is wrapped here is never ErrTaskSuperseded, the only error that
-- the callers look for.
abbrev wrapped : Text → Error → Error
wrapped prefix e = broken (prefix ++ message e)

-- What an attempt meets, in the order of its calls: the fault of each store call, the answers of
-- GetPullRequest (the commit at the head), the listing request that fails, and the end of the POST.
-- `token` is the hexadecimal form of the random bytes of PrepareReviewDelivery.
pub record Attempt : Type 0 where
  pub saved : Conn
  pub first_snapshot : Conn
  pub head : Result Text
  pub prepare : Conn
  pub token : Text
  pub snapshot : Conn
  pub new_head : Result Text
  pub save : Conn
  pub listing : Option (ℕ × Error)
  pub posting : Posting
  pub mark : Conn

unfoldable pub marker_of : ReviewDelivery → Text
marker_of d = codes "<!-- pr-review-agent:" ++ (d.marker ++ codes " -->")

-- A review that an earlier attempt has posted.
unfoldable pub is_ours : ReviewDelivery → PullRequestReview → Bool
unfolding marker_of
is_ours d r =
    not (r.id == 0)
    && text_eq r.state (codes "COMMENTED")
    && text_eq r.commit_id d.commit_sha
    && contains r.body (marker_of d)

-- The id of the first one.
unfoldable pub find_ours : ReviewDelivery → List PullRequestReview → Option ℕ
unfolding is_ours
find_ours d [] = none
find_ours d (r ∷ rs) = let rest = find_ours d rs in if is_ours d r then some r.id else rest

unfoldable pub review_body : ReviewResult → ReviewDelivery → Text
unfolding build_review_comment marker_of
review_body result d =
    build_review_comment result result.task_id d.commit_sha ++ (codes "\n\n" ++ marker_of d)

-- How resumeReview ends: with an error and no review; with a saved result, delivered or not; or
-- with the commit that is to be reviewed.
pub data Resumed : Type 0 where
  stopped : Error → Resumed
  handled : Result (Unit {0}) → Resumed
  fresh : Text → Resumed

module _ (h : Host) where
  open h use {State, reviews}

  mark : Conn → ℕ → ℕ → Database × State → Result (Unit {0}) × Database × State
  mark c task_id review_id (db, s) =
      let (r, db') = mark_review_delivered c task_id review_id db in (r, db', s)

  after_post : Conn → ℕ → Result ℕ × State → Database → Result (Unit {0}) × Database × State
  unfolding mark
  after_post c task_id (err e, s) db =
      (err (wrapped (codes "publish review outcome may be unknown; reconcile on retry: ") e), db, s)
  after_post c task_id (ok review_id, s) db = mark c task_id review_id (db, s)

  -- What follows the search for a review of an earlier attempt.
  publish_missing :
      Attempt
      → ReviewResult
      → ReviewDelivery
      → Option ℕ
      → Database × State
      → Result (Unit {0}) × Database × State
  unfolding mark after_post
  publish_missing a result d (some review_id) site = mark a.mark result.task_id review_id site
  publish_missing a result d none (db, s) =
      after_post a.mark result.task_id
        (create_pull_request_review_at_commit h a.posting s d.commit_sha (review_body result d)) db

  after_listing :
      Attempt
      → ReviewResult
      → ReviewDelivery
      → Result (List PullRequestReview)
      → Database × State
      → Result (Unit {0}) × Database × State
  unfolding publish_missing
  after_listing a result d (err e) (db, s) =
      (err (wrapped (codes "reconcile existing reviews: ") e), db, s)
  after_listing a result d (ok rs) site = publish_missing a result d (find_ours d rs) site

  unfoldable pub publish_saved_review :
      Attempt
      → ReviewResult
      → ReviewDelivery
      → Database × State
      → Result (Unit {0}) × Database × State
  unfolding after_listing
  publish_saved_review a result d (db, s) =
      if not (d.github_review_id == 0)
      then (ok tt, db, s)
      else if is_empty d.marker || is_empty d.commit_sha
      then (err (broken (codes "invalid review delivery snapshot")), db, s)
      else after_listing a result d (list_pull_request_reviews a.listing (reviews s)) (db, s)

  resume_saved :
      Attempt → ReviewResult → Result ReviewDelivery → Database × State → Resumed × Database × State
  unfolding publish_saved_review
  resume_saved a result (err e) (db, s) = (
    handled (
        err (
          wrapped
            (codes
              "saved review has no readable delivery snapshot; manual reconciliation required: ")
            e)),
    db,
    s,
  )
  resume_saved a result (ok d) site =
      let (r, db, s) = publish_saved_review a result d site in (handled r, db, s)

  compare_head : Text → Result ReviewDelivery → Resumed
  compare_head head (err e) = stopped e
  compare_head head (ok d) =
      if text_eq d.commit_sha head
      then fresh head
      else stopped
          (task_superseded (codes "PR head changed since task snapshot; refusing to mix commits"))

  resume_new : Attempt → ℕ → Result Text → Database × State → Resumed × Database × State
  unfolding compare_head
  resume_new a id (err e) (db, s) = (stopped e, db, s)
  resume_new a id (ok head) (db, s) =
      let (r, db') = prepare_review_delivery a.prepare a.token id head db in
      (compare_head head r, db', s)

  resume_with : Attempt → ℕ → Result ReviewResult → Database × State → Resumed × Database × State
  unfolding resume_saved resume_new
  resume_with a id (ok result) (db, s) =
      resume_saved a result (get_review_delivery a.first_snapshot id db) (db, s)
  resume_with a id (err review_result_not_found) site = resume_new a id a.head site
  resume_with a id (err e) (db, s) = (stopped e, db, s)

  unfoldable pub resume_review : Attempt → ℕ → Database × State → Resumed × Database × State
  unfolding resume_with
  resume_review a id (db, s) = resume_with a id (get_review_result_by_task_id a.saved id db) (db, s)

  publish_created :
      Attempt
      → ReviewDelivery
      → Result ReviewResult × Database
      → State
      → Result (Unit {0}) × Database × State
  unfolding publish_saved_review
  publish_created a d (err e, db) s =
      (err (wrapped (codes "persist review before publishing: ") e), db, s)
  publish_created a d (ok result, db) s = publish_saved_review a result d (db, s)

  finish_at :
      Attempt
      → NewReviewResult
      → ReviewDelivery
      → Result Text
      → Database × State
      → Result (Unit {0}) × Database × State
  unfolding publish_created
  finish_at a input d (err e) (db, s) = (err e, db, s)
  finish_at a input d (ok head) (db, s) =
      if text_eq head d.commit_sha
      then publish_created a d (create_review_result a.save input db) s
      else (
        err (task_superseded (codes "PR head changed during review; result not published")),
        db,
        s,
      )

  finish_with :
      Attempt
      → NewReviewResult
      → Result ReviewDelivery
      → Database × State
      → Result (Unit {0}) × Database × State
  unfolding finish_at
  finish_with a input (err e) (db, s) = (err e, db, s)
  finish_with a input (ok d) site = finish_at a input d a.new_head site

  unfoldable pub finish_review :
      Attempt → NewReviewResult → Database × State → Result (Unit {0}) × Database × State
  unfolding finish_with
  finish_review a input (db, s) =
      finish_with a input (get_review_delivery a.snapshot input.task_id db) (db, s)

  review_resumed :
      Attempt
      → ℕ
      → (Text → Result NewReviewResult)
      → Resumed × Database × State
      → Result (Unit {0}) × Database × State
  unfolding finish_review
  review_resumed a id analysis (stopped e, db, s) = (err e, db, s)
  review_resumed a id analysis (handled r, db, s) = (r, db, s)
  review_resumed a id analysis (fresh head, db, s) = elim (analysis head) [
    | err e ↦ (err e, db, s)
    | ok input ↦ finish_review a (record input { task_id = id }) (db, s)
  ]

  -- ReviewPR: `analysis` is what it does between resumeReview and finishReview, with what it reads
  -- from GitHub and from the language model.
  unfoldable pub review_pr :
      Attempt
      → ℕ
      → (Text → Result NewReviewResult)
      → Database × State
      → Result (Unit {0}) × Database × State
  unfolding resume_review review_resumed
  review_pr a id analysis site = review_resumed a id analysis (resume_review a id site)

-- ===== src/Tests/Review.antt =====
-- internal/review and internal/github on concrete reviews.
use github_pr_review_agent.Common.{
  ℕ, suc, ◌≡◌, ◌≢◌, refl, none, List, [], ◌∷◌, ◌++◌, length, codes, arith, text_eq,
}
use github_pr_review_agent.Store.Tables.{
  NewReviewResult, ReviewResult, ReviewDelivery, Database, find_delivery, find_task,
}
use github_pr_review_agent.Store.Transaction.{Error, broken, ok, err}
use github_pr_review_agent.Store.Reviews.{mark_review_delivered}
use github_pr_review_agent.Store.Histories.{perform, requeues}
use github_pr_review_agent.Store.Histories.Snapshots.{perform-IsSnapshot}
use github_pr_review_agent.Store.Reviews.Snapshots.{IsSnapshot}
use github_pr_review_agent.Github.Reviews.{
  PullRequestReview, Host, answer_lost, answered, create_pull_request_review_at_commit,
  list_pull_request_reviews,
}
use github_pr_review_agent.Github.Reviews.Listing.{list_pull_request_reviews_complete}
use github_pr_review_agent.Review.Delivery.{
  Attempt, is_ours, find_ours, publish_saved_review, finish_review,
}
use github_pr_review_agent.Review.Delivery.Once.{
  count, Delivered, publish_saved_review-Delivered, published_once,
}
use github_pr_review_agent.Review.Delivery.Single.{Single}
use github_pr_review_agent.Review.Delivery.Retries.{tries, play, play-Single}
use github_pr_review_agent.Review.Delivery.Heads.{finish_review-stale}
use github_pr_review_agent.Tests.Samples.{good, running_database}

suc_nonzero : (n : ℕ) → suc n ≢ 0
suc_nonzero n e = omega arith

abbrev github : Host
github = record {
  State = List PullRequestReview;
  reviews = λ s. s;
  post = λ s commit body.
      s
      ++ record { id = suc (length s); body = body; commit_id = commit; state = codes "COMMENTED" }
        ∷ [];
  new_id = λ s commit body. suc (length s);
  new_id_nonzero = λ s commit body. suc_nonzero (length s);
  reviews-post = λ s commit body. refl;
}

abbrev approval : PullRequestReview
approval = record { id = 5; body = codes "fine"; commit_id = codes "abc"; state = codes "APPROVED" }

abbrev delivery : ReviewDelivery
delivery = record {
  task_id = 1;
  commit_sha = codes "abc";
  marker = codes "f00d";
  github_review_id = 0;
}

abbrev prepared : Database
prepared = record running_database { deliveries = delivery ∷ [] }

-- The answer to the POST is lost.
abbrev unlucky : Attempt
unlucky = record {
  saved = good;
  first_snapshot = good;
  head = ok (codes "abc");
  prepare = good;
  token = codes "beef";
  snapshot = good;
  new_head = ok (codes "abc");
  save = good;
  listing = none;
  posting = answer_lost (broken (codes "EOF"));
  mark = good;
}

abbrev lucky : Attempt
lucky = record unlucky { posting = answered }

abbrev outcome : NewReviewResult
outcome = record {
  task_id = 1;
  summary = codes "ok";
  findings = [];
  raw_response = [];
  model = codes "m";
  input_tokens = 1;
  output_tokens = 1;
  total_tokens = 2;
  llm_duration_ms = 3;
}

abbrev saved_result : ReviewResult
saved_result = record { id = 9; content = outcome; created_at = 100 }

list_pull_request_reviews_complete_example : approval ∷ [] ≡ approval ∷ []
unfolding list_pull_request_reviews
list_pull_request_reviews_complete_example =
    list_pull_request_reviews_complete none (approval ∷ []) (approval ∷ []) refl

perform-IsSnapshot_example :
    IsSnapshot 1 (codes "abc") (codes "f00d") (perform (good, requeues 1) prepared)
unfolding find_delivery
perform-IsSnapshot_example =
    perform-IsSnapshot (good, requeues 1) prepared 1 (codes "abc") (codes "f00d")
      (record { delivery = delivery; found = refl; same_commit = refl; same_marker = refl })

publish_saved_review-Delivered_example :
    let after =
      publish_saved_review github unlucky saved_result delivery (prepared, approval ∷ []) in
    Delivered github unlucky saved_result delivery (approval ∷ []) after.0 after.2
publish_saved_review-Delivered_example =
    publish_saved_review-Delivered github unlucky saved_result delivery prepared (approval ∷ [])
      refl

published_once_example :
    count github lucky saved_result delivery
      (publish_saved_review github lucky saved_result delivery (prepared, approval ∷ [])).2
    ≡ 1
unfolding publish_saved_review is_ours list_pull_request_reviews find_ours text_eq
    create_pull_request_review_at_commit mark_review_delivered find_task find_delivery
published_once_example =
    published_once github lucky saved_result delivery prepared (approval ∷ []) refl (ground arith)
      refl

play-Single_example : Single github 1 (codes "abc") (codes "f00d") (
    play github 1
      (tries unlucky (λ head. ok outcome) ∷ tries lucky (λ head. ok outcome) ∷ [])
      (prepared, approval ∷ []))
unfolding is_ours find_delivery
play-Single_example =
    play-Single github 1 (codes "abc") (codes "f00d")
      (tries unlucky (λ head. ok outcome) ∷ tries lucky (λ head. ok outcome) ∷ []) prepared
      (approval ∷ [])
      (record { delivery = delivery; found = refl; same_commit = refl; same_marker = refl })
      (ground arith)

finish_review-stale_example :
    (e : Error) × (finish_review github
        (record lucky { new_head = ok (codes "def") })
        outcome
        (prepared, [])
      ≡ (err e, prepared, []))
unfolding find_delivery
finish_review-stale_example =
    finish_review-stale github (record lucky { new_head = ok (codes "def") }) outcome prepared []
      (λ d found moved. ground arith)

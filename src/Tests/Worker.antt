-- ===== src/Tests/Worker.antt =====
-- internal/worker on concrete messages.
use github_pr_review_agent.Common.{◌+◌, ◌≤◌, ◌≡◌, refl, ◌⊎◌, [], codes, arith, max}
use github_pr_review_agent.Store.Tables.{running, find_task}
use github_pr_review_agent.Store.Transaction.{broken}
use github_pr_review_agent.Store.Rows.{Task, scan_task}
use github_pr_review_agent.Store.Transitions.{claim_task, claimable}
use github_pr_review_agent.Worker.Delay.{retry_delay, plain_delay, retry_delay_bounds}
use github_pr_review_agent.Worker.Failure.{reviewed, review_failed, Reviewer, fail}
use github_pr_review_agent.Worker.Process.{process}
use github_pr_review_agent.Worker.Process.Handled.{IsHandled}
use github_pr_review_agent.Worker.Process.Independence.{review_needs_claim}
use github_pr_review_agent.Worker.Process.Attempts.{Failure, fail-Failure}
use github_pr_review_agent.Worker.Recovery.{recover_running}
use github_pr_review_agent.Worker.Recovery.Scans.{recover_running_accounted}
use github_pr_review_agent.Tests.Samples.{
  queued_row, first_message, three_workers, calm, waiting_world, running_world,
}

abbrev succeeds : Reviewer
succeeds owner repo number id db = (reviewed, db)

abbrev fails : Reviewer
fails owner repo number id db = (review_failed (broken (codes "timeout")), db)

retry_delay_bounds_example :
    (plain_delay three_workers 4 ≤ retry_delay three_workers 77 4)
    × (retry_delay three_workers 77 4 ≤ three_workers.retry_max_delay)
    × (retry_delay three_workers 77 4 ≤ plain_delay three_workers 4 + three_workers.retry_jitter)
retry_delay_bounds_example = retry_delay_bounds three_workers 77 4 (omega arith) (omega arith)

review_needs_claim_example :
    process three_workers calm succeeds first_message running_world
    ≡ process three_workers calm fails first_message running_world
unfolding claim_task find_task claimable
review_needs_claim_example =
    review_needs_claim three_workers calm succeeds fails first_message running_world (ground arith)

fail-Failure_example :
    Failure three_workers
      (scan_task queued_row)
      (max 0 1 + 1)
      []
      (fail three_workers calm
        (scan_task queued_row)
        first_message
        (codes "timeout")
        waiting_world).1.sent
unfolding scan_task
fail-Failure_example =
    fail-Failure three_workers calm (scan_task queued_row) first_message (codes "timeout")
      waiting_world (omega arith) (omega arith)

abbrev crashed : Task
crashed = scan_task (record queued_row { status = running; attempt_count = 2 })

recover_running_accounted_example :
    (recover_running three_workers calm crashed running_world ≡ running_world)
    ⊎ IsHandled 1 [] (recover_running three_workers calm crashed running_world)
unfolding scan_task find_task
recover_running_accounted_example =
    recover_running_accounted three_workers calm crashed running_world
      (record queued_row { status = running; attempt_count = 2 }) (ground arith) refl refl

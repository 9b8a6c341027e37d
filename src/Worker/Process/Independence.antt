-- ===== src/Worker/Process/Independence.antt =====
-- internal/worker/worker.go: process and the review, by the answer of ClaimTask.
use github_pr_review_agent.Common.{
  ℕ, ◌≡◌, ◌≢◌, refl, Bool, true, false, Option, none, some, Text, Bool-cases, inl, inr,
}
use github_pr_review_agent.Store.Transaction.{Result, ok, err}
use github_pr_review_agent.Store.Rows.{Task, get_task}
use github_pr_review_agent.Store.Transitions.{claim_task}
use github_pr_review_agent.Queue.{Message}
use github_pr_review_agent.Worker.Options.{Worker}
use github_pr_review_agent.Worker.Names.{split_repo}
use github_pr_review_agent.Worker.Failure.{
  World, LockAnswer, lock_failed, lock_busy, lock_held, Reviewer, Surroundings,
}
use github_pr_review_agent.Worker.Process.{
  with_claim, with_lock, with_repo, start, with_task, with_panic, process, is_finished, wait_left,
  already_runs,
}

module _ (w : Worker) (s : Surroundings) (r r' : Reviewer) (msg : Message) (world : World) where
  abbrev Refused : Type 0
  Refused = (claim_task s.claim msg.task_id msg.attempt s.now world.db).0 ≢ ok true

  with_claim-same :
      (task : Task) (parts : Text × Text) (claimed : Result Bool) (world' : World)
      → claimed ≢ ok true
      → with_claim w s r task msg parts claimed world'
        ≡ with_claim w s r' task msg parts claimed world'
  unfolding with_claim
  with_claim-same task parts (err e) world' no_claim = refl
  with_claim-same task parts (ok false) world' no_claim = refl
  with_claim-same task parts (ok true) world' no_claim = absurd (no_claim refl)

  with_lock-same :
      (task : Task) (parts : Text × Text) (lock : LockAnswer)
      → Refused
      → with_lock w s r task msg parts lock world ≡ with_lock w s r' task msg parts lock world
  unfolding with_lock
  with_lock-same task parts lock_failed h = refl
  with_lock-same task parts lock_busy h = refl
  with_lock-same task parts lock_held h =
      with_claim-same task parts (claim_task s.claim msg.task_id msg.attempt s.now world.db).0 _ h

  with_repo-same :
      (task : Task) (parts : Option (Text × Text))
      → Refused
      → with_repo w s r task msg parts world ≡ with_repo w s r' task msg parts world
  unfolding with_repo
  with_repo-same task none h = refl
  with_repo-same task (some parts) h = with_lock-same task parts s.lock h

  start-same :
      (task : Task) (wait : Option ℕ)
      → Refused
      → start w s r task msg wait world ≡ start w s r' task msg wait world
  unfolding start
  start-same task (some delay) h = refl
  start-same task none h = elim (Bool-cases (already_runs task msg)) [
    | inl runs ↦ rw runs refl
    | inr free ↦ rw free (with_repo-same task (split_repo task.repo) h)
  ]

  with_task-same :
      (got : Result Task) → Refused → with_task w s r msg got world ≡ with_task w s r' msg got world
  unfolding with_task
  with_task-same (err e) h = refl
  with_task-same (ok task) h = elim (Bool-cases (is_finished task.status)) [
    | inl over ↦ rw over refl
    | inr open_task ↦
        rw open_task (start-same task (wait_left task.status task.next_retry_at s.now) h)
  ]

  with_panic-same :
      (panic : Option Text)
      → Refused
      → with_panic w s r msg panic world ≡ with_panic w s r' msg panic world
  unfolding with_panic
  with_panic-same (some text) h = refl
  with_panic-same none h = with_task-same (get_task s.get msg.task_id world.db) h

  -- If the store does not grant the message's claim, then the worker answers, publishes and stores
  -- the same whatever ReviewPR would have done: no review runs without its claim.
  pub review_needs_claim :
      (claim_task s.claim msg.task_id msg.attempt s.now world.db).0 ≢ ok true
      → process w s r msg world ≡ process w s r' msg world
  unfolding process
  review_needs_claim h = with_panic-same s.get_panic h

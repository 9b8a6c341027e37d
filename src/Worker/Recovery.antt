-- ===== src/Worker/Recovery.antt =====
-- internal/worker/worker.go: recoverStaleRunningOnce and recoverStaleQueuedOnce, the two scans that
-- the ticker of recoverStaleTasks starts.
pub mod Scans
use github_pr_review_agent.Common.{
  ℕ, suc, ◌+◌, ◌-◌, Bool, Option, List, [], ◌∷◌, Text, codes, ltb, if◌then◌else◌,
}
use github_pr_review_agent.Store.Transaction.{Conn, Result, ok, err}
use github_pr_review_agent.Store.Rows.{Task}
use github_pr_review_agent.Store.Transitions.{mark_task_retry, touch_queued_task}
use github_pr_review_agent.Store.Queries.{list_recoverable_tasks, list_stale_queued_tasks}
use github_pr_review_agent.Queue.{
  Message, Published, to_main, to_retry, Sent, is_confirmed, publish,
}
use github_pr_review_agent.Worker.Options.{Worker, minute, review_timeout}
use github_pr_review_agent.Worker.Delay.{retry_delay}
use github_pr_review_agent.Worker.Failure.{World, Surroundings, next_attempt, dead_letter_task}

abbrev pub running_task_stale_after : ℕ
running_task_stale_after = review_timeout + minute

abbrev pub queued_task_stale_after : ℕ
queued_task_stale_after = minute

unfoldable pub recover_retry : Worker → Surroundings → Task → Message → Text → World → World
unfolding next_attempt
recover_retry w s task msg text world =
    let attempt = next_attempt task msg in
    let delay = retry_delay w s.dice attempt in
    let world₁ = record world {
      sent = publish s.broker (to_retry task.id attempt delay) world.sent;
    } in
    if is_confirmed s.broker
    then record world₁ {
      db =
          (mark_task_retry s.mark task.id attempt w.max_attempts text (s.later + delay) world.db).1;
    }
    else world₁

unfoldable pub recover_running : Worker → Surroundings → Task → World → World
unfolding next_attempt recover_retry dead_letter_task
recover_running w s task world =
    let text = codes "review worker stopped before completion" in
    let msg : Message = record { task_id = task.id; attempt = task.attempt_count } in
    if ltb (next_attempt task msg) w.max_attempts
    then recover_retry w s task msg text world
    else (dead_letter_task w s task msg text world).1

-- The body of the second loop: the message first, then the time stamp, which keeps the next scan
-- from sending another one.
unfoldable pub recover_queued : Surroundings → Task → World → World
recover_queued s task world =
    let world₁ = record world { sent = publish s.broker (to_main task.id) world.sent } in
    if is_confirmed s.broker
    then record world₁ { db = (touch_queued_task s.mark task.id s.later world.db).1 }
    else world₁

-- A loop over the tasks; the k-th meets `rounds k`.
unfoldable pub each :
    (Surroundings → Task → World → World) → (ℕ → Surroundings) → ℕ → List Task → World → World
each step rounds k [] world = world
each step rounds k (task ∷ tasks) world =
    each step rounds (suc k) tasks (step (rounds k) task world)

abbrev pub listed : Result (List Task) → List Task
listed (err e) = []
listed (ok tasks) = tasks

unfoldable pub recover_stale_running_once : Worker → Conn → ℕ → (ℕ → Surroundings) → World → World
unfolding each recover_running
recover_stale_running_once w c now rounds world =
    each (recover_running w) rounds 0
      (listed (list_recoverable_tasks c (now - running_task_stale_after) 100 world.db)) world

unfoldable pub recover_stale_queued_once : Conn → ℕ → (ℕ → Surroundings) → World → World
unfolding each recover_queued
recover_stale_queued_once c now rounds world =
    each recover_queued rounds 0
      (listed (list_stale_queued_tasks c (now - queued_task_stale_after) 100 world.db)) world

-- ===== src/Worker/Process.antt =====
-- internal/worker/worker.go: process, from the message to its acknowledgement.
pub mod Independence
pub mod Handled
pub mod Accounting
pub mod Attempts
use github_pr_review_agent.Common.{
  ℕ, suc, ◌+◌, ◌-◌, ◌≡◌, refl, Bool, true, false, ◌&&◌, Option, none, some, List, [], ◌∷◌, ◌++◌,
  Text, codes, ltb, leb, max, if◌then◌else◌,
}
use github_pr_review_agent.Store.Tables.{
  Status, received, queued, running, retrying, done, failed, dead_letter, superseded, Database,
}
use github_pr_review_agent.Store.Transaction.{
  Conn, Error, task_not_found, task_superseded, message, Result, ok, err,
}
use github_pr_review_agent.Store.Rows.{Task, get_task}
use github_pr_review_agent.Store.Transitions.{
  update_task_status, claim_task, mark_task_retry, mark_task_dead_letter,
}
use github_pr_review_agent.Queue.{
  Message, Action, ack, nack_discard, nack_requeue, Published, to_retry, to_dead_letter, Sent,
  is_confirmed, publish,
}
use github_pr_review_agent.Worker.Options.{Worker}
use github_pr_review_agent.Worker.Delay.{retry_delay}
use github_pr_review_agent.Worker.Names.{split_repo}
use github_pr_review_agent.Worker.Failure.{
  World, LockAnswer, lock_failed, lock_busy, lock_held, ReviewEnd, reviewed, review_failed,
  review_panicked, Reviewer, Surroundings, set_status, dead_letter_task, fail,
  defer_task_for_active_pr, defer_task_until_retry, recover_panic,
}

supersede : Worker → Surroundings → Task → Message → Result (Unit {0}) × World → Action × World
supersede w s task msg (ok _, world) = (ack, world)
supersede w s task msg (err e, world) =
    fail w s task msg (codes "persist superseded task: " ++ message e) world

review_error : Worker → Surroundings → Task → Message → Error → World → Action × World
unfolding supersede
review_error w s task msg (task_superseded detail) world =
    supersede w s task msg
      (set_status s.status msg.task_id superseded (message (task_superseded detail)) world)
review_error w s task msg e world = fail w s task msg (message e) world

pub after_review : Worker → Surroundings → Task → Message → ReviewEnd → World → Action × World
unfolding review_error recover_panic
after_review w s task msg reviewed world = (ack, (set_status s.status msg.task_id done [] world).1)
after_review w s task msg (review_failed e) world = review_error w s task msg e world
after_review w s task msg (review_panicked text) world =
    recover_panic w s (some task) msg text world

run_review :
    Worker → Surroundings → Reviewer → Task → Message → Text × Text → World → Action × World
unfolding after_review
run_review w s reviewer task msg (owner, repo) world =
    let (end, db) = reviewer owner repo task.pr_number msg.task_id world.db in
    after_review w s task msg end (record world { db = db })

with_claim :
    Worker
    → Surroundings
    → Reviewer
    → Task
    → Message
    → Text × Text
    → Result Bool
    → World
    → Action × World
unfolding run_review
with_claim w s reviewer task msg parts (err e) world = (nack_requeue, world)
with_claim w s reviewer task msg parts (ok false) world = (ack, world)
with_claim w s reviewer task msg parts (ok true) world =
    run_review w s reviewer task msg parts world

-- What follows the answer of the lock; its release changes nothing here.
with_lock :
    Worker
    → Surroundings
    → Reviewer
    → Task
    → Message
    → Text × Text
    → LockAnswer
    → World
    → Action × World
unfolding with_claim
with_lock w s reviewer task msg parts lock_failed world = (nack_requeue, world)
with_lock w s reviewer task msg parts lock_busy world = defer_task_for_active_pr w s task msg world
with_lock w s reviewer task msg parts lock_held world =
    let (claimed, db) = claim_task s.claim msg.task_id msg.attempt s.now world.db in
    with_claim w s reviewer task msg parts claimed (record world { db = db })

with_repo :
    Worker
    → Surroundings
    → Reviewer
    → Task
    → Message
    → Option (Text × Text)
    → World
    → Action × World
unfolding with_lock
with_repo w s reviewer task msg none world =
    dead_letter_task w s task msg (codes "invalid repository name") world
with_repo w s reviewer task msg (some parts) world =
    with_lock w s reviewer task msg parts s.lock world

abbrev pub is_finished : Status → Bool
is_finished done = true
is_finished dead_letter = true
is_finished failed = true
is_finished superseded = true
is_finished _ = false

-- The time for which a retrying task still has to wait.
unfoldable pub wait_left : Status → Option ℕ → ℕ → Option ℕ
wait_left retrying (some at) now = if ltb now at then some (at - now) else none
wait_left _ _ now = none

abbrev pub already_runs : Task → Message → Bool
already_runs task msg = is_running task.status && leb msg.attempt task.attempt_count
  where
    is_running : Status → Bool
    is_running running = true
    is_running _ = false

start : Worker → Surroundings → Reviewer → Task → Message → Option ℕ → World → Action × World
unfolding with_repo
start w s reviewer task msg (some delay) world = defer_task_until_retry s task msg delay world
start w s reviewer task msg none world =
    if already_runs task msg
    then (ack, world)
    else with_repo w s reviewer task msg (split_repo task.repo) world

-- A store error other than ErrTaskNotFound puts the message back.
get_failed : Error → Action
get_failed task_not_found = nack_discard
get_failed _ = nack_requeue

with_task : Worker → Surroundings → Reviewer → Message → Result Task → World → Action × World
unfolding start get_failed wait_left
with_task w s reviewer msg (err e) world = (get_failed e, world)
with_task w s reviewer msg (ok task) world =
    if is_finished task.status
    then (ack, world)
    else start w s reviewer task msg (wait_left task.status task.next_retry_at s.now) world

with_panic : Worker → Surroundings → Reviewer → Message → Option Text → World → Action × World
unfolding with_task recover_panic
with_panic w s reviewer msg (some text) world = recover_panic w s none msg text world
with_panic w s reviewer msg none world =
    with_task w s reviewer msg (get_task s.get msg.task_id world.db) world

unfoldable pub process : Worker → Surroundings → Reviewer → Message → World → Action × World
unfolding with_panic
process w s reviewer msg world = with_panic w s reviewer msg s.get_panic world

-- ===== src/Worker/Failure.antt =====
-- internal/worker/worker.go: fail, retry, deadLetter, the two ways to defer a message, and what a
-- call of the worker meets.
use github_pr_review_agent.Common.{
  ℕ, ◌+◌, Option, none, some, List, ◌++◌, Text, codes, ltb, max, if◌then◌else◌,
}
use github_pr_review_agent.Store.Tables.{Status, failed, Database}
use github_pr_review_agent.Store.Transaction.{Conn, Error, Result}
use github_pr_review_agent.Store.Rows.{Task}
use github_pr_review_agent.Store.Transitions.{
  update_task_status, mark_task_retry, mark_task_dead_letter,
}
use github_pr_review_agent.Queue.{
  Message, Action, ack, nack_requeue, Published, to_retry, to_dead_letter, Sent, is_confirmed,
  publish,
}
use github_pr_review_agent.Worker.Options.{Worker}
use github_pr_review_agent.Worker.Delay.{retry_delay}

-- What the worker changes: the store, and the messages that it has published.
pub record World : Type 0 where
  pub db : Database
  pub sent : List Published

pub data LockAnswer : Type 0 where
  lock_failed lock_busy lock_held : LockAnswer

-- How ReviewPR ends.
pub data ReviewEnd : Type 0 where
  reviewed : ReviewEnd
  review_failed : Error → ReviewEnd
  review_panicked : Text → ReviewEnd

-- ReviewPR on the tables: owner, repository, number, task id.
abbrev pub Reviewer : Type 0
Reviewer = Text → Text → ℕ → ℕ → Database → ReviewEnd × Database

-- What one call of `process` meets, in the order of its calls: the two readings of the clock, the
-- fault of each store call, the answers of lock and broker, and the random number of the jitter.
-- `get_panic` is the text of a panic before the task is known.
pub record Surroundings : Type 0 where
  pub get_panic : Option Text
  pub get : Conn
  pub now : ℕ
  pub lock : LockAnswer
  pub claim : Conn
  pub status : Conn
  pub later : ℕ
  pub dice : ℕ
  pub broker : Sent
  pub mark : Conn
  pub last_status : Conn

unfoldable pub next_attempt : Task → Message → ℕ
next_attempt task msg = max task.attempt_count msg.attempt + 1

-- w.updateStatus: its error, if any, and the tables.
abbrev pub set_status : Conn → ℕ → Status → Text → World → Result (Unit {0}) × World
set_status c id status text world =
    let (r, db) = update_task_status c id status text world.db in (r, record world { db = db })

unfoldable pub retry : Worker → Surroundings → Task → Message → ℕ → Text → World → Action × World
retry w s task msg attempt text world =
    let delay = retry_delay w s.dice attempt in
    let world₁ = record world {
      sent = publish s.broker (to_retry task.id attempt delay) world.sent;
    } in
    (
      ack,
      if is_confirmed s.broker
          then record world₁ {
            db =
                (mark_task_retry s.mark task.id attempt w.max_attempts text (s.later + delay)
                  world.db).1;
          }
          else (set_status s.last_status task.id failed text world₁).1,
    )

unfoldable pub dead_letter_task :
    Worker → Surroundings → Task → Message → Text → World → Action × World
unfolding next_attempt
dead_letter_task w s task msg text world =
    let attempt = next_attempt task msg in
    let world₁ = record world {
      sent = publish s.broker (to_dead_letter task.id attempt) world.sent;
    } in
    (
      ack,
      if is_confirmed s.broker
          then record world₁ {
            db = (mark_task_dead_letter s.mark task.id attempt w.max_attempts text world.db).1;
          }
          else (set_status s.last_status task.id failed text world₁).1,
    )

unfoldable pub fail : Worker → Surroundings → Task → Message → Text → World → Action × World
unfolding next_attempt retry dead_letter_task
fail w s task msg text world =
    if ltb (next_attempt task msg) w.max_attempts
    then retry w s task msg (next_attempt task msg) text world
    else dead_letter_task w s task msg text world

-- PublishRetry of the same attempt: the message goes round once more.
unfoldable pub defer : Surroundings → Task → Message → ℕ → World → Action × World
defer s task msg delay world =
    let world₁ = record world {
      sent = publish s.broker (to_retry task.id msg.attempt delay) world.sent;
    } in
    if is_confirmed s.broker then (ack, world₁) else (nack_requeue, world₁)

abbrev pub millisecond : ℕ
millisecond = 1_000_000

unfoldable pub defer_task_for_active_pr :
    Worker → Surroundings → Task → Message → World → Action × World
unfolding defer
defer_task_for_active_pr w s task msg world = defer s task msg w.lock_retry_delay world

unfoldable pub defer_task_until_retry : Surroundings → Task → Message → ℕ → World → Action × World
unfolding defer
defer_task_until_retry s task msg delay world =
    defer s task msg (if ltb delay millisecond then millisecond else delay) world

-- The deferred recover().
unfoldable pub recover_panic :
    Worker → Surroundings → Option Task → Message → Text → World → Action × World
recover_panic w s none msg text world = (
  ack,
  (set_status s.last_status msg.task_id failed (codes "review worker panicked: " ++ text) world).1,
)
recover_panic w s (some task) msg text world =
    fail w s task msg (codes "review worker panicked: " ++ text) world

-- ===== src/Worker/Process/Attempts.antt =====
-- internal/worker/worker.go: fail and the number of attempts.
use github_pr_review_agent.Common.{
  ℕ, ◌+◌, ◌≤◌, ◌<◌, ◌^◌, ◌≡◌, refl, Text, arith, Bool-cases, inl, inr, ◌⊎◌, List, ◌∷◌, max, ltb,
  ltb→lt,
}
use github_pr_review_agent.Store.Rows.{Task}
use github_pr_review_agent.Queue.{Message, Published, to_retry, to_dead_letter, Sent, publish}
use github_pr_review_agent.Worker.Options.{Worker}
use github_pr_review_agent.Worker.Delay.{retry_delay, retry_delay_bounds}
use github_pr_review_agent.Worker.Failure.{
  World, Surroundings, retry, dead_letter_task, fail, next_attempt,
}

-- What a failure may publish about a task, by the number of the attempt that has failed.
pub data Failure (w : Worker) (task : Task) (attempt : ℕ) (sent sent' : List Published)
    : Type 0 where
  silent : sent' ≡ sent → Failure w task attempt sent sent'
  again :
      (delay : ℕ)
      → attempt < w.max_attempts
      → delay ≤ w.retry_max_delay
      → sent' ≡ to_retry task.id attempt delay ∷ sent
      → Failure w task attempt sent sent'
  buried :
      w.max_attempts ≤ attempt
      → sent' ≡ to_dead_letter task.id attempt ∷ sent
      → Failure w task attempt sent sent'

pub publish-cases :
    (b : Sent) (m : Published) (sent : List Published)
    → (publish b m sent ≡ sent) ⊎ (publish b m sent ≡ m ∷ sent)
publish-cases Sent.confirmed m sent = inr refl
publish-cases Sent.lost m sent = inl refl
publish-cases Sent.unconfirmed m sent = inr refl

retry-sent :
    (w : Worker) (s : Surroundings) (task : Task) (msg : Message) (attempt : ℕ) (text : Text)
    (world : World)
    → (retry w s task msg attempt text world).1.sent
      ≡ publish s.broker (to_retry task.id attempt (retry_delay w s.dice attempt)) world.sent
unfolding retry
retry-sent w s task msg attempt text world = ground arith

pub dead_letter_task-sent :
    (w : Worker) (s : Surroundings) (task : Task) (msg : Message) (text : Text) (world : World)
    → (dead_letter_task w s task msg text world).1.sent
      ≡ publish s.broker (to_dead_letter task.id (next_attempt task msg)) world.sent
unfolding dead_letter_task
dead_letter_task-sent w s task msg text world = ground arith

-- A failing task gets the number after both its own count and the message's; below the limit it may
-- go to the retry queue under that number, after at most the largest delay, and from the limit on
-- only to the dead letters. Nothing else is published. (Delays are below 2 ^ 62 nanoseconds.)
pub fail-Failure :
    (w : Worker) (s : Surroundings) (task : Task) (msg : Message) (text : Text) (world : World)
    → w.retry_base_delay < 2 ^ 62
    → w.retry_max_delay < 2 ^ 62
    → Failure w task
        (max task.attempt_count msg.attempt + 1)
        world.sent
        (fail w s task msg text world).1.sent
unfolding fail
fail-Failure w s task msg text world base most =
    elim (Bool-cases (ltb (next_attempt task msg) w.max_attempts)) [
      | inl more ↦
          rw (more, retry-sent w s task msg (next_attempt task msg) text world)
            (elim (publish-cases s.broker
              (to_retry task.id (next_attempt task msg)
                (retry_delay w s.dice (next_attempt task msg)))
              world.sent) [
                | inl e ↦ silent e
                | inr e ↦
                    again (retry_delay w s.dice (next_attempt task msg)) (ltb→lt _ _ more)
                      (retry_delay_bounds w s.dice (next_attempt task msg) base most).1 e
              ])
      | inr over ↦
          rw (over, dead_letter_task-sent w s task msg text world)
            (elim (publish-cases s.broker (to_dead_letter task.id (next_attempt task msg))
              world.sent) [ inl e ↦ silent e | inr e ↦ buried (ground arith) e ])
    ]

-- ===== src/Tests/Samples.antt =====
-- Sample data for the concrete runs: internal/store and internal/worker.
use github_pr_review_agent.Common.{◌*◌, none, [], ◌∷◌, codes}
use github_pr_review_agent.Store.Tables.{
  queued, running, TaskRow, NewTask, Database, empty_database,
}
use github_pr_review_agent.Store.Transaction.{Fault, sound, Conn}
use github_pr_review_agent.Queue.{Message, confirmed}
use github_pr_review_agent.Worker.Options.{Worker, minute, second}
use github_pr_review_agent.Worker.Failure.{World, lock_held, Surroundings}

abbrev pub good : Conn
good = record { fault = sound; clock = 100; gap = 0 }

abbrev pub broken_commit : Conn
broken_commit = record good { fault = Fault.unconfirmed (codes "bad connection") }

abbrev pub opened : NewTask
opened = record {
  repo = codes "octo/cat";
  pr_number = 7;
  commit_sha = codes "abc";
  action = codes "opened";
  delivery_id = codes "d-1";
}

-- The row of the task, waiting in the queue.
abbrev pub queued_row : TaskRow
queued_row = record {
  id = 1;
  repo = codes "octo/cat";
  pr_number = 7;
  commit_sha = codes "abc";
  action = codes "opened";
  delivery_id = codes "d-1";
  status = queued;
  error = none;
  attempt_count = 0;
  max_attempts = 3;
  next_retry_at = none;
  created_at = 100;
  updated_at = 100;
}

abbrev pub queued_database : Database
queued_database = record empty_database { tasks = queued_row ∷ []; next_task_id = 2 }

abbrev pub running_database : Database
running_database = record queued_database {
  tasks = record queued_row { status = running; attempt_count = 2 } ∷ [];
}

abbrev pub first_message : Message
first_message = record { task_id = 1; attempt = 1 }

abbrev pub three_workers : Worker
three_workers = record {
  workers = 3;
  max_attempts = 3;
  retry_base_delay = 30 * second;
  retry_max_delay = 10 * minute;
  retry_jitter = 5 * second;
  lock_ttl = 7 * minute;
  lock_retry_delay = 2 * second;
}

abbrev pub calm : Surroundings
calm = record {
  get_panic = none;
  get = good;
  now = 1_000;
  lock = lock_held;
  claim = good;
  status = good;
  later = 2_000;
  dice = 12_345;
  broker = confirmed;
  mark = good;
  last_status = good;
}

abbrev pub waiting_world : World
waiting_world = record { db = queued_database; sent = [] }

abbrev pub running_world : World
running_world = record { db = running_database; sent = [] }

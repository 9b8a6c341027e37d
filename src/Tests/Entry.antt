-- ===== src/Tests/Entry.antt =====
-- internal/webhook, internal/lock and internal/taskapi on concrete requests.
use github_pr_review_agent.Common.{
  ◌≡◌, ◌≢◌, ◌⊎◌, refl, false, Option, none, some, List, [], ◌∷◌, Text, codes, arith, text_eq,
  text_eq_refl, text_eq→≡, Bool-cases, inl, inr, if◌then◌else◌, sym, ◌∙◌,
}
use github_pr_review_agent.Store.Tables.{empty_database, queued, dead_letter, find_task}
use github_pr_review_agent.Store.Transitions.{requeue_task}
use github_pr_review_agent.Taskapi.Requeue.{requeue, requeue_accepted}
use github_pr_review_agent.Store.Trail.{status_of}
use github_pr_review_agent.Queue.{confirmed, to_main}
use github_pr_review_agent.Worker.Failure.{World}
use github_pr_review_agent.Webhook.{Payload, Request, Checks, Meets, handle}
use github_pr_review_agent.Webhook.Accepted.{Promised, handle-Promised}
use github_pr_review_agent.Webhook.Guards.{handle_unsigned}
use github_pr_review_agent.Lock.{Entry, Redis, sound, Lock, done, acquire, get_key, set_nx}
use github_pr_review_agent.Lock.Held.{acquires, releases, run}
use github_pr_review_agent.Lock.Exclusion.{one_holder}
use github_pr_review_agent.Tests.Samples.{good, queued_row, queued_database}

abbrev pull_request : Payload
pull_request = record {
  action = codes "opened";
  number = 7;
  sha = codes "abc";
  full_name = codes "octo/cat";
}

abbrev checks : Checks
checks = record {
  secret = codes "s3cret";
  mac = λ secret body. body;
  unmarshal = λ body. some pull_request;
}

abbrev request : Request
request = record {
  body = some (codes "body");
  signature = codes "sha256=body";
  event = codes "pull_request";
  delivery = codes "d-1";
}

abbrev meets : Meets
meets = record {
  create = good;
  random = codes "r";
  mark_queued = good;
  broker = confirmed;
  publish_error = codes "closed";
  mark_failed = good;
}

abbrev fresh_world : World
fresh_world = record { db = empty_database; sent = [] }

handle-Promised_example : Promised fresh_world (handle checks meets request fresh_world)
handle-Promised_example = handle-Promised checks meets request fresh_world

abbrev forged_request : Request
forged_request = record request { signature = codes "x" }

handle_unsigned_example :
    ((handle checks meets forged_request fresh_world).1 ≡ fresh_world)
    × (((handle checks meets forged_request fresh_world).0.0 ≡ 400)
        ⊎ (((handle checks meets forged_request fresh_world).0.0 ≡ 401)
            ⊎ ((handle checks meets forged_request fresh_world).0.0 ≡ 413)))
handle_unsigned_example =
    handle_unsigned checks meets forged_request fresh_world (ground arith) (λ bytes e. ground arith)

abbrev Keys : Type 0
Keys = List (Text × Entry)

find_key : Text → Keys → Option Entry
find_key key [] = none
find_key key ((k, e) ∷ es) = let rest = find_key key es in if text_eq k key then some e else rest

abbrev set_key : Text → Entry → Keys → Keys
set_key key e s = (key, e) ∷ s

delete_key : Text → Keys → Keys
delete_key key [] = []
delete_key key ((k, e) ∷ es) =
    let rest = delete_key key es in if text_eq k key then rest else (k, e) ∷ rest

text_eq-false : (a b : Text) → a ≢ b → text_eq a b ≡ false
text_eq-false a b h = elim (Bool-cases (text_eq a b)) [
  | inl same ↦ absurd (h (text_eq→≡ a b same))
  | inr differ ↦ differ
]

find_key-set_key : (key : Text) (e : Entry) (s : Keys) → find_key key (set_key key e s) ≡ some e
unfolding find_key
find_key-set_key key e s = rw (text_eq_refl key) refl

find_key-set_key_other :
    (j key : Text) (e : Entry) (s : Keys) → key ≢ j → find_key j (set_key key e s) ≡ find_key j s
unfolding find_key
find_key-set_key_other j key e s h = rw (text_eq-false key j h) refl

find_key-delete_key : (key : Text) (s : Keys) → find_key key (delete_key key s) ≡ none
unfolding find_key delete_key
find_key-delete_key key [] = refl
find_key-delete_key key ((k, e) ∷ s) = elim (Bool-cases (text_eq k key)) [
  | inl this ↦ rw this (find_key-delete_key key s)
  | inr other ↦ rw (other, other, find_key-delete_key key s) refl
]

find_key-delete_key_other :
    (j key : Text) (s : Keys) → key ≢ j → find_key j (delete_key key s) ≡ find_key j s
unfolding find_key delete_key
find_key-delete_key_other j key [] h = refl
find_key-delete_key_other j key ((k, e) ∷ s) h = elim (Bool-cases (text_eq k key)) [
  | inl this ↦
      rw (this, text_eq-false k j (λ q. h (sym (text_eq→≡ k key this) ∙ q)))
        (find_key-delete_key_other j key s h)
  | inr other ↦ rw (other, find_key-delete_key_other j key s h) refl
]

abbrev list_redis : Redis
list_redis = record {
  Keys = Keys;
  entry = find_key;
  set = set_key;
  del = delete_key;
  entry-set = find_key-set_key;
  entry-set_other = find_key-set_key_other;
  entry-del = find_key-delete_key;
  entry-del_other = find_key-delete_key_other;
}

abbrev first_lock : Lock
first_lock = record { key = codes "lock:k"; token = codes "t1" }

abbrev stranger : Lock
stranger = record { key = codes "lock:k"; token = codes "t2" }

one_holder_example :
    (acquire list_redis sound 30 (codes "t3") (codes "k") 50 (
      run list_redis
        (acquires sound 12 (codes "t2") (codes "k") 50 ∷ releases sound 20 stranger ∷ [])
        (acquire list_redis sound 10 (codes "t1") (codes "k") 50 []).1)).0
    ≢ done (some (record { key = codes "lock:k"; token = codes "t3" }))
unfolding acquire set_nx get_key find_key text_eq
one_holder_example =
    one_holder list_redis sound 10 (codes "t1") (codes "k") 50 [] first_lock
      (acquires sound 12 (codes "t2") (codes "k") 50 ∷ releases sound 20 stranger ∷ []) sound 30
      (codes "t3") 50 (record { key = codes "lock:k"; token = codes "t3" }) refl
      (omega arith, ((omega arith, λ same. ground arith), tt)) (omega arith)

abbrev dead_world : World
dead_world = record {
  db = record queued_database { tasks = record queued_row { status = dead_letter } ∷ [] };
  sent = [];
}

requeue_accepted_example :
    let world' = (requeue (some 1) good confirmed dead_world).1 in
    (status_of 1 dead_world.db.tasks ≡ some dead_letter)
    × (status_of 1 world'.db.tasks ≡ some queued)
    × (world'.sent ≡ to_main 1 ∷ [])
unfolding requeue requeue_task find_task
requeue_accepted_example = requeue_accepted 1 good confirmed dead_world refl

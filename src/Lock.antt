-- ===== src/Lock.antt =====
-- internal/lock/lock.go: the lock of a pull request, a key in Redis with a token and a time to
-- live.
pub mod Held
pub mod Exclusion
use github_pr_review_agent.Common.{
  ℕ, ◌+◌, ◌≡◌, ◌≢◌, ◌==◌, Bool, Option, none, some, List, [], ◌∷◌, ◌++◌, Text, codes, text_eq,
  is_empty, ltb, if◌then◌else◌,
}

-- A key of Redis: its value, and the time from which it is gone.
pub record Entry : Type 0 where
  pub token : Text
  pub until : ℕ

-- What Redis does with its keys. The laws are those of SET with a time to live, and of DEL: each is
-- about its own key.
pub record Redis : Type 1 where
  pub Keys : Type 0
  pub entry : Text → Keys → Option Entry
  pub set : Text → Entry → Keys → Keys
  pub del : Text → Keys → Keys
  pub entry-set : (key : Text) (e : Entry) (s : Keys) → entry key (set key e s) ≡ some e
  pub entry-set_other :
      (j key : Text) (e : Entry) (s : Keys) → key ≢ j → entry j (set key e s) ≡ entry j s
  pub entry-del : (key : Text) (s : Keys) → entry key (del key s) ≡ none
  pub entry-del_other : (j key : Text) (s : Keys) → key ≢ j → entry j (del key s) ≡ entry j s

pub data LockError : Type 0 where
  key_required ttl_not_positive not_held : LockError
  redis_failed : Text → LockError

pub data Outcome {ℓ} (A : Type ℓ) : Type ℓ where
  done : A → Outcome A
  fails : LockError → Outcome A

-- How a command ends: answered, not carried out, or carried out with its answer lost.
pub data Link : Type 0 where
  sound : Link
  down : Text → Link
  answer_lost : Text → Link

-- The value redisLock: the key with its prefix, and the token.
pub record Lock : Type 0 where
  pub key : Text
  pub token : Text

module _ (redis : Redis) where
  open redis use {Keys, entry, set, del}

  -- GET: the token, unless the key has expired.
  unfoldable pub get_key : ℕ → Text → Keys → Option Text
  get_key now key es = elim (entry key es) [
    | none ↦ none
    | some e ↦ if ltb now e.until then some e.token else none
  ]

  -- SET ... NX with a time to live.
  unfoldable pub set_nx : ℕ → Text → Text → ℕ → Keys → Bool × Keys
  set_nx now key token ttl es = elim (get_key now key es) [
    | some held ↦ (Bool.false, es)
    | none ↦ (Bool.true, set key (record { token = token; until = now + ttl }) es)
  ]

  answer : Link → Lock → Bool × Keys → Outcome (Option Lock) × Keys
  answer sound l (Bool.true, es) = (done (some l), es)
  answer sound l (Bool.false, es) = (done none, es)
  answer (down text) l (b, es) = (fails (redis_failed text), es)
  answer (answer_lost text) l (b, es) = (fails (redis_failed text), es)

  send : Link → ℕ → Lock → ℕ → Keys → Outcome (Option Lock) × Keys
  unfolding answer
  send (down text) now l ttl es = (fails (redis_failed text), es)
  send link now l ttl es = answer link l (set_nx now l.key l.token ttl es)

  -- `token` is what randomToken gives; `now` is the clock of Redis.
  unfoldable pub acquire : Link → ℕ → Text → Text → ℕ → Keys → Outcome (Option Lock) × Keys
  unfolding send
  acquire link now token key ttl es =
      if is_empty key
      then (fails key_required, es)
      else if ttl == 0
      then (fails ttl_not_positive, es)
      else send link now (record { key = codes "lock:" ++ key; token = token }) ttl es

  -- The Lua script: 1, or 0 for the token of somebody else.
  unfoldable pub release_script : ℕ → Lock → Keys → ℕ × Keys
  release_script now l es = elim (get_key now l.key es) [
    | none ↦ (1, es)
    | some token ↦ if text_eq token l.token then (1, del l.key es) else (0, es)
  ]

  released : ℕ × Keys → Outcome (Unit {0}) × Keys
  released (result, es) = if result == 1 then (done tt, es) else (fails not_held, es)

  unfoldable pub release : Link → ℕ → Lock → Keys → Outcome (Unit {0}) × Keys
  unfolding released
  release sound now l es = released (release_script now l es)
  release (down text) now l es = (fails (redis_failed text), es)
  release (answer_lost text) now l es = (fails (redis_failed text), (release_script now l es).1)

-- ===== src/Lock/Exclusion.antt =====
-- internal/lock/lock.go: several processes and one key.
use github_pr_review_agent.Common.{
  ℕ, ◌+◌, ◌<◌, ◌≡◌, ◌≢◌, refl, none, some, List, ◌++◌, Text, codes, text_eq_refl, arith, All, sym,
  subst,
}
use github_pr_review_agent.Lock.{
  Redis, get_key, set_nx, done, Link, sound, Lock, acquire, release_script, release,
}
use github_pr_review_agent.Lock.Held.{Event, run, IsHeld, Spares, get_key_held, run-IsHeld}

module _ (redis : Redis) where
  open redis use {Keys, entry, set, del, entry-set, entry-del}

  -- A grant says that the key was free and has the token now.
  granted :
      (link : Link) (now : ℕ) (token key : Text) (ttl : ℕ) (es : Keys) (l : Lock)
      → (acquire redis link now token key ttl es).0 ≡ done (some l)
      → (l.key ≡ codes "lock:" ++ key)
        × (get_key redis now l.key es ≡ none)
        × ((acquire redis link now token key ttl es).1
            ≡ set l.key (record { token = l.token; until = now + ttl }) es)
  unfolding acquire set_nx
  granted link now token key ttl es l h = ground arith

  new_entry-IsHeld :
      (l : Lock) (until : ℕ) (es : Keys)
      → IsHeld redis l until (set l.key (record { token = l.token; until = until }) es)
  new_entry-IsHeld l until es = record {
    holder = record { token = l.token; until = until };
    found = entry-set l.key _ es;
    same_token = refl;
    lasts = refl;
  }

  -- One holder at a time: after a lock is granted, and until its time to live is over, nobody gets
  -- the same key, whatever others acquire and release in between and whichever of their commands
  -- fail, as long as nobody releases the key with the holder's token.
  pub one_holder :
      (link : Link) (now : ℕ) (token key : Text) (ttl : ℕ) (es : Keys) (l : Lock) (evs : List Event)
      (link' : Link) (now' : ℕ) (token' : Text) (ttl' : ℕ) (l' : Lock)
      → (acquire redis link now token key ttl es).0 ≡ done (some l)
      → All (Spares l (now + ttl)) evs
      → now' < now + ttl
      → (acquire redis link' now' token' key ttl'
          (run redis evs (acquire redis link now token key ttl es).1)).0
        ≢ done (some l')
  one_holder link now token key ttl es l evs link' now' token' ttl' l' granted_first spares early
        again =
      let (name, _, held) = granted link now token key ttl es l granted_first in
      let start : IsHeld redis l (now + ttl) (acquire redis link now token key ttl es).1 =
        subst (IsHeld redis l (now + ttl)) (sym held) (new_entry-IsHeld l (now + ttl) es) in
      let now_held =
        run-IsHeld redis l (now + ttl) evs (acquire redis link now token key ttl es).1 spares
          start in
      let taken =
        get_key_held redis l (now + ttl) now'
          (run redis evs (acquire redis link now token key ttl es).1) now_held early in
      let (name', free, _) =
        granted link' now' token' key ttl'
          (run redis evs (acquire redis link now token key ttl es).1) l' again in
      free_or_taken _ name name' free taken
    where
      free_or_taken :
          (es' : Keys)
          → l.key ≡ codes "lock:" ++ key
          → l'.key ≡ codes "lock:" ++ key
          → get_key redis now' l'.key es' ≡ none
          → get_key redis now' l.key es' ≡ some l.token
          → ⊥
      free_or_taken es' name name' free taken = cc

  -- A holder whose time is not over frees the key by its release, which succeeds if Redis answers.
  release_frees :
      (now until : ℕ) (l : Lock) (es : Keys)
      → IsHeld redis l until es
      → now < until
      → ((release redis sound now l es).0 ≡ done tt)
        × (get_key redis now l.key (release redis sound now l es).1 ≡ none)
  unfolding release release_script get_key
  release_frees now until l es h early =
      rw (get_key_held redis l until now es h early, release_script, text_eq_refl l.token)
        (refl, rw (entry-del l.key es, get_key) refl)

-- ===== src/Lock/Held.antt =====
-- internal/lock/lock.go: a lock between its grant and its release.
use github_pr_review_agent.Common.{
  ℕ, ◌+◌, ◌<◌, ◌≡◌, ◌≢◌, refl, Bool, true, false, Option, none, some, List, [], ◌∷◌, ◌++◌, Text,
  codes, text_eq, text_eq→≡, arith, Bool-cases, Option-cases, inl, inr, ◌⊎◌, lt→ltb, is_empty, ◌==◌,
  All, sym, ◌∙◌, ap, subst,
}
use github_pr_review_agent.Lock.{
  Entry, Redis, get_key, set_nx, Link, sound, down, answer_lost, Lock, send, answer, acquire,
  release_script, released, release,
}

-- What the processes do with Redis, each at a time of its clock.
pub data Event : Type 0 where
  acquires : Link → ℕ → Text → Text → ℕ → Event
  releases : Link → ℕ → Lock → Event

-- An event before `until` that does not release the lock itself.
abbrev pub Spares : Lock → ℕ → Event → Type 0
Spares l until (acquires link now token key ttl) = now < until
Spares l until (releases link now other) =
    (now < until) × ((other.key ≡ l.key) → other.token ≢ l.token)

module _ (redis : Redis) where
  open redis use {Keys, entry, set, del, entry-set_other, entry-del_other}

  unfoldable pub step : Event → Keys → Keys
  step (acquires link now token key ttl) es = (acquire redis link now token key ttl es).1
  step (releases link now l) es = (release redis link now l es).1

  unfoldable pub run : List Event → Keys → Keys
  run [] es = es
  run (e ∷ evs) es = run evs (step e es)

  -- The lock `l` is in Redis until `until`.
  pub record IsHeld (l : Lock) (until : ℕ) (es : Keys) : Type 0 where
    pub holder : Entry
    pub found : entry l.key es ≡ some holder
    pub same_token : holder.token ≡ l.token
    pub lasts : holder.until ≡ until

  pub get_key_held :
      (l : Lock) (until now : ℕ) (es : Keys)
      → IsHeld l until es
      → now < until
      → get_key redis now l.key es ≡ some l.token
  unfolding get_key
  get_key_held l until now es h early =
      rw (h.found, get_key, lt→ltb now h.holder.until (omega (arith, h.lasts)), h.same_token) refl

  -- A refused SET NX changes nothing; a granted one adds its entry.
  set_nx-cases :
      (now ttl : ℕ) (key token : Text) (es : Keys)
      → ((set_nx redis now key token ttl es ≡ (false, es))
          × ((t : Text) × (get_key redis now key es ≡ some t)))
        ⊎ ((set_nx redis now key token ttl es
              ≡ (true, set key (record { token = token; until = now + ttl }) es))
            × (get_key redis now key es ≡ none))
  unfolding set_nx
  set_nx-cases now ttl key token es = elim (Option-cases (get_key redis now key es)) [
    | inl free ↦ inr (rw (free, set_nx) refl, free)
    | inr (t, held) ↦ inl (rw (held, set_nx) refl, (t, held))
  ]

  module _ (l : Lock) (until : ℕ) where
    other_key-IsHeld :
        (key : Text) (e : Entry) (es : Keys)
        → key ≢ l.key
        → IsHeld l until es
        → IsHeld l until (set key e es)
    other_key-IsHeld key e es differ h = record {
      holder = h.holder;
      found = entry-set_other l.key key e es differ ∙ h.found;
      same_token = h.same_token;
      lasts = h.lasts;
    }

    set_nx-IsHeld :
        (now ttl : ℕ) (key token : Text) (es : Keys)
        → now < until
        → IsHeld l until es
        → IsHeld l until (set_nx redis now key token ttl es).1
    set_nx-IsHeld now ttl key token es early h = elim (set_nx-cases now ttl key token es) [
      | inl (same, _) ↦ rw same h
      | inr (added, free) ↦ rw added (
          other_key-IsHeld key (record { token = token; until = now + ttl }) es
            (λ q. absurd (taken (subst (λ j. get_key redis now j es ≡ none) q free))) h)
    ]
      where
        taken : get_key redis now l.key es ≡ none → ⊥
        taken free = ground (arith, get_key_held l until now es h early)

    answer-entries :
        (link : Link) (m : Lock) (b : Bool) (es : Keys) → (answer redis link m (b, es)).1 ≡ es
    unfolding answer
    answer-entries sound m true es = refl
    answer-entries sound m false es = refl
    answer-entries (down text) m b es = refl
    answer-entries (answer_lost text) m b es = refl

    send-IsHeld :
        (link : Link) (now ttl : ℕ) (m : Lock) (es : Keys)
        → now < until
        → IsHeld l until es
        → IsHeld l until (send redis link now m ttl es).1
    unfolding send
    send-IsHeld sound now ttl m es early h =
        subst (IsHeld l until)
          (sym (
            answer-entries sound m (set_nx redis now m.key m.token ttl es).0
              (set_nx redis now m.key m.token ttl es).1))
          (set_nx-IsHeld now ttl m.key m.token es early h)
    send-IsHeld (down text) now ttl m es early h = h
    send-IsHeld (answer_lost text) now ttl m es early h =
        subst (IsHeld l until)
          (sym (
            answer-entries (answer_lost text) m (set_nx redis now m.key m.token ttl es).0
              (set_nx redis now m.key m.token ttl es).1))
          (set_nx-IsHeld now ttl m.key m.token es early h)

    acquire-IsHeld :
        (link : Link) (now ttl : ℕ) (key token : Text) (es : Keys)
        → now < until
        → IsHeld l until es
        → IsHeld l until (acquire redis link now token key ttl es).1
    unfolding acquire
    acquire-IsHeld link now ttl key token es early h = elim (Bool-cases (is_empty key)) [
      | inl blank ↦ rw blank h
      | inr named ↦ rw named (elim (Bool-cases (ttl == 0)) [
        | inl never ↦ rw never h
        | inr lasting ↦ rw lasting (
            send-IsHeld link now ttl (record { key = codes "lock:" ++ key; token = token }) es early
              h)
      ])
    ]

    release_script-IsHeld :
        (now : ℕ) (m : Lock) (es : Keys)
        → now < until
        → (m.key ≡ l.key → m.token ≢ l.token)
        → IsHeld l until es
        → IsHeld l until (release_script redis now m es).1
    unfolding release_script
    release_script-IsHeld now m es early foreign h =
        elim (Option-cases (get_key redis now m.key es)) [
          | inl gone ↦ rw (gone, release_script) h
          | inr (token, there) ↦ elim (Bool-cases (text_eq token m.token)) [
            | inr stranger ↦ rw (there, release_script, stranger) h
            | inl own ↦
                rw (there, release_script, own)
                  (record {
                    holder = h.holder;
                    found = entry-del_other l.key m.key es (mine token there own) ∙ h.found;
                    same_token = h.same_token;
                    lasts = h.lasts;
                  })
          ]
        ]
      where
        some_injective : {a b : Text} → ◌≡◌ {A = Option Text} (some a) (some b) → a ≡ b
        some_injective e = cc

        -- The script deletes a key only for its token, which is not the one of `l`.
        mine :
            (token : Text)
            → get_key redis now m.key es ≡ some token
            → text_eq token m.token ≡ true
            → m.key ≢ l.key
        mine token there own q =
            let held : get_key redis now l.key es ≡ some l.token =
              get_key_held l until now es h early in
            let same : token ≡ m.token = text_eq→≡ token m.token own in
            foreign q (
              some_injective (
                ap some (sym same)
                ∙ sym there
                ∙ subst (λ j. get_key redis now j es ≡ some l.token) (sym q) held))

    release-IsHeld :
        (link : Link) (now : ℕ) (m : Lock) (es : Keys)
        → now < until
        → (m.key ≡ l.key → m.token ≢ l.token)
        → IsHeld l until es
        → IsHeld l until (release redis link now m es).1
    unfolding release
    release-IsHeld sound now m es early foreign h =
        subst (IsHeld l until) (sym (released-entries (release_script redis now m es)))
          (release_script-IsHeld now m es early foreign h)
      where
        released-entries : (r : ℕ × Keys) → (released redis r).1 ≡ r.1
        released-entries r = elim (Bool-cases (r.0 == 1)) [
          | inl one ↦ rw one refl
          | inr other ↦ rw other refl
        ]
    release-IsHeld (down text) now m es early foreign h = h
    release-IsHeld (answer_lost text) now m es early foreign h =
        release_script-IsHeld now m es early foreign h

    step-IsHeld :
        (e : Event) (es : Keys) → Spares l until e → IsHeld l until es → IsHeld l until (step e es)
    unfolding step
    step-IsHeld (acquires link now token key ttl) es early h =
        acquire-IsHeld link now ttl key token es early h
    step-IsHeld (releases link now m) es (early, foreign) h =
        release-IsHeld link now m es early foreign h

    pub run-IsHeld :
        (evs : List Event) (es : Keys)
        → All (Spares l until) evs
        → IsHeld l until es
        → IsHeld l until (run evs es)
    unfolding run
    run-IsHeld [] es spares h = h
    run-IsHeld (e ∷ evs) es (spare, spares) h =
        run-IsHeld evs (step e es) spares (step-IsHeld e es spare h)

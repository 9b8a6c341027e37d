-- ===== src/Agent/Loop/Validated.antt =====
-- How a run of the agent (internal/agent/agent.go) succeeds.
use github_pr_review_agent.Common.{
  ℕ, zero, suc, ◌+◌, Bool, true, false, none, some, List, Text, is_empty, ◌≡◌, refl, sym, ap, subst,
  inl, inr, Option-cases, if◌then◌else◌,
}
use github_pr_review_agent.Store.Transaction.{Error, Result, ok, err, Result-cases}
use github_pr_review_agent.Agent.Messages.{
  ChatMessage, ChatResponse, Environment, AgentOptions, AgentRequest, Session, wrap,
}
use github_pr_review_agent.Agent.Monad.{M, bind, ◌>>=◌, ◌>>◌, give, reading}
use github_pr_review_agent.Agent.Calls.{exhausted}
use github_pr_review_agent.Agent.Loop.{
  validate, repair, validate_with, validate_final, forced_final, ask, give_answer, use_tools, steps,
  opening, rounds, run_rounds, run,
}

module _ {S : Type 0} (env : Environment S) (o : AgentOptions) where
  -- The content of the result passes the validation that is configured, if any.
  abbrev pub Passes : Session S → Type 0
  Passes r =
      (check : Text → S → Result (Unit {0}))
      → env.validate_response ≡ some check
      → check r.result.content r.world ≡ ok tt

  -- If `m` succeeds, its result passes.
  record Checked (m : M S (Unit {0})) : Type 0 where
    checked : (r : Session S) → (m r).0 ≡ ok tt → Passes (m r).1

  bind-Checked :
      {A : Type 0} (x : Result A × Session S) (f : A → M S (Unit {0}))
      → ((a : A) → Checked (f a))
      → (bind x f).0 ≡ ok tt
      → Passes (bind x f).1
  unfolding bind
  bind-Checked (ok a, r) f k h = (k a).checked r h
  bind-Checked (err e, r) f k h = absurd (cc)

  >>=-Checked :
      {A : Type 0} (m : M S A) {f : A → M S (Unit {0})}
      → ((a : A) → Checked (f a))
      → Checked (m >>= f)
  unfolding ◌>>=◌
  >>=-Checked m {f = f} k = record { checked = λ r h. bind-Checked (m r) f k h }

  >>-Checked : {A : Type 0} (m : M S A) {n : M S (Unit {0})} → Checked n → Checked (m >> n)
  unfolding ◌>>◌
  >>-Checked m {n = n} k = record { checked = λ r h. bind-Checked (m r) (λ _. n) (λ _. k) h }

  reading-Checked :
      {f : Session S → M S (Unit {0})} → ((r : Session S) → Checked (f r)) → Checked (reading f)
  unfolding reading
  reading-Checked h = record { checked = λ r. (h r).checked r }

  if-Checked :
      (b : Bool) {m n : M S (Unit {0})} → Checked m → Checked n → Checked (if b then m else n)
  if-Checked true h k = h
  if-Checked false h k = k

  wrap-ok : (prefix : Text) (x : Result (Unit {0})) → wrap prefix x ≡ ok tt → x ≡ ok tt
  wrap-ok prefix (ok a) h = refl
  wrap-ok prefix (err e) h = absurd (cc)

  module _ (check : Text → S → Result (Unit {0}))
      (present : env.validate_response ≡ some check) where
    same_check :
        (other : Text → S → Result (Unit {0})) → env.validate_response ≡ some other → check ≡ other
    same_check other e = cc

    Passes-of : (r : Session S) → check r.result.content r.world ≡ ok tt → Passes r
    Passes-of r h other e = subst (λ f. f r.result.content r.world ≡ ok tt) (same_check other e) h

    validate-Checked : (prefix : Text) → Checked (validate env o check prefix)
    unfolding validate
    validate-Checked prefix = record {
      checked = λ r h. Passes-of r (wrap-ok prefix (check r.result.content r.world) h);
    }

    repair-Checked :
        (e : Error) (messages : List ChatMessage) → Checked (repair env o check e messages)
    unfolding repair
    repair-Checked e messages =
        >>=-Checked _ (λ response. >>-Checked _ (>>-Checked _ (>>-Checked _ (validate-Checked _))))

    validate_with-Checked : Checked (validate_with env o check)
    unfolding validate_with
    validate_with-Checked = record {
      checked = λ r. elim (Result-cases (check r.result.content r.world)) [
        | inl (a, e) ↦ rw (e, validate_with) (λ h. Passes-of r e)
        | inr (e, bad) ↦ rw (bad, validate_with) ((repair-Checked e _).checked r)
      ];
    }

  validate_final-present :
      (check : Text → S → Result (Unit {0}))
      → env.validate_response ≡ some check
      → validate_final env o ≡ validate_with env o check
  unfolding validate_final
  validate_final-present check present =
      ap
        (λ v.
          let m : M S (Unit {0}) = elim v [ none ↦ give tt | some c ↦ validate_with env o c ] in m)
        present

  validate_final-Checked : Checked (validate_final env o)
  unfolding validate_final
  validate_final-Checked = elim (Option-cases env.validate_response) [
    | inl absent ↦ record { checked = λ r h check present. absurd (cc) }
    | inr (check, present) ↦
        subst Checked (sym (validate_final-present check present))
          (validate_with-Checked check present)
  ]

  forced_final-Checked : Checked (forced_final env o)
  unfolding forced_final
  forced_final-Checked = >>-Checked _ (
      >>=-Checked _ (λ response.
        >>-Checked _
          (>>-Checked _ (>>-Checked _ (>>-Checked _ (>>-Checked _ validate_final-Checked))))))

  give_answer-Checked :
      (step : ℕ) (response : ChatResponse) → Checked (give_answer env o step response)
  unfolding give_answer
  give_answer-Checked step response = >>-Checked _ (>>-Checked _ validate_final-Checked)

  steps-Checked : (left step : ℕ) → Checked (steps env o left step)
  unfolding steps
  steps-Checked zero step = forced_final-Checked
  steps-Checked (suc left) step = reading-Checked (λ r.
      if-Checked (exhausted env o r) forced_final-Checked (
        >>=-Checked (ask env o step (suc left)) (λ response.
          if-Checked (is_empty response.tool_calls) (give_answer-Checked step response)
            (>>-Checked (use_tools env o step response) (steps-Checked left (step + 1))))))

  run_rounds-Checked : (request : AgentRequest) → Checked (run_rounds env o request)
  unfolding run_rounds
  run_rounds-Checked request =
      >>-Checked _ (>>-Checked _ (>>-Checked _ (steps-Checked (rounds env o request) 0)))

  -- If a run succeeds, in a round, at its end or after a repair, the content of its result passes
  -- the validation that the options ask for, in the state in which the run ends.
  pub run-Passes :
      (request : AgentRequest) (world : S)
      → (run env o request world).0 ≡ ok tt
      → Passes (run env o request world).1
  unfolding run
  run-Passes request world = (run_rounds-Checked request).checked (opening env o request world)

-- ===== src/Agent/Loop/Rules.antt =====
-- What a run of the agent (internal/agent/agent.go) keeps: rules that follow the code.
use github_pr_review_agent.Common.{
  ℕ, zero, suc, ◌+◌, Bool, true, false, List, [], ◌∷◌, Text, is_empty, inl, inr, Option-cases,
  if◌then◌else◌,
}
use github_pr_review_agent.Store.Transaction.{Error, Result, ok, err, Result-cases}
use github_pr_review_agent.Agent.Messages.{
  ToolCall, ChatMessage, ChatRequest, ChatResponse, ToolInvocation, Environment, AgentOptions,
  AgentRequest, Session, count_call, first_model,
}
use github_pr_review_agent.Agent.Monad.{
  M, bind, ◌>>=◌, ◌>>◌, give, give_up, with_prefix, reading, update, require, say, set_content,
}
use github_pr_review_agent.Agent.Loop.{
  invoke, notify, call_tools, chat, validate, repair, validate_with, validate_final, forced_final,
  ask, give_answer, use_tools, steps, initial_calls, opening, run_rounds, run,
}

-- However `m` ends, `P` holds afterwards if it held before.
pub record Keeps {S A : Type 0} (P : Session S → Type 0) (m : M S A) : Type 0 where
  pub keeps : (r : Session S) → P r → P (m r).1

module _ {S : Type 0} (P : Session S → Type 0) where
  bind-Keeps :
      {A B : Type 0} (x : Result A × Session S) (f : A → M S B)
      → P x.1
      → ((a : A) → Keeps P (f a))
      → P (bind x f).1
  unfolding bind
  bind-Keeps (ok a, r) f h k = (k a).keeps r h
  bind-Keeps (err e, r) f h k = h

  >>=-Keeps :
      {A B : Type 0} {m : M S A} {f : A → M S B}
      → Keeps P m
      → ((a : A) → Keeps P (f a))
      → Keeps P (m >>= f)
  unfolding ◌>>=◌
  >>=-Keeps {m = m} {f = f} h k = record { keeps = λ r g. bind-Keeps (m r) f (h.keeps r g) k }

  >>-Keeps : {A B : Type 0} {m : M S A} {n : M S B} → Keeps P m → Keeps P n → Keeps P (m >> n)
  unfolding ◌>>◌
  >>-Keeps {m = m} {n = n} h k = record {
    keeps = λ r g. bind-Keeps (m r) (λ _. n) (h.keeps r g) (λ _. k);
  }

  give-Keeps : {A : Type 0} (a : A) → Keeps P (give {S = S} a)
  unfolding give
  give-Keeps a = record { keeps = λ r g. g }

  pub give_up-Keeps : {A : Type 0} (e : Text) → Keeps P (give_up {S = S} {A = A} e)
  unfolding give_up
  give_up-Keeps e = record { keeps = λ r g. g }

  with_prefix-Keeps :
      {A : Type 0} (prefix : Text) {m : M S A} → Keeps P m → Keeps P (with_prefix prefix m)
  unfolding with_prefix
  with_prefix-Keeps prefix h = record { keeps = h.keeps }

  reading-Keeps :
      {A : Type 0} {f : Session S → M S A} → ((r : Session S) → Keeps P (f r)) → Keeps P (reading f)
  unfolding reading
  reading-Keeps h = record { keeps = λ r. (h r).keeps r }

  require-Keeps : (b : Bool) (e : Text) → Keeps P (require {S = S} b e)
  unfolding require
  require-Keeps true e = record { keeps = λ r g. g }
  require-Keeps false e = record { keeps = λ r g. g }

  if-Keeps :
      {A : Type 0} (b : Bool) {m n : M S A} → Keeps P m → Keeps P n → Keeps P (if b then m else n)
  if-Keeps true h k = h
  if-Keeps false h k = k

ruleset keeping =
    (>>=-Keeps, >>-Keeps, give-Keeps, with_prefix-Keeps, reading-Keeps, require-Keeps, if-Keeps)

-- What each of the effects of a run keeps.
pub record Kept {S : Type 0} (env : Environment S) (o : AgentOptions) (P : Session S → Type 0)
    : Type 0 where
  pub says : (m : ChatMessage) → Keeps P (say {S = S} m)
  pub counts :
      (response : ChatResponse) → Keeps P (update {S = S} (λ result. count_call result response))
  pub models :
      (response : ChatResponse) → Keeps P (update {S = S} (λ result. first_model result response))
  pub contents : (response : ChatResponse) → Keeps P (update {S = S} (set_content response))
  pub chats : (request : ChatRequest) → Keeps P (chat env o request)
  pub notifies : (inv : ToolInvocation) → Keeps P (notify env o inv)
  pub invokes : (call : ToolCall) → Keeps P (invoke env o call)

module _ {S : Type 0} (env : Environment S) (o : AgentOptions) (P : Session S → Type 0)
    (k : Kept env o P) where
  validate-Keeps :
      (check : Text → S → Result (Unit {0})) (prefix : Text) → Keeps P (validate env o check prefix)
  unfolding validate
  validate-Keeps check prefix = record { keeps = λ r g. g }

  call_tools-Keeps :
      (prefix : ToolCall → Text) (calls : List ToolCall) → Keeps P (call_tools env o prefix calls)
  unfolding call_tools
  call_tools-Keeps prefix [] = give-Keeps P tt
  call_tools-Keeps prefix (call ∷ calls) = >>=-Keeps P (k.invokes call) (λ inv.
      >>-Keeps P (with_prefix-Keeps P _ (k.notifies inv))
        (>>-Keeps P (k.says _) (call_tools-Keeps prefix calls)))

  repair-Keeps :
      (check : Text → S → Result (Unit {0})) (e : Error) (messages : List ChatMessage)
      → Keeps P (repair env o check e messages)
  unfolding repair
  repair-Keeps check e messages =
      >>=-Keeps P (with_prefix-Keeps P _ (k.chats _))
        (λ response. search (keeping, k.counts, k.contents, validate-Keeps))

  validate_with-Keeps : (check : Text → S → Result (Unit {0})) → Keeps P (validate_with env o check)
  unfolding validate_with
  validate_with-Keeps check = record {
    keeps = λ r g. elim (Result-cases (check r.result.content r.world)) [
      | inl (a, e) ↦ rw (e, validate_with) g
      | inr (e, bad) ↦ rw (bad, validate_with) ((repair-Keeps check e _).keeps r g)
    ];
  }

  validate_final-Keeps : Keeps P (validate_final env o)
  unfolding validate_final
  validate_final-Keeps = elim (Option-cases env.validate_response) [
    | inl absent ↦ rw (absent, validate_final) (give-Keeps P tt)
    | inr (check, present) ↦ rw (present, validate_final) (validate_with-Keeps check)
  ]

  forced_final-Keeps : Keeps P (forced_final env o)
  unfolding forced_final
  forced_final-Keeps =
      >>-Keeps P (k.says _)
        (search (keeping, k.counts, k.models, k.contents, k.chats, validate_final-Keeps) depth 12)

  ask-Keeps : (step left : ℕ) → Keeps P (ask env o step left)
  unfolding ask
  ask-Keeps step left =
      >>=-Keeps P (with_prefix-Keeps P _ (reading-Keeps P (λ r. k.chats _)))
        (λ response. search (keeping, k.counts, k.models))

  give_answer-Keeps :
      (step : ℕ) (response : ChatResponse) → Keeps P (give_answer env o step response)
  unfolding give_answer
  give_answer-Keeps step response =
      >>-Keeps P (require-Keeps P _ _) (search (keeping, k.contents, validate_final-Keeps))

  use_tools-Keeps : (step : ℕ) (response : ChatResponse) → Keeps P (use_tools env o step response)
  unfolding use_tools
  use_tools-Keeps step response = >>-Keeps P (k.says _) (call_tools-Keeps _ _)

  steps-Keeps : (left step : ℕ) → Keeps P (steps env o left step)
  unfolding steps
  steps-Keeps zero step = forced_final-Keeps
  steps-Keeps (suc left) step = reading-Keeps P (λ r. if-Keeps P _ forced_final-Keeps (
      >>=-Keeps P (ask-Keeps step (suc left)) (λ response.
        if-Keeps P _ (give_answer-Keeps step response)
          (>>-Keeps P (use_tools-Keeps step response) (steps-Keeps left (step + 1))))))

  initial_calls-Keeps : (requested : List ToolCall) → Keeps P (initial_calls env o requested)
  unfolding initial_calls
  initial_calls-Keeps requested =
      if-Keeps P (is_empty requested) (give-Keeps P tt)
        (>>-Keeps P (k.says _) (call_tools-Keeps _ _))

  run_rounds-Keeps : (request : AgentRequest) → Keeps P (run_rounds env o request)
  unfolding run_rounds
  run_rounds-Keeps request = >>-Keeps P (require-Keeps P _ _) (
      >>-Keeps P (require-Keeps P _ _)
        (>>-Keeps P (initial_calls-Keeps request.initial_tool_calls) (steps-Keeps _ 0)))

  pub run-Keeps :
      (request : AgentRequest) (world : S)
      → P (opening env o request world)
      → P (run env o request world).1
  unfolding run
  run-Keeps request world h = (run_rounds-Keeps request).keeps _ h

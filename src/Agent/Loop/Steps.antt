-- ===== src/Agent/Loop/Steps.antt =====
-- How often a run of the agent (internal/agent/agent.go) calls the provider.
use github_pr_review_agent.Common.{
  ℕ, zero, suc, ◌+◌, ◌≤◌, Bool, true, false, not, List, [], ◌∷◌, Text, is_empty, trim_space, ltb,
  ap, inl, inr, arith, Option-cases, Bool-cases, if◌then◌else◌,
}
use github_pr_review_agent.Store.Transaction.{Error, Result, ok, err, Result-cases}
use github_pr_review_agent.Agent.Messages.{
  ToolCall, ChatMessage, ChatRequest, ChatResponse, ToolInvocation, Environment, AgentOptions,
  AgentRequest, Session, count_call, first_model,
}
use github_pr_review_agent.Agent.Monad.{
  M, bind, ◌>>=◌, ◌>>◌, give, give_up, with_prefix, reading, update, require, say, set_content,
}
use github_pr_review_agent.Agent.Calls.{
  exhausted, execute, execute_tool, run_tool, admit, cached_call,
}
use github_pr_review_agent.Agent.Loop.{
  invoke, notify, provider, call_tools, chat, validate, repair, validate_with, validate_final,
  forced_final, ask, give_answer, use_tools, steps, initial_calls, opening, rounds, run_rounds, run,
}
use github_pr_review_agent.Agent.Loop.Budget.{execute-result}

-- `m` raises the measure `μ` by at most `n`.
record Adds {S A : Type 0} (μ : Session S → ℕ) (n : ℕ) (m : M S A) : Type 0 where
  adds : (r : Session S) → μ (m r).1 ≤ μ r + n

module _ {S : Type 0} {μ : Session S → ℕ} where
  bind-Adds :
      {A B : Type 0} (n b : ℕ) (x : Result A × Session S) (f : A → M S B)
      → μ x.1 ≤ b
      → ((a : A) → Adds μ n (f a))
      → μ (bind x f).1 ≤ b + n
  unfolding bind
  bind-Adds n b (ok a, r) f h k = let more = (k a).adds r in omega arith
  bind-Adds n b (err e, r) f h k = omega arith

  -- The bound of the whole is that of the parts together.
  >>=-Adds :
      {A B : Type 0} (a b n : ℕ) {m : M S A} {f : A → M S B}
      → a + b ≤ n
      → Adds μ a m
      → ((x : A) → Adds μ b (f x))
      → Adds μ n (m >>= f)
  unfolding ◌>>=◌
  >>=-Adds a b n {m = m} {f = f} le h k = record {
    adds = λ r. let all = bind-Adds b (μ r + a) (m r) f (h.adds r) k in omega arith;
  }

  >>-Adds :
      {A B : Type 0} (a b n : ℕ) {m : M S A} {k : M S B}
      → a + b ≤ n
      → Adds μ a m
      → Adds μ b k
      → Adds μ n (m >> k)
  unfolding ◌>>◌
  >>-Adds a b n {m = m} {k = k} le h g = record {
    adds = λ r. let all = bind-Adds b (μ r + a) (m r) (λ _. k) (h.adds r) (λ _. g) in omega arith;
  }

  -- A step that counts nothing.
  next :
      {A B : Type 0} (n : ℕ) {m : M S A} {k : M S B} → Adds μ 0 m → Adds μ n k → Adds μ n (m >> k)
  next n h g = >>-Adds 0 n n (omega arith) h g

  weaken : {A : Type 0} (a n : ℕ) {m : M S A} → a ≤ n → Adds μ a m → Adds μ n m
  weaken a n le h = record { adds = λ r. let all = h.adds r in omega arith }

  give-Adds : {A : Type 0} (n : ℕ) (a : A) → Adds μ n (give {S = S} a)
  unfolding give
  give-Adds n a = record { adds = λ r. omega arith }

  give_up-Adds : {A : Type 0} (n : ℕ) (e : Text) → Adds μ n (give_up {S = S} {A = A} e)
  unfolding give_up
  give_up-Adds n e = record { adds = λ r. omega arith }

  with_prefix-Adds :
      {A : Type 0} (n : ℕ) (prefix : Text) {m : M S A}
      → Adds μ n m
      → Adds μ n (with_prefix prefix m)
  unfolding with_prefix
  with_prefix-Adds n prefix h = record { adds = h.adds }

  reading-Adds :
      {A : Type 0} (n : ℕ) {f : Session S → M S A}
      → ((r : Session S) → Adds μ n (f r))
      → Adds μ n (reading f)
  unfolding reading
  reading-Adds n h = record { adds = λ r. (h r).adds r }

  require-Adds : (b : Bool) (e : Text) → Adds μ 0 (require {S = S} b e)
  unfolding require
  require-Adds true e = give-Adds 0 tt
  require-Adds false e = give_up-Adds 0 e

  if-Adds :
      {A : Type 0} (n : ℕ) (b : Bool) {m k : M S A}
      → Adds μ n m
      → Adds μ n k
      → Adds μ n (if b then m else k)
  if-Adds n true h g = h
  if-Adds n false h g = g

-- What the steps of a run add to a measure: a request of the provider `p`, the count of its answer
-- `c`, together at most 1, and all else nothing.
record Costs {S : Type 0} (env : Environment S) (o : AgentOptions) (μ : Session S → ℕ) (p c : ℕ)
    : Type 0 where
  total : p + c ≤ 1
  sends : (request : ChatRequest) → Adds μ p (provider env o request)
  says : (m : ChatMessage) → Adds μ 0 (say m)
  counts : (response : ChatResponse) → Adds μ c (update (λ result. count_call result response))
  models : (response : ChatResponse) → Adds μ 0 (update (λ result. first_model result response))
  contents : (response : ChatResponse) → Adds μ 0 (update (set_content response))
  invokes : (call : ToolCall) → Adds μ 0 (invoke env o call)
  notifies : (inv : ToolInvocation) → Adds μ 0 (notify env o inv)

module _ {S : Type 0} (env : Environment S) (o : AgentOptions) (μ : Session S → ℕ) (p c : ℕ)
    (costs : Costs env o μ p c) where
  chat-Adds : (request : ChatRequest) → Adds μ p (chat env o request)
  unfolding chat
  chat-Adds request = elim (Result-cases (env.encoded_size request)) [
    | inr (e, bad) ↦ rw (bad, chat) (give_up-Adds p _)
    | inl (size, e) ↦
        rw (e, chat)
          (if-Adds p (ltb o.max_context_bytes size) (give_up-Adds p _) (costs.sends request))
  ]

  call_tools-Adds :
      (prefix : ToolCall → Text) (calls : List ToolCall) → Adds μ 0 (call_tools env o prefix calls)
  unfolding call_tools
  call_tools-Adds prefix [] = give-Adds 0 tt
  call_tools-Adds prefix (call ∷ calls) = >>=-Adds 0 0 0 (omega arith) (costs.invokes call) (λ inv.
      next 0 (with_prefix-Adds 0 _ (costs.notifies inv))
        (next 0 (costs.says _) (call_tools-Adds prefix calls)))

  validate-Adds :
      (check : Text → S → Result (Unit {0})) (prefix : Text)
      → Adds μ 0 (validate env o check prefix)
  unfolding validate
  validate-Adds check prefix = record { adds = λ r. omega arith }

  repair-Adds :
      (check : Text → S → Result (Unit {0})) (e : Error) (messages : List ChatMessage)
      → Adds μ 1 (repair env o check e messages)
  unfolding repair
  repair-Adds check e messages =
      >>=-Adds p c 1 (omega (arith, costs.total)) (with_prefix-Adds p _ (chat-Adds _)) (λ response.
        >>-Adds c 0 c (omega arith) (costs.counts response) (
          next 0 (costs.contents response)
            (next 0 (require-Adds (is_empty response.tool_calls) _) (validate-Adds check _))))

  validate_with-Adds : (check : Text → S → Result (Unit {0})) → Adds μ 1 (validate_with env o check)
  unfolding validate_with
  validate_with-Adds check = record {
    adds = λ r. elim (Result-cases (check r.result.content r.world)) [
      | inl (a, e) ↦ rw (e, validate_with) (omega arith)
      | inr (e, bad) ↦ rw (bad, validate_with) ((repair-Adds check e _).adds r)
    ];
  }

  validate_final-Adds : Adds μ 1 (validate_final env o)
  unfolding validate_final
  validate_final-Adds = elim (Option-cases env.validate_response) [
    | inl absent ↦ rw (absent, validate_final) (give-Adds 1 tt)
    | inr (check, present) ↦ rw (present, validate_final) (validate_with-Adds check)
  ]

  forced_final-Adds : Adds μ 2 (forced_final env o)
  unfolding forced_final
  forced_final-Adds = next 2 (costs.says _) (
      >>=-Adds p (c + 1) 2 (omega (arith, costs.total))
        (with_prefix-Adds p _ (reading-Adds p (λ r. chat-Adds _)))
        (λ response. >>-Adds c 1 (c + 1) (omega arith) (costs.counts response) (
          next 1 (costs.models response) (
            next 1 (require-Adds (not (is_empty response.content)) _) (
              next 1 (require-Adds (is_empty response.tool_calls) _)
                (next 1 (costs.contents response) validate_final-Adds))))))

  ask-Adds : (step left : ℕ) → Adds μ 1 (ask env o step left)
  unfolding ask
  ask-Adds step left =
      >>=-Adds p c 1 (omega (arith, costs.total))
        (with_prefix-Adds p _ (reading-Adds p (λ r. chat-Adds _)))
        (λ response.
          >>-Adds c 0 c (omega arith) (costs.counts response)
            (next 0 (costs.models response) (give-Adds 0 response)))

  give_answer-Adds :
      (step : ℕ) (response : ChatResponse) → Adds μ 1 (give_answer env o step response)
  unfolding give_answer
  give_answer-Adds step response =
      next 1 (require-Adds (not (is_empty response.content)) _)
        (next 1 (costs.contents response) validate_final-Adds)

  use_tools-Adds : (step : ℕ) (response : ChatResponse) → Adds μ 0 (use_tools env o step response)
  unfolding use_tools
  use_tools-Adds step response = next 0 (costs.says _) (call_tools-Adds _ _)

  steps-Adds : (left step : ℕ) → Adds μ (left + 2) (steps env o left step)
  unfolding steps
  steps-Adds zero step = forced_final-Adds
  steps-Adds (suc left) step = reading-Adds _ (λ r.
      if-Adds _ (exhausted env o r) (weaken 2 _ (omega arith) forced_final-Adds) (
        >>=-Adds 1 (left + 2) _ (omega arith) (ask-Adds step (suc left)) (λ response.
          if-Adds _ (is_empty response.tool_calls)
            (weaken 1 _ (omega arith) (give_answer-Adds step response))
            (next _ (use_tools-Adds step response) (steps-Adds left (step + 1))))))

  initial_calls-Adds : (requested : List ToolCall) → Adds μ 0 (initial_calls env o requested)
  unfolding initial_calls
  initial_calls-Adds requested =
      if-Adds 0 (is_empty requested) (give-Adds 0 tt) (next 0 (costs.says _) (call_tools-Adds _ _))

  run_rounds-Adds :
      (request : AgentRequest) → Adds μ (rounds env o request + 2) (run_rounds env o request)
  unfolding run_rounds
  run_rounds-Adds request =
      next _ (require-Adds (not (is_empty (trim_space request.system_prompt))) _) (
        next _ (require-Adds (not (is_empty (trim_space request.user_prompt))) _)
          (next _ (initial_calls-Adds request.initial_tool_calls) (steps-Adds _ 0)))

  run_bound :
      (request : AgentRequest) (world : S)
      → μ (run env o request world).1 ≤ μ (opening env o request world) + rounds env o request + 2
  unfolding run
  run_bound request world =
      let all = (run_rounds-Adds request).adds (opening env o request world) in omega arith

module _ {S : Type 0} (env : Environment S) (o : AgentOptions) where
  -- The counter of the result.
  counter-Costs : Costs env o (λ r. r.result.provider_calls) 0 1
  unfolding provider say update count_call first_model invoke notify
  counter-Costs = record {
    total = omega arith;
    sends = λ request. record { adds = λ r. omega arith };
    says = λ m. record { adds = λ r. omega arith };
    counts = λ response. record { adds = λ r. omega arith };
    models = λ response. record { adds = λ r. omega arith };
    contents = λ response. record { adds = λ r. omega arith };
    invokes = λ call. record {
      adds = λ r. omega (arith, ap (λ x. x.provider_calls) (execute-result env o call r));
    };
    notifies = λ inv. record { adds = λ r. omega arith };
  }

-- How often the provider has been called, by a counter of the outside world: ChatWithTools raises it
-- by at most 1, and neither a tool nor the callback raises it.
pub record CountsCalls {S : Type 0} (env : Environment S) (calls : S → ℕ) : Type 0 where
  pub asks : (request : ChatRequest) (s : S) → calls (env.chat_with_tools request s).1 ≤ calls s + 1
  pub executes : (name arguments : Text) (s : S) → calls (env.execute name arguments s).1 ≤ calls s
  pub reports : (inv : ToolInvocation) (s : S) → calls (env.on_tool_call inv s).1 ≤ calls s

module _ {S : Type 0} (env : Environment S) (o : AgentOptions) (calls : S → ℕ)
    (counted : CountsCalls env calls) where
  run_tool-calls :
      (call : ToolCall) (r : Session S) → calls (run_tool env o call r).1.world ≤ calls r.world
  unfolding run_tool execute_tool admit
  run_tool-calls call r = ground (arith, counted.executes call.name call.arguments r.world)

  execute-calls :
      (call : ToolCall) (r : Session S) → calls (execute env o call r).1.world ≤ calls r.world
  unfolding execute
  execute-calls call r = elim (Option-cases (cached_call env o call r)) [
    | inr (previous, e) ↦ rw (e, execute) (omega arith)
    | inl fresh ↦ elim (Bool-cases (exhausted env o r)) [
      | inl used_up ↦ rw (fresh, execute) (rw used_up (omega arith))
      | inr more ↦ rw (fresh, execute) (rw more (run_tool-calls call r))
    ]
  ]

  calls-Costs : Costs env o (λ r. calls r.world) 1 0
  unfolding provider say update invoke notify
  calls-Costs = record {
    total = omega arith;
    sends = λ request. record { adds = λ r. omega (arith, counted.asks request r.world) };
    says = λ m. record { adds = λ r. omega arith };
    counts = λ response. record { adds = λ r. omega arith };
    models = λ response. record { adds = λ r. omega arith };
    contents = λ response. record { adds = λ r. omega arith };
    invokes = λ call. record { adds = λ r. omega (arith, execute-calls call r) };
    notifies = λ inv. record { adds = λ r. omega (arith, counted.reports inv r.world) };
  }

  -- However a run ends, the provider has been called at most once for each round that the request
  -- (or, if it names no number, the options) allows, once more for the forced final answer, and once
  -- for its repair, by any counter of its calls that neither the tools nor the callback raise; the
  -- calls that the result counts are bounded likewise.
  pub run_steps :
      (request : AgentRequest) (world : S)
      → let r = (run env o request world).1 in
        (calls r.world ≤ calls world + rounds env o request + 2)
        × (r.result.provider_calls ≤ rounds env o request + 2)
  run_steps request world =
      let all =
        run_bound env o (λ r. r.result.provider_calls) 0 1 (counter-Costs env o) request world in
      (run_bound env o (λ r. calls r.world) 1 0 calls-Costs request world, omega arith)

-- ===== src/Agent/Loop/Budget.antt =====
-- The budgets of a run of the agent (internal/agent/agent.go): the bytes of tool output, and the
-- bytes of a request.
use github_pr_review_agent.Common.{
  ℕ, ◌+◌, ◌≤◌, true, false, not, ◌||◌, List, [], ◌∷◌, ◌++◌, Text, is_empty, ltb, ◌≡◌, refl, ap, sym,
  subst, inl, inr, arith, Bool-cases, Option-cases, if◌then◌else◌,
}
use github_pr_review_agent.Store.Transaction.{ok, Result-cases}
use github_pr_review_agent.Agent.Messages.{
  byte_length, ToolCall, ChatRequest, ToolInvocation, Environment, AgentOptions, AgentRequest,
  Session, count_call, first_model,
}
use github_pr_review_agent.Agent.Monad.{update, say}
use github_pr_review_agent.Agent.Calls.{
  admit, execute_tool, run_tool, cached_call, cache_key, exhausted, execute,
}
use github_pr_review_agent.Agent.Loop.{chat, provider, notify, invoke, run}
use github_pr_review_agent.Agent.Loop.Rules.{Keeps, give_up-Keeps, Kept, run-Keeps}

-- The output of a call that reached the model and the evidence.
abbrev pub accepted : ToolInvocation → ℕ
accepted inv = if inv.cached || not (is_empty inv.error) then 0 else byte_length inv.output

pub spent : List ToolInvocation → ℕ
spent [] = 0
spent (inv ∷ invs) = accepted inv + spent invs

spent-append :
    (invs : List ToolInvocation) (inv : ToolInvocation)
    → spent (invs ++ inv ∷ []) ≡ spent invs + accepted inv
unfolding spent
spent-append [] inv = omega arith
spent-append (i ∷ invs) inv = omega (arith, spent-append invs inv)

module _ {S : Type 0} (env : Environment S) (o : AgentOptions) where
  -- The budget is what has been accepted and what remains.
  abbrev Balanced : Session S → Type 0
  Balanced r = spent r.result.tool_calls + r.remaining ≡ o.max_tool_output_bytes

  admit_balance :
      (key : Text) (inv : ToolInvocation) (r : Session S)
      → is_empty inv.error ≡ true
      → inv.cached ≡ false
      → accepted (admit env o key inv r).0 + (admit env o key inv r).1.remaining ≡ r.remaining
  unfolding admit
  admit_balance key inv r fine fresh = ground arith

  run_tool_balance :
      (call : ToolCall) (r : Session S)
      → accepted (run_tool env o call r).0 + (run_tool env o call r).1.remaining ≡ r.remaining
  unfolding run_tool execute_tool
  run_tool_balance call r =
      let (end, world) = env.execute call.name call.arguments r.world in
      elim (Bool-cases (is_empty end.error)) [
        | inl fine ↦ rw (fine, run_tool) (admit_balance (cache_key env o call) _ _ fine refl)
        | inr failed ↦ rw (failed, run_tool) (rw failed (omega arith))
      ]

  execute_balance :
      (call : ToolCall) (r : Session S)
      → accepted (execute env o call r).0 + (execute env o call r).1.remaining ≡ r.remaining
  unfolding execute
  execute_balance call r = elim (Option-cases (cached_call env o call r)) [
    | inr (previous, e) ↦ rw (e, execute) (omega arith)
    | inl fresh ↦ elim (Bool-cases (exhausted env o r)) [
      | inl used_up ↦ rw (fresh, execute) (rw used_up (omega arith))
      | inr more ↦ rw (fresh, execute) (rw more (run_tool_balance call r))
    ]
  ]

  run_tool-result : (call : ToolCall) (r : Session S) → (run_tool env o call r).1.result ≡ r.result
  unfolding run_tool execute_tool admit
  run_tool-result call r = ground arith

  pub execute-result :
      (call : ToolCall) (r : Session S) → (execute env o call r).1.result ≡ r.result
  unfolding execute
  execute-result call r = elim (Option-cases (cached_call env o call r)) [
    | inr (previous, e) ↦ rw (e, execute) refl
    | inl fresh ↦ elim (Bool-cases (exhausted env o r)) [
      | inl used_up ↦ rw (fresh, execute) (rw used_up refl)
      | inr more ↦ rw (fresh, execute) (rw more (run_tool-result call r))
    ]
  ]

  invoke-Balanced : (call : ToolCall) → Keeps Balanced (invoke env o call)
  unfolding invoke
  invoke-Balanced call = record {
    keeps = λ r g.
        let same : spent (execute env o call r).1.result.tool_calls ≡ spent r.result.tool_calls =
          ap (λ result. spent result.tool_calls) (execute-result call r) in
        omega (
          arith,
          g,
          same,
          execute_balance call r,
          spent-append (execute env o call r).1.result.tool_calls (execute env o call r).0,
        );
  }

  chat-Keeps :
      (P : Session S → Type 0)
      → ((request : ChatRequest) (size : ℕ)
          → env.encoded_size request ≡ ok size
          → size ≤ o.max_context_bytes
          → Keeps P (provider env o request))
      → (request : ChatRequest) → Keeps P (chat env o request)
  unfolding chat
  chat-Keeps P h request = elim (Result-cases (env.encoded_size request)) [
    | inr (e, bad) ↦ rw (bad, chat) (give_up-Keeps P _)
    | inl (size, e) ↦ elim (Bool-cases (ltb o.max_context_bytes size)) [
      | inl over ↦ rw (e, chat) (rw over (give_up-Keeps P _))
      | inr fits ↦ rw (e, chat) (rw fits (h request size e (ground arith)))
    ]
  ]

  balanced : Kept env o Balanced
  unfolding say update notify provider count_call first_model
  balanced = record {
    says = λ m. record { keeps = λ r g. g };
    counts = λ response. record { keeps = λ r g. g };
    models = λ response. record { keeps = λ r g. g };
    contents = λ response. record { keeps = λ r g. g };
    chats = chat-Keeps Balanced (λ request size e fits. record { keeps = λ r g. g });
    notifies = λ inv. record { keeps = λ r g. g };
    invokes = invoke-Balanced;
  }

  -- However a run ends: the bytes of all tool outputs that were accepted, of calls that neither
  -- failed nor repeated an earlier one, and the budget that is left make up the budget for tool
  -- output, which they therefore never exceed.
  pub run_budget :
      (request : AgentRequest) (world : S)
      → spent (run env o request world).1.result.tool_calls + (run env o request world).1.remaining
        ≡ o.max_tool_output_bytes
  run_budget request world =
      run-Keeps env o Balanced balanced request world (unfold spent in omega arith)

  run_tool-world :
      (Q : S → Type 0)
      → ((name arguments : Text) (s : S) → Q s → Q (env.execute name arguments s).1)
      → (call : ToolCall) (r : Session S) → Q r.world
      → Q (run_tool env o call r).1.world
  unfolding run_tool execute_tool admit
  run_tool-world Q tools call r g =
      let same : (run_tool env o call r).1.world
          ≡ (env.execute call.name call.arguments r.world).1 =
        ground arith in
      subst Q (sym same) (tools call.name call.arguments r.world g)

  execute-world :
      (Q : S → Type 0)
      → ((name arguments : Text) (s : S) → Q s → Q (env.execute name arguments s).1)
      → (call : ToolCall) (r : Session S) → Q r.world
      → Q (execute env o call r).1.world
  unfolding execute
  execute-world Q tools call r g = elim (Option-cases (cached_call env o call r)) [
    | inr (previous, e) ↦ rw (e, execute) g
    | inl fresh ↦ elim (Bool-cases (exhausted env o r)) [
      | inl used_up ↦ rw (fresh, execute) (rw used_up g)
      | inr more ↦ rw (fresh, execute) (rw more (run_tool-world Q tools call r g))
    ]
  ]

  invoke-world :
      (Q : S → Type 0)
      → ((name arguments : Text) (s : S) → Q s → Q (env.execute name arguments s).1)
      → (call : ToolCall) → Keeps (λ r. Q r.world) (invoke env o call)
  unfolding invoke
  invoke-world Q tools call = record { keeps = λ r g. execute-world Q tools call r g }

  -- The provider is only ever sent requests whose encoding is within the context budget, in the
  -- rounds, at the end and for a repair: what every such request keeps of the state, and the tools
  -- and the callback keep too, a run keeps, however it ends.
  pub run_requests :
      (Q : S → Type 0)
      → ((request : ChatRequest) (size : ℕ) (s : S)
          → env.encoded_size request ≡ ok size
          → size ≤ o.max_context_bytes
          → Q s
          → Q (env.chat_with_tools request s).1)
      → ((name arguments : Text) (s : S) → Q s → Q (env.execute name arguments s).1)
      → ((inv : ToolInvocation) (s : S) → Q s → Q (env.on_tool_call inv s).1)
      → (request : AgentRequest) (world : S) → Q world
      → Q (run env o request world).1.world
  unfolding say update notify provider
  run_requests Q sends tools called request world h =
      run-Keeps env o (λ r. Q r.world)
        (record {
          says = λ m. record { keeps = λ r g. g };
          counts = λ response. record { keeps = λ r g. g };
          models = λ response. record { keeps = λ r g. g };
          contents = λ response. record { keeps = λ r g. g };
          chats =
              chat-Keeps (λ r. Q r.world)
                (λ q size e fits. record { keeps = λ r g. sends q size r.world e fits g });
          notifies = λ inv. record { keeps = λ r g. called inv r.world g };
          invokes = invoke-world Q tools;
        })
        request world h

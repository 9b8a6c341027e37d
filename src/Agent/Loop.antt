-- ===== src/Agent/Loop.antt =====
-- internal/agent/agent.go: Agent.Run. What it calls acts on a state `S`: the provider, the tools
-- and the callback.
pub mod Rules
pub mod Budget
pub mod Steps
pub mod Validated
use github_pr_review_agent.Common.{
  ℕ, zero, suc, ◌+◌, ◌-◌, ◌/◌, Bool, true, false, not, ◌&&◌, ◌||◌, Option, none, some, List, [],
  ◌∷◌, ◌++◌, Text, codes, is_empty, text_eq, trim_space, decimal, any, ltb, leb, min, if◌then◌else◌,
}
use github_pr_review_agent.Store.Transaction.{Error, broken, message, Result, ok, err}
use github_pr_review_agent.Agent.Messages.{
  byte_length, ToolCall, ChatMessage, ToolDefinition, ChatRequest, ChatResponse, ToolInvocation,
  AgentResult, ToolEnd, Environment, AgentOptions, AgentRequest, Session, or_default, plain,
  find_cached, invocation_of, tool_result_content, normalize_tool_call_ids, count_call, first_model,
  wrap, budget_notice, final_notice, repair_notice,
}
use github_pr_review_agent.Agent.Monad.{
  M, bind, ◌>>=◌, ◌>>◌, give, give_up, with_prefix, reading, update, require, say, set_content,
}
use github_pr_review_agent.Agent.Calls.{
  low_budget, exhausted, cache_key, admit, execute_tool, run_tool, cached_call, execute,
}

module _ {S : Type 0} (env : Environment S) (o : AgentOptions) where
  abbrev pub with_call : ToolInvocation → Session S → Session S
  with_call inv r = record r {
    result = record r.result { tool_calls = r.result.tool_calls ++ inv ∷ [] };
  }

  -- A call, and its entry in the result.
  unfoldable pub invoke : ToolCall → M S ToolInvocation
  unfolding execute
  invoke call r = let (inv, r') = execute env o call r in (ok inv, with_call inv r')

  unfoldable pub notify : ToolInvocation → M S (Unit {0})
  notify inv r = let (x, world) = env.on_tool_call inv r.world in (x, record r { world = world })

  abbrev pub tool_message : ToolCall → ToolInvocation → ChatMessage
  tool_message call inv = record (plain (codes "tool") (tool_result_content inv)) {
    name = call.name;
    tool_call_id = call.id;
  }

  -- The loops over the calls of a message; `prefix` is that of an error of the callback.
  unfoldable pub call_tools : (ToolCall → Text) → List ToolCall → M S (Unit {0})
  call_tools prefix [] = give tt
  call_tools prefix (call ∷ calls) = do
    inv ← invoke call
    with_prefix (prefix call) (notify inv)
    say (tool_message call inv)
    call_tools prefix calls

  unfoldable pub provider : ChatRequest → M S ChatResponse
  provider request r =
      let (x, world) = env.chat_with_tools request r.world in (x, record r { world = world })

  -- Agent.chat
  unfoldable pub chat : ChatRequest → M S ChatResponse
  unfolding provider
  chat request = elim (env.encoded_size request) [
    | err e ↦ give_up (codes "encode agent context: " ++ message e)
    | ok size ↦
        if ltb o.max_context_bytes size
        then give_up (
            codes "agent context budget exceeded: "
            ++ decimal size
            ++ codes " > "
            ++ decimal o.max_context_bytes
            ++ codes " bytes; reduce review scope")
        else provider request
  ]

  unfoldable pub validate : (Text → S → Result (Unit {0})) → Text → M S (Unit {0})
  validate check prefix r = (wrap prefix (check r.result.content r.world), r)

  -- The second half of validateFinal: one more answer, which has to pass.
  unfoldable pub repair : (Text → S → Result (Unit {0})) → Error → List ChatMessage → M S (Unit {0})
  repair check e messages = do
    response ←
        with_prefix (codes "repair final response after " ++ message e ++ codes ": ")
          (chat (record { messages = messages; tools = [] }))
    update (λ result. count_call result response)
    update (set_content response)
    require (is_empty response.tool_calls) (codes "final response repair requested tools")
    validate check (codes "final response invalid after one repair: ")

  abbrev pub repair_messages : Error → Session S → List ChatMessage
  repair_messages e r =
      r.messages
      ++ plain (codes "assistant") r.result.content ∷ plain (codes "user") (repair_notice e) ∷ []

  unfoldable pub validate_with : (Text → S → Result (Unit {0})) → M S (Unit {0})
  unfolding repair
  validate_with check r = elim (check r.result.content r.world) [
    | ok _ ↦ (ok tt, r)
    | err e ↦ repair check e (repair_messages e r) r
  ]

  unfoldable pub validate_final : M S (Unit {0})
  unfolding validate_with
  validate_final = elim env.validate_response [ none ↦ give tt | some check ↦ validate_with check ]

  -- What follows the loop: a call that may not use tools.
  unfoldable pub forced_final : M S (Unit {0})
  forced_final = do
    say (plain (codes "user") final_notice)
    response ←
        with_prefix (codes "agent final provider call: ")
          (reading (λ r. chat (record { messages = r.messages; tools = [] })))
    update (λ result. count_call result response)
    update (λ result. first_model result response)
    require (not (is_empty response.content))
        (codes "agent final provider call returned empty content")
    require (is_empty response.tool_calls) (codes "agent final provider call requested tools")
    update (set_content response)
    validate_final

  -- A round's request, with `left` rounds to go.
  unfoldable pub ask : ℕ → ℕ → M S ChatResponse
  ask step left = do
    response ← with_prefix (codes "agent provider step " ++ decimal (step + 1) ++ codes ": ") (
        reading (λ r. chat (record {
          messages = r.messages ++ plain (codes "user") (budget_notice r.remaining left) ∷ [];
          tools = env.definitions;
        })))
    update (λ result. count_call result response)
    update (λ result. first_model result response)
    give response

  unfoldable pub give_answer : ℕ → ChatResponse → M S (Unit {0})
  give_answer step response = do
    require (not (is_empty response.content)) (
        codes "agent provider step "
        ++ decimal (step + 1)
        ++ codes " returned empty content and no tool calls")
    update (set_content response)
    validate_final

  unfoldable pub use_tools : ℕ → ChatResponse → M S (Unit {0})
  use_tools step response = do
    let calls = normalize_tool_call_ids response.tool_calls (step + 1)
    say (record (plain (codes "assistant") response.content) { tool_calls = calls })
    call_tools (λ call. codes "record agent tool call " ++ env.quoted call.name ++ codes ": ") calls

  -- The rounds; `left` of them remain.
  unfoldable pub steps : ℕ → ℕ → M S (Unit {0})
  steps zero step = forced_final
  steps (suc left) step =
      let rest = steps left (step + 1) in
      let round = do
        response ← ask step (suc left)
        if is_empty response.tool_calls
            then give_answer step response
            else (do use_tools step response; rest)
      in reading (λ r. if exhausted env o r then forced_final else round)

  unfoldable pub initial_calls : List ToolCall → M S (Unit {0})
  initial_calls requested =
      let calls = normalize_tool_call_ids requested 0 in
      if is_empty requested then give tt else do
        say (record (plain (codes "assistant") []) { tool_calls = calls })
        call_tools (λ call. codes "record initial tool call: ") calls

  abbrev pub empty_result : AgentResult
  empty_result = record {
    content = [];
    tool_calls = [];
    usage = record { input_tokens = 0; output_tokens = 0; total_tokens = 0 };
    model = [];
    duration_ms = 0;
    provider_calls = 0;
  }

  abbrev pub opening : AgentRequest → S → Session S
  opening request world = record {
    messages =
        plain (codes "system") request.system_prompt
        ∷ plain (codes "user") request.user_prompt
        ∷ [];
    result = empty_result;
    cache = [];
    remaining = o.max_tool_output_bytes;
    rejected_outputs = 0;
    world = world;
  }

  abbrev pub rounds : AgentRequest → ℕ
  rounds request = or_default request.max_steps o.max_steps

  unfoldable pub run_rounds : AgentRequest → M S (Unit {0})
  run_rounds request = do
    require (not (is_empty (trim_space request.system_prompt)))
        (codes "agent system prompt is required")
    require (not (is_empty (trim_space request.user_prompt)))
        (codes "agent user prompt is required")
    initial_calls request.initial_tool_calls
    steps (rounds request) 0

  -- Agent.Run
  unfoldable pub run : AgentRequest → S → Result (Unit {0}) × Session S
  run request world = run_rounds request (opening request world)

-- ===== src/Agent/Calls.antt =====
-- internal/agent/agent.go: the closure `execute` of Agent.Run, with its cache and its budget.
use github_pr_review_agent.Common.{
  ℕ, ◌+◌, ◌-◌, ◌/◌, Bool, true, ◌||◌, Option, none, some, [], ◌∷◌, ◌++◌, Text, codes, is_empty,
  text_eq, decimal, any, ltb, leb, min, if◌then◌else◌,
}
use github_pr_review_agent.Agent.Messages.{
  byte_length, ToolCall, ToolInvocation, Environment, AgentOptions, Session, find_cached,
  invocation_of,
}

module _ {S : Type 0} (env : Environment S) (o : AgentOptions) where
  abbrev pub low_budget : ℕ
  low_budget = min 2048 (o.max_tool_output_bytes / 10)

  unfoldable pub exhausted : Session S → Bool
  exhausted r = leb r.remaining low_budget || leb 2 r.rejected_outputs

  -- The key of a call in the cache; empty for a call that is not cached.
  unfoldable pub cache_key : ToolCall → Text
  unfolding text_eq any
  cache_key call =
      if any o.cacheable_tools (λ name. text_eq name call.name)
      then elim (env.normal_arguments call.arguments) [
        | none ↦ []
        | some normalized ↦ call.name ++ normalized
      ]
      else []

  -- The accounting of the output of a tool that has not failed.
  unfoldable pub admit : Text → ToolInvocation → Session S → ToolInvocation × Session S
  unfolding byte_length
  admit key inv r =
      if ltb r.remaining (byte_length inv.output)
      then (
        record inv {
          output = [];
          error =
              codes "Tool output exceeds remaining context budget ("
              ++ decimal r.remaining
              ++ codes " bytes). Request a smaller file/range, or finish and disclose uninspected "
              ++ codes "scope.";
        },
        record r { rejected_outputs = r.rejected_outputs + 1 },
      )
      else (
        inv,
        record r {
          rejected_outputs = 0;
          remaining = r.remaining - byte_length inv.output;
          cache = (if is_empty key then r.cache else (key, inv) ∷ r.cache);
        },
      )

  -- executeTool
  unfoldable pub execute_tool : ToolCall → Session S → ToolInvocation × Session S
  execute_tool call r =
      let (end, world) = env.execute call.name call.arguments r.world in
      (
        record (invocation_of call) {
          output = end.output;
          error = end.error;
          duration_ms = end.duration_ms;
        },
        record r { world = world },
      )

  unfoldable pub run_tool : ToolCall → Session S → ToolInvocation × Session S
  unfolding execute_tool admit cache_key
  run_tool call r =
      let (inv, r') = execute_tool call r in
      if is_empty inv.error then admit (cache_key call) inv r' else (inv, r')

  -- A key that is empty is never looked up.
  unfoldable pub cached_call : ToolCall → Session S → Option ToolInvocation
  unfolding cache_key find_cached
  cached_call call r =
      if is_empty (cache_key call) then none else find_cached (cache_key call) r.cache

  -- The closure `execute`.
  unfoldable pub execute : ToolCall → Session S → ToolInvocation × Session S
  unfolding cached_call exhausted run_tool
  execute call r = elim (cached_call call r) [
    | some previous ↦ (
      record (invocation_of call) {
        cached = true;
        output =
            codes "Duplicate read; reuse the complete result of earlier tool call "
            ++ previous.id
            ++ codes ".";
      },
      r,
    )
    | none ↦
        if exhausted r
        then (
          record (invocation_of call) {
            error =
                codes "Tool output budget exhausted. Finish using collected evidence; explicitly "
                ++ codes "disclose uninspected scope.";
          },
          r,
        )
        else run_tool call r
  ]

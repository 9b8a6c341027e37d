-- ===== src/Agent/Messages.antt =====
-- internal/agent/agent.go and internal/llm/deepseek.go: what the agent, the provider and the tools
-- exchange.
use github_pr_review_agent.Common.{
  ℕ, ◌+◌, ◌==◌, Bool, false, not, Option, none, some, List, [], ◌∷◌, ◌++◌, Text, codes, is_empty,
  text_eq, decimal, ltb, if◌then◌else◌,
}
use github_pr_review_agent.Common.Json.{Fields}
use github_pr_review_agent.Store.Transaction.{Error, broken, message, Result, ok, err}

-- len of a string, which counts the bytes of its UTF-8.
unfoldable pub byte_length : Text → ℕ
byte_length [] = 0
byte_length (c ∷ s) =
    byte_length s
    + (if ltb c 0x80 then 1 else if ltb c 0x800 then 2 else if ltb c 0x10000 then 3 else 4)

pub record ToolCall : Type 0 where
  pub id : Text
  pub name : Text
  pub arguments : Text

pub record ChatMessage : Type 0 where
  pub role : Text
  pub content : Text
  pub name : Text
  pub tool_call_id : Text
  pub tool_calls : List ToolCall

pub record ToolDefinition : Type 0 where
  pub name : Text
  pub description : Text
  pub parameters : Fields

pub record ChatRequest : Type 0 where
  pub messages : List ChatMessage
  pub tools : List ToolDefinition

pub record Usage : Type 0 where
  pub input_tokens : ℕ
  pub output_tokens : ℕ
  pub total_tokens : ℕ

pub record ChatResponse : Type 0 where
  pub content : Text
  pub tool_calls : List ToolCall
  pub model : Text
  pub usage : Usage
  pub duration_ms : ℕ

pub record ToolInvocation : Type 0 where
  pub cached : Bool
  pub id : Text
  pub name : Text
  pub arguments : Text
  pub output : Text
  pub error : Text
  pub duration_ms : ℕ

pub record AgentResult : Type 0 where
  pub content : Text
  pub tool_calls : List ToolInvocation
  pub usage : Usage
  pub model : Text
  pub duration_ms : ℕ
  pub provider_calls : ℕ

-- What Registry.Execute gives: the output, the text of the error (empty: none), and the time it
-- took.
pub record ToolEnd : Type 0 where
  pub output : Text
  pub error : Text
  pub duration_ms : ℕ

-- What the loop calls. `encoded_size` is the length of json.Marshal, `normal_arguments` a valid
-- JSON text after Decode and Marshal, `quoted` is %q. A callback that is nil does nothing.
pub record Environment (S : Type 0) : Type 0 where
  pub chat_with_tools : ChatRequest → S → Result ChatResponse × S
  pub execute : Text → Text → S → ToolEnd × S
  pub on_tool_call : ToolInvocation → S → Result (Unit {0}) × S
  pub validate_response : Option (Text → S → Result (Unit {0}))
  pub definitions : List ToolDefinition
  pub encoded_size : ChatRequest → Result ℕ
  pub normal_arguments : Text → Option Text
  pub quoted : Text → Text

-- The options of agent.New, after its defaults.
pub record AgentOptions : Type 0 where
  pub max_context_bytes : ℕ
  pub max_tool_output_bytes : ℕ
  pub cacheable_tools : List Text
  pub max_steps : ℕ

pub record AgentRequest : Type 0 where
  pub initial_tool_calls : List ToolCall
  pub system_prompt : Text
  pub user_prompt : Text
  pub max_steps : ℕ

-- The local variables of Run, its result, and the state of what it calls.
pub record Session (S : Type 0) : Type 0 where
  pub messages : List ChatMessage
  pub result : AgentResult
  pub cache : List (Text × ToolInvocation)
  pub remaining : ℕ
  pub rejected_outputs : ℕ
  pub world : S

abbrev pub or_default : ℕ → ℕ → ℕ
or_default n default = if n == 0 then default else n

-- agent.New, for options that are 0 if they are not positive.
unfoldable pub new_options : AgentOptions → AgentOptions
new_options o = record o {
  max_context_bytes = or_default o.max_context_bytes 98304;
  max_tool_output_bytes = or_default o.max_tool_output_bytes 49152;
  max_steps = or_default o.max_steps 8;
}

abbrev pub plain : Text → Text → ChatMessage
plain role content = record {
  role = role;
  content = content;
  name = [];
  tool_call_id = [];
  tool_calls = [];
}

unfoldable pub find_cached : Text → List (Text × ToolInvocation) → Option ToolInvocation
unfolding text_eq
find_cached key [] = none
find_cached key ((k, inv) ∷ cache) = if text_eq k key then some inv else find_cached key cache

abbrev pub invocation_of : ToolCall → ToolInvocation
invocation_of call = record {
  cached = false;
  id = call.id;
  name = call.name;
  arguments = call.arguments;
  output = [];
  error = [];
  duration_ms = 0;
}

unfoldable pub tool_result_content : ToolInvocation → Text
tool_result_content inv =
    if not (is_empty inv.error)
    then codes "Tool execution failed: " ++ inv.error
    else if is_empty inv.output
    then codes "Tool returned an empty result."
    else inv.output

-- The ids that are missing are filled in; `round` is step + 1, and `n` the place in the list.
unfoldable pub fill_ids : ℕ → ℕ → List ToolCall → List ToolCall
fill_ids round n [] = []
fill_ids round n (call ∷ calls) =
    (if is_empty call.id
      then record call { id = codes "tool-call-" ++ decimal round ++ codes "-" ++ decimal n }
      else call)
    ∷ fill_ids round (n + 1) calls

unfoldable pub normalize_tool_call_ids : List ToolCall → ℕ → List ToolCall
unfolding fill_ids
normalize_tool_call_ids calls round = fill_ids round 1 calls

unfoldable pub add_usage : Usage → Usage → Usage
add_usage a b = record {
  input_tokens = a.input_tokens + b.input_tokens;
  output_tokens = a.output_tokens + b.output_tokens;
  total_tokens = a.total_tokens + b.total_tokens;
}

-- result.ProviderCalls++ and what follows it.
unfoldable pub count_call : AgentResult → ChatResponse → AgentResult
unfolding add_usage
count_call result response = record result {
  provider_calls = result.provider_calls + 1;
  usage = add_usage result.usage response.usage;
  duration_ms = result.duration_ms + response.duration_ms;
}

unfoldable pub first_model : AgentResult → ChatResponse → AgentResult
first_model result response = record result {
  model = (if is_empty result.model then response.model else result.model);
}

abbrev pub wrap {ℓ} : {A : Type ℓ} → Text → Result A → Result A
wrap prefix (ok a) = ok a
wrap prefix (err e) = err (broken (prefix ++ message e))

-- The notice of each round: `left` rounds remain.
pub budget_notice : ℕ → ℕ → Text
budget_notice remaining left =
    codes "Remaining tool output budget: "
    ++ decimal remaining
    ++ codes " bytes; "
    ++ decimal left
    ++ codes " tool rounds remain. Prioritize changed production code and evidence for suspected "
    ++ codes
        "defects. Use targeted file/range reads; avoid full-repository diffs, generated reports "
    ++ codes "and unrelated context. Reserve budget for validating cross-file references. If "
    ++ codes "coverage is incomplete, disclose it in the final summary; do not equate missing "
    ++ codes "evidence with a clean review."

pub final_notice : Text
final_notice =
    codes "The tool-calling budget is exhausted. Do not request more tools. "
    ++ codes "Return the final JSON answer now using the information already collected. Explicitly "
    ++ codes "disclose uninspected scope and failed checks in the summary; do not claim complete "
    ++ codes "coverage."

pub repair_notice : Error → Text
repair_notice e =
    codes "Your final response failed validation: "
    ++ message e
    ++ codes
        ". Re-emit exactly one valid JSON object matching the required schema, with summary and "
    ++ codes
        "findings array (use [] for no findings). No introductory explanation, Markdown, or tool "
    ++ codes "calls. Fix JSON escaping. Preserve supported review conclusions, correct finding "
    ++ codes
        "locations when requested by validation, and quote only evidence already retrieved. Omit "
    ++ codes
        "unsupported findings and update the summary accordingly; do not invent new findings or "
    ++ codes "tool results."

-- ===== src/Tests/Agent.antt =====
-- internal/agent and the review by the agent on a concrete pull request.
use github_pr_review_agent.Common.{
  ℕ, ◌+◌, ◌≤◌, ◌==◌, false, none, some, List, [], ◌∷◌, Text, ◌*◌, length, codes, trim_space, All,
  arith, decimal, ◌≡◌, refl, sym, subst, if◌then◌else◌,
}
use github_pr_review_agent.Common.Json.{end, field, scalar}
use github_pr_review_agent.Store.Tables.{NewReviewResult}
use github_pr_review_agent.Store.Transaction.{Result, ok}
use github_pr_review_agent.Agent.Messages.{
  ToolCall, ChatRequest, ChatResponse, Environment, AgentOptions, AgentRequest,
  normalize_tool_call_ids, tool_result_content, count_call, first_model,
}
use github_pr_review_agent.Agent.Tools.{Tool, Registry, new_registry, find_tool, registry_execute}
use github_pr_review_agent.Agent.Monad.{
  ◌>>=◌, ◌>>◌, give, give_up, with_prefix, reading, update, require, say,
}
use github_pr_review_agent.Agent.Calls.{exhausted, execute}
use github_pr_review_agent.Agent.Loop.{
  forced_final, ask, give_answer, use_tools, call_tools, invoke, notify, chat, provider,
  validate_final, repair, validate, steps, initial_calls, rounds, run_rounds, run,
}
use github_pr_review_agent.Agent.Loop.Budget.{spent, run_budget, run_requests}
use github_pr_review_agent.Agent.Loop.Steps.{CountsCalls, run_steps}
use github_pr_review_agent.Review.Evidence.Corpus.{parse_evidence_corpus}
use github_pr_review_agent.Review.Evidence.Findings.{validate_review_candidate}
use github_pr_review_agent.Review.Evidence.Findings.Kept.{Publishable}
use github_pr_review_agent.Review.AgentService.{Services, Target, run_agent, agent_analysis}
use github_pr_review_agent.Review.AgentService.Evidenced.{
  outputs, agent_analysis-Publishable, agent_analysis-ok,
}
use github_pr_review_agent.Tests.Evidence.{json, finding}
use github_pr_review_agent.Tests.Prompt.{changed}

-- The tool gives the text that decodes as a diff.
abbrev read_diff : Tool ℕ
read_diff = record {
  name = codes " read_diff";
  description = codes "The diff of a file";
  schema = field (codes "type") scalar end;
  execute = λ input n. (record { output = codes "read_diff"; error = []; duration_ms = 3 }, n);
}

abbrev quoted : Text → Text
quoted name = name

abbrev the_registry : Registry ℕ
the_registry = (codes "read_diff", read_diff) ∷ []

registered : new_registry quoted (some read_diff ∷ []) ≡ ok the_registry
unfolding new_registry trim_space find_tool
registered = refl

abbrev call : ToolCall
call = record { id = []; name = codes "read_diff"; arguments = codes "{}" }

-- First the tools are called, in the same way twice; then the answer is given.
abbrev answer_number : ℕ → ChatResponse
answer_number n = record {
  content = (if n == 0 then [] else codes "one");
  tool_calls = (if n == 0 then call ∷ call ∷ [] else []);
  model = codes "m";
  usage = record { input_tokens = 5; output_tokens = 1; total_tokens = 6 };
  duration_ms = 4;
}

-- The state counts the calls of the provider.
abbrev services : Services ℕ
services = record {
  json = json;
  quoted = quoted;
  decode_arguments = λ arguments. ok end;
  normal_arguments = λ arguments. some arguments;
  encoded_size = λ request. ok 1000;
  system_prompt = codes "Review.";
  pull_request = ok tt;
  files = ok (changed, false);
  tools = some read_diff ∷ [];
  chat_with_tools = λ request n. (ok (answer_number n), n + 1);
  create_tool_call_log = λ inv n. (ok tt, n);
}

abbrev target : Target
target = record { owner = codes "octo"; repo = codes "cat"; number = 7 }

abbrev options : AgentOptions
options = record {
  max_context_bytes = 2000;
  max_tool_output_bytes = 100;
  cacheable_tools = codes "read_diff" ∷ [];
  max_steps = 3;
}

abbrev reviewed : NewReviewResult
reviewed = record {
  task_id = 0;
  summary = codes "A bug";
  findings = finding ∷ [];
  raw_response = codes "one";
  model = codes "m";
  input_tokens = 10;
  output_tokens = 2;
  total_tokens = 12;
  llm_duration_ms = 8;
}

analysed : agent_analysis services target options 0 ≡ ok reviewed
unfolding agent_analysis ◌>>=◌ ◌>>◌ give give_up with_prefix reading update require say trim_space
    find_tool forced_final ask give_answer use_tools call_tools exhausted execute invoke notify chat
    provider validate_final repair validate run run_rounds initial_calls steps
    normalize_tool_call_ids tool_result_content count_call first_model registry_execute decimal
    validate_review_candidate
analysed = refl

-- The run ends with an answer that is validated.
run_succeeds : (run_agent services target options the_registry changed 0).0 ≡ ok tt
unfolding run_agent ◌>>=◌ ◌>>◌ give give_up with_prefix reading update require say trim_space
    find_tool forced_final ask give_answer use_tools call_tools exhausted execute invoke notify chat
    provider validate_final repair validate run run_rounds initial_calls steps
    normalize_tool_call_ids tool_result_content count_call first_model registry_execute decimal
    validate_review_candidate
run_succeeds = refl

agent_analysis-Publishable_example :
    All
      (Publishable (
        parse_evidence_corpus json
          (outputs services target options 0 the_registry registered changed false)))
      reviewed.findings
agent_analysis-Publishable_example =
    agent_analysis-Publishable services target options 0 the_registry registered changed false
      reviewed refl analysed

agent_analysis-ok_example :
    (input : NewReviewResult) × (agent_analysis services target options 0 ≡ ok input)
agent_analysis-ok_example =
    agent_analysis-ok services target options 0 the_registry registered changed false refl refl
      run_succeeds

-- A provider that notes the size of every request.
abbrev size_of : ChatRequest → ℕ
size_of request = 100 * length request.messages

abbrev noting : Environment (List ℕ)
noting = record {
  chat_with_tools = λ request s. (ok (answer_number (length s)), size_of request ∷ s);
  execute =
      λ name arguments s. (record { output = codes "read_diff"; error = []; duration_ms = 3 }, s);
  on_tool_call = λ inv s. (ok tt, s);
  validate_response = none;
  definitions = [];
  encoded_size = λ request. ok (size_of request);
  normal_arguments = λ arguments. some arguments;
  quoted = quoted;
}

abbrev asked : AgentRequest
asked = record {
  initial_tool_calls = [];
  system_prompt = codes "Review.";
  user_prompt = codes "Review pull request octo/cat#7.";
  max_steps = 0;
}

run_budget_example :
    spent (run noting options asked []).1.result.tool_calls
      + (run noting options asked []).1.remaining
    ≡ 100
run_budget_example = run_budget noting options asked []

-- The sizes that the provider notes count its calls.
noted : CountsCalls noting length
noted = record {
  asks = λ request s. omega arith;
  executes = λ name arguments s. omega arith;
  reports = λ inv s. omega arith;
}

abbrev no_sizes : List ℕ
no_sizes = []

run_steps_example :
    (length (run noting options asked no_sizes).1.world
      ≤ length no_sizes + rounds noting options asked + 2)
    × ((run noting options asked no_sizes).1.result.provider_calls
        ≤ rounds noting options asked + 2)
run_steps_example = run_steps noting options length noted asked no_sizes

abbrev Within : List ℕ → Type 0
Within = All (λ size. size ≤ 2000)

ok_injective : (m n : ℕ) → ◌≡◌ {A = Result ℕ} (ok m) (ok n) → m ≡ n
ok_injective m n h = cc

sends-Within :
    (request : ChatRequest) (size : ℕ) (s : List ℕ)
    → noting.encoded_size request ≡ ok size
    → size ≤ 2000
    → Within s
    → Within (noting.chat_with_tools request s).1
sends-Within request size s e fits h =
    (subst (λ n. n ≤ 2000) (sym (ok_injective (size_of request) size e)) fits, h)

run_requests_example : Within (run noting options asked []).1.world
run_requests_example =
    run_requests noting options Within sends-Within (λ name arguments s h. h) (λ inv s h. h) asked
      [] tt

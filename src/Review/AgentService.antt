-- ===== src/Review/AgentService.antt =====
-- internal/review/agent_service.go: AgentService.ReviewPR, in which the agent reviews with tools.
pub mod Evidenced
use github_pr_review_agent.Common.{
  ℕ, Bool, true, false, not, ◌&&◌, ◌||◌, Option, none, some, List, [], ◌∷◌, ◌++◌, Text, codes,
  is_empty, text_eq, trim_space, has_prefix, any, decimal, if◌then◌else◌,
}
use mathlib.Core.List.{reverse}
use github_pr_review_agent.Common.Json.{Fields}
use github_pr_review_agent.Store.Tables.{NewReviewResult, Database}
use github_pr_review_agent.Store.Transaction.{Error, broken, message, Result, ok, err}
use github_pr_review_agent.Github.Reviews.{Host}
use github_pr_review_agent.Review.Delivery.{Attempt, review_pr}
use github_pr_review_agent.Review.Evidence.Corpus.{Json}
use github_pr_review_agent.Review.Evidence.Findings.{
  ParsedReview, parse_review_response, validate_review_candidate,
}
use github_pr_review_agent.Review.Prompt.{PullRequestFile, is_docs_only_pr}
use github_pr_review_agent.Review.Service.{skipped_review, summary_with_note}
use github_pr_review_agent.Agent.Messages.{
  ToolCall, ChatRequest, ChatResponse, ToolInvocation, AgentResult, ToolDefinition, ToolEnd,
  Environment, AgentOptions, AgentRequest, Session, new_options,
}
use github_pr_review_agent.Agent.Tools.{Tool, Registry, new_registry, definitions, registry_execute}
use github_pr_review_agent.Agent.Loop.{run}

-- What the review calls, which acts on a state `W`: the toolkit's pull request, files and tools,
-- the provider, and the store's log of tool calls; with the JSON, the %q and the texts of the
-- prompts.
pub record Services (W : Type 0) : Type 0 where
  pub json : Json
  pub quoted : Text → Text
  pub decode_arguments : Text → Result Fields
  pub normal_arguments : Text → Option Text
  pub encoded_size : ChatRequest → Result ℕ
  pub system_prompt : Text
  pub pull_request : Result (Unit {0})
  pub files : Result (List PullRequestFile × Bool)
  pub tools : List (Option (Tool W))
  pub chat_with_tools : ChatRequest → W → Result ChatResponse × W
  pub create_tool_call_log : ToolInvocation → W → Result (Unit {0}) × W

pub record Target : Type 0 where
  pub owner : Text
  pub repo : Text
  pub number : ℕ

-- The variable toolOutputs, beside the state of the services.
pub record Collected (W : Type 0) : Type 0 where
  pub tool_outputs : List Text
  pub outside : W

abbrev wrap {ℓ} : {A : Type ℓ} → Text → Result A → Result A
wrap prefix (ok a) = ok a
wrap prefix (err e) = err (broken (prefix ++ message e))

abbrev pub cacheable_tools : List Text
cacheable_tools =
    codes "get_pr_meta"
    ∷ codes "list_changed_files"
    ∷ codes "read_diff"
    ∷ codes "read_file_context"
    ∷ codes "get_commit_history"
    ∷ codes "search_references"
    ∷ codes "retrieve_code_context"
    ∷ []

-- strings.HasSuffix
pub has_suffix : Text → Text → Bool
unfolding has_prefix
has_suffix s suffix = has_prefix (reverse s) (reverse suffix)

-- The go.mod file is read first where the pull request changes Go code.
pub initial_tools : List PullRequestFile → List ToolCall
unfolding any has_suffix text_eq
initial_tools files =
    if any files (λ f. has_suffix f.filename (codes ".go") || text_eq f.filename (codes "go.mod"))
    then record {
      id = codes "repository-go-version";
      name = codes "read_file_context";
      arguments = codes "{\"path\":\"go.mod\",\"start_line\":1,\"end_line\":80}";
    }
      ∷ []
    else []

module _ {W : Type 0} (s : Services W) where
  -- recordToolCall
  pub record_tool_call : ToolInvocation → W → Result (Unit {0}) × W
  record_tool_call inv w =
      let (x, w') = s.create_tool_call_log inv w in (wrap (codes "create tool call log: ") x, w')

  abbrev pub collects : ToolInvocation → Bool
  collects inv = is_empty inv.error && not inv.cached

  pub collect : ToolInvocation → Result (Unit {0}) → Collected W → Result (Unit {0}) × Collected W
  collect inv (err e) c = (err e, c)
  collect inv (ok _) c = (
    ok tt,
    record c {
      tool_outputs = (if collects inv then c.tool_outputs ++ inv.output ∷ [] else c.tool_outputs);
    },
  )

  -- OnToolCall
  pub on_tool_call : ToolInvocation → Collected W → Result (Unit {0}) × Collected W
  unfolding record_tool_call collect
  on_tool_call inv c =
      let (x, w) = record_tool_call inv c.outside in collect inv x (record c { outside = w })

  -- ValidateResponse
  abbrev pub check : Text → Collected W → Result (Unit {0})
  check content c = validate_review_candidate s.json content c.tool_outputs

  pub environment : Registry W → Environment (Collected W)
  unfolding on_tool_call
  environment registry = record {
    chat_with_tools = λ request c.
        let (x, w) = s.chat_with_tools request c.outside in (x, record c { outside = w });
    execute = λ name arguments c.
        let (end, w) =
          registry_execute s.quoted s.decode_arguments registry name arguments c.outside in
        (end, record c { outside = w });
    on_tool_call = on_tool_call;
    validate_response = some check;
    definitions = definitions registry;
    encoded_size = s.encoded_size;
    normal_arguments = s.normal_arguments;
    quoted = s.quoted;
  }

  abbrev pub request_of : Target → AgentOptions → List PullRequestFile → AgentRequest
  request_of target o files = record {
    initial_tool_calls = initial_tools files;
    system_prompt = s.system_prompt;
    user_prompt =
        codes "Review pull request "
        ++ target.owner
        ++ codes "/"
        ++ target.repo
        ++ codes "#"
        ++ decimal target.number
        ++ codes " using the available tools.";
    max_steps = o.max_steps;
  }

  -- The run, from which the tool outputs are left.
  unfoldable pub run_agent :
      Target
      → AgentOptions
      → Registry W
      → List PullRequestFile
      → W
      → Result (Unit {0}) × Session (Collected W)
  unfolding run environment new_options initial_tools
  run_agent target o registry files w =
      run (environment registry) (new_options o) (request_of target o files)
        (record { tool_outputs = []; outside = w })

  pub agent_result : AgentResult → Bool → ParsedReview → NewReviewResult
  unfolding summary_with_note
  agent_result result files_truncated parsed = record {
    task_id = 0;
    summary = summary_with_note files_truncated parsed.summary;
    findings = parsed.findings;
    raw_response = result.content;
    model = result.model;
    input_tokens = result.usage.input_tokens;
    output_tokens = result.usage.output_tokens;
    total_tokens = result.usage.total_tokens;
    llm_duration_ms = result.duration_ms;
  }

  -- What follows the run.
  pub conclude : Bool → Result (Unit {0}) × Session (Collected W) → Result NewReviewResult
  unfolding parse_review_response agent_result
  conclude files_truncated (err e, r) = err (broken (codes "run review agent: " ++ message e))
  conclude files_truncated (ok _, r) =
      elim (parse_review_response s.json r.result.content r.world.tool_outputs) [
        | err e ↦ err e
        | ok parsed ↦ ok (agent_result r.result files_truncated parsed)
      ]

  pub review_with_tools :
      Target → AgentOptions → W → List PullRequestFile → Bool → Result NewReviewResult
  unfolding new_registry run_agent conclude
  review_with_tools target o w files files_truncated = elim (new_registry s.quoted s.tools) [
    | err e ↦ err (broken (codes "register github tools: " ++ message e))
    | ok registry ↦ conclude files_truncated (run_agent target o registry files w)
  ]

  pub with_files :
      Target → AgentOptions → W → Result (List PullRequestFile × Bool) → Result NewReviewResult
  unfolding is_docs_only_pr review_with_tools
  with_files target o w (err e) =
      err (broken (codes "get pull request files before agent review: " ++ message e))
  with_files target o w (ok (files, files_truncated)) =
      if not files_truncated && (is_empty files || is_docs_only_pr files)
      then ok (skipped_review files)
      else review_with_tools target o w files files_truncated

  -- What ReviewPR does between resumeReview and finishReview.
  unfoldable pub agent_analysis : Target → AgentOptions → W → Result NewReviewResult
  unfolding with_files
  agent_analysis target o w = elim s.pull_request [
    | err e ↦ err (broken (codes "get pull request before agent review: " ++ message e))
    | ok _ ↦ with_files target o w s.files
  ]

  -- ReviewPR. The toolkit reads the pull request at the head, whatever commit resumeReview found.
  unfoldable pub agent_review_pr :
      (h : Host)
      → Target
      → AgentOptions
      → W
      → Attempt
      → ℕ
      → Database × h.State
      → Result (Unit {0}) × Database × h.State
  unfolding review_pr agent_analysis
  agent_review_pr h target o w a id site = review_pr h a id (λ head. agent_analysis target o w) site

-- ===== src/Review/AgentService/Evidenced.antt =====
-- AgentService.ReviewPR (internal/review/agent_service.go): what its analysis gives.
use github_pr_review_agent.Common.{
  Bool, not, ◌&&◌, ◌||◌, List, [], Text, is_empty, All, ◌≡◌, refl, subst, inl, inr, arith,
  Bool-cases,
}
use github_pr_review_agent.Store.Tables.{NewReviewResult}
use github_pr_review_agent.Store.Transaction.{Result, ok, err, Result-cases}
use github_pr_review_agent.Review.Evidence.Corpus.{parse_evidence_corpus}
use github_pr_review_agent.Review.Evidence.Findings.{
  parse_review_response, validate_review_candidate,
}
use github_pr_review_agent.Review.Evidence.Findings.Kept.{Publishable}
use github_pr_review_agent.Review.Evidence.Findings.Diagnosed.{parse_review_response-diagnose}
use github_pr_review_agent.Review.Evidence.Findings.Candidates.{validate_review_candidate-ok}
use github_pr_review_agent.Review.Prompt.{PullRequestFile, is_docs_only_pr}
use github_pr_review_agent.Review.Service.{skipped_review}
use github_pr_review_agent.Review.Service.Analysed.{
  skipped_review-Publishable, parse_review_response-Publishable,
}
use github_pr_review_agent.Agent.Messages.{AgentOptions, Session, new_options}
use github_pr_review_agent.Agent.Tools.{Registry, new_registry}
use github_pr_review_agent.Agent.Loop.Validated.{run-Passes}
use github_pr_review_agent.Review.AgentService.{
  Services, Target, Collected, check, environment, run_agent, agent_result, conclude,
  review_with_tools, with_files, agent_analysis, request_of,
}

module _ {W : Type 0} (s : Services W) (target : Target) (o : AgentOptions) (w : W) where
  conclude-Publishable :
      (files_truncated : Bool) (ended : Result (Unit {0}) × Session (Collected W))
      (input : NewReviewResult)
      → conclude s files_truncated ended ≡ ok input
      → All (Publishable (parse_evidence_corpus s.json ended.1.world.tool_outputs)) input.findings
  unfolding conclude agent_result
  conclude-Publishable files_truncated (err e, r) input h = absurd (cc)
  conclude-Publishable files_truncated (ok a, r) input h =
      elim (Result-cases (parse_review_response s.json r.result.content r.world.tool_outputs)) [
        | inr (e, bad) ↦ absurd (ground arith)
        | inl (parsed, good) ↦
            let same : parsed.findings ≡ input.findings = ground arith in
            subst (All (Publishable (parse_evidence_corpus s.json r.world.tool_outputs))) same (
              parse_review_response-Publishable s.json r.result.content r.world.tool_outputs parsed
                good)
      ]

  module _ (registry : Registry W) (registered : new_registry s.quoted s.tools ≡ ok registry)
      (files : List PullRequestFile) (files_truncated : Bool) where
    -- The tool outputs that the run has collected when it ends.
    abbrev pub outputs : List Text
    outputs = (run_agent s target o registry files w).1.world.tool_outputs

    with_files-Publishable :
        (input : NewReviewResult)
        → with_files s target o w (ok (files, files_truncated)) ≡ ok input
        → All (Publishable (parse_evidence_corpus s.json outputs)) input.findings
    unfolding with_files review_with_tools
    with_files-Publishable input h =
        elim (Bool-cases (not files_truncated && (is_empty files || is_docs_only_pr files))) [
          | inl skip ↦
              let same : (skipped_review files).findings ≡ input.findings = ground arith in
              subst (All (Publishable (parse_evidence_corpus s.json outputs))) same
                (skipped_review-Publishable (parse_evidence_corpus s.json outputs) files)
          | inr review ↦
              conclude-Publishable files_truncated (run_agent s target o registry files w) input
                (ground arith)
        ]

    -- Whatever the language model answers: a review that the agent gives has only findings that may
    -- be published, each with evidence that is verified in the outputs of tools that the run
    -- collected.
    pub agent_analysis-Publishable :
        (input : NewReviewResult)
        → s.files ≡ ok (files, files_truncated)
        → agent_analysis s target o w ≡ ok input
        → All (Publishable (parse_evidence_corpus s.json outputs)) input.findings
    unfolding agent_analysis
    agent_analysis-Publishable input listed h = elim (Result-cases s.pull_request) [
      | inr (e, bad) ↦ absurd (ground arith)
      | inl (a, read) ↦ with_files-Publishable input (ground arith)
    ]

    -- The answer of a run that succeeds has passed validateReviewCandidate.
    run_agent-validated :
        (run_agent s target o registry files w).0 ≡ ok tt
        → validate_review_candidate s.json
            (run_agent s target o registry files w).1.result.content
            outputs
          ≡ ok tt
    unfolding run_agent
    run_agent-validated h =
        run-Passes (environment s registry) (new_options o) (request_of s target o files)
          (record { tool_outputs = []; outside = w }) h (check s) (unfold environment in refl)

    conclude-ok :
        (ended : Result (Unit {0}) × Session (Collected W))
        → ended.0 ≡ ok tt
        → validate_review_candidate s.json ended.1.result.content ended.1.world.tool_outputs ≡ ok tt
        → (input : NewReviewResult) × (conclude s files_truncated ended ≡ ok input)
    unfolding conclude
    conclude-ok (err e, r) ended valid = absurd (cc)
    conclude-ok (ok a, r) ended valid =
        let content = r.result.content in
        let (d, decoded, fine) =
          (validate_review_candidate-ok s.json content r.world.tool_outputs).0 valid in
        let (parsed, good, sorts, total, kept, omitted) =
          parse_review_response-diagnose s.json content r.world.tool_outputs d decoded in
        (agent_result s r.result files_truncated parsed, rw (good, conclude) refl)

    -- A run that succeeds is never wasted: its answer has been validated against the same outputs,
    -- so that it is parsed with no error and the analysis gives a review.
    pub agent_analysis-ok :
        s.pull_request ≡ ok tt
        → s.files ≡ ok (files, files_truncated)
        → (run_agent s target o registry files w).0 ≡ ok tt
        → (input : NewReviewResult) × (agent_analysis s target o w ≡ ok input)
    unfolding agent_analysis with_files review_with_tools
    agent_analysis-ok read listed h =
        elim (Bool-cases (not files_truncated && (is_empty files || is_docs_only_pr files))) [
          | inl skip ↦ (skipped_review files, ground arith)
          | inr review ↦
              let (input, good) =
                conclude-ok (run_agent s target o registry files w) h (run_agent-validated h) in
              (input, ground arith)
        ]

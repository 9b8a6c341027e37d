-- ===== src/Lib.antt =====
-- The verification library of the GitHub PR review agent (a Go service).
--
-- The service receives GitHub webhooks, stores one review task per delivery in MySQL, and puts its
-- id on a RabbitMQ queue. Workers take the messages, lock the pull request, claim the task, let a
-- language model review the pull request, save the result and publish it as a GitHub review. A task
-- that fails is retried with a growing delay and ends in the dead letters.
--
-- Files and what they model (paths from the root of the repository):
--   Common: Boolean tests on numbers, lists, texts (lists of code points) and their lines, signed
--     numbers, decimals, JSON values.
--   Store/Tables, Store/Rows, Store/Transaction: the tables of internal/store/migrations, a row as
--     scanTask reads it, and a call of the database. A call has a fault: none, the first statement
--     that fails, or a commit that takes effect although its answer is lost. A transaction that does
--     not commit leaves the tables as they were.
--   Store/AuditLogs: insertAuditLog of internal/store/audit.go.
--   Store/Creation: CreateTask; Store/Transitions: UpdateTaskStatus, ClaimTask, MarkTaskRetry,
--     MarkTaskDeadLetter, RequeueTask and TouchQueuedTask; Store/Queries: the listings (all of
--     internal/store/mysql.go).
--   Store/Reviews: CreateReviewResult, GetReviewResultByTaskID and internal/store/review_delivery.go.
--   Store/Changes: the contract of the store, a relation of the tables before and after a call.
--   Store/Moves, Store/Trail: the audit entry of a change of status, and what the audit log tells.
--   Store/Histories: any sequence of operations with any faults.
--   Queue/Connection, Queue/Publishing, Queue/Delivery: internal/queue/rabbitmq.go, what RabbitBroker
--     opens and closes, publishes and settles. The server's answers to each step are parameters.
--   Queue: internal/queue/queue.go. A broker confirms a message, loses it, or takes it without its
--     confirmation arriving.
--   Worker/Options, Worker/Delay, Worker/Names, Worker/Failure, Worker/Process, Worker/Recovery:
--     internal/worker/worker.go, from New and retryDelay to process and the two recovery scans. The
--     lock's answer, the broker, the clock, the random number and the review itself are parameters of
--     a call of process.
--   Github/Reviews: internal/github/reviews.go. GitHub is a parameter: a state with the reviews of
--     the pull request, and a POST that adds one.
--   Review/Comment: buildReviewComment of internal/review/service.go.
--   Review/Evidence: how a finding of the model is checked against what the model was shown
--     (internal/review/service.go and internal/review/diff_evidence.go). Patch reads the hunks of a
--     patch as patchEvidence does; Sections has the matching on raw texts; Corpus has the parsed
--     corpus and the matching on it; Markdown has extractJSONObject; Findings goes from
--     parseReviewResponse and DiagnoseRejectedFindings to validateReviewCandidate.
--   Review/Prompt: the fetching of files and the texts that the model is shown.
--   Review/Service: ReviewPR of internal/review/service.go. It gives Review/Delivery the review to
--     publish.
--   Review/AgentService: ReviewPR of internal/review/agent_service.go, by the agent and its tools.
--   Agent/Messages, Agent/Tools: the messages of internal/llm/deepseek.go that the agent exchanges,
--     and the registry of internal/agent/tool.go.
--   Agent/Calls, Agent/Loop, Agent/Monad: internal/agent/agent.go, the calls of tools within their
--     bounds, the rounds with the provider, the forced final answer and the validation with its one
--     repair, as a program on an outside state that can fail. The provider, the tools and the
--     callbacks change that state and are parameters. Agent/Loop/Rules has the rules of a triple of
--     a condition before, a program and a condition after.
--   Review/Delivery: internal/review/delivery.go and its use by ReviewPR of
--     internal/review/service.go. What ReviewPR does between resumeReview and finishReview is a
--     parameter here, which Review/Service and Review/AgentService fill. An attempt meets a fault
--     in each store call, any answer of GetPullRequest, a listing request that fails, and a POST
--     that is refused, answered, or carried out with its answer lost.
--   Codecontext: internal/codecontext/codecontext.go. Targets has the requested lines and the lines of
--     the file, Symbols the search in the syntax tree, Content the text within the limit of lines,
--     Extraction puts them together. The parser of tree-sitter is a parameter: it gives the nodes
--     around a range of bytes, from the smallest to the root.
--   Webhook: internal/webhook/handler.go, with VerifyWebhookSignature of internal/github/auth.go. The
--     HMAC and json.Unmarshal are parameters.
--   Lock: internal/lock/lock.go. What Redis does with GET, SET and DEL is a parameter with laws.
--   Taskapi/Requeue: the handler requeue of internal/taskapi/handler.go.
--   Tests: concrete runs.
--
-- Choices: times and durations are nanoseconds; the rounding of TIMESTAMP(3) is not modelled, nor is
-- the case-insensitive collation of MySQL. int64 products of retryDelay wrap around. Texts are valid
-- UTF-8, and strings.ToLower is modelled on ASCII letters. An UPDATE that changes nothing does not
-- touch updated_at. AUTO_INCREMENT may skip numbers. Rows that ORDER BY does not tell apart come in
-- one of the orders. The texts of driver errors are carried unchanged. A list of rows has the newest
-- first. The digits of a number take the number itself as fuel, which is enough; the listing of reviews
-- reads at most 100 pages, as the code does. The batches of fetchFileContents take the number of the
-- files as fuel, which is enough since each batch has a file; the results of a batch are put together
-- in its order, and a batch of concurrent reads is a sequence of them. The rounds of the agent are a
-- structural recursion on MaxSteps. The lines that patchEvidence counts are 64-bit signed integers
-- that wrap around. Lengths for the budgets are the bytes of the UTF-8 form. The limits of the options
-- are natural numbers: a negative one acts as 0. A JSON object is the list of its fields in the order
-- that the decoder gives, which stands for the order in which a map is read. An index out of the range
-- of a list of lines is a panic, modelled as none.
--
-- Not modelled: the loop in which the RabbitMQ client consumes with its goroutines, the rate
-- limiter, the readings of the task API, the tools that read the repository for the model
-- (internal/githubtools), the HTTP of the clients of GitHub and of the language model, the
-- statistics and migrations of the store, the configuration, the programs under cmd and the
-- evaluation under eval: what the modelled parts need of them is a parameter. The JSON functions,
-- the formatting with %q, the text of agentSystemPrompt, the timeouts of tools and nil receivers
-- are not modelled either.
pub mod Codecontext
pub mod Common
pub mod Store
pub mod Queue
pub mod Worker
pub mod Github
pub mod Agent
pub mod Review
pub mod Webhook
pub mod Lock
pub mod Taskapi
pub mod Tests

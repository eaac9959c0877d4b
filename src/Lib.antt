-- ===== src/Lib.antt =====
-- RiskKernel: a verification library for the governance kernel of the repository.
--
-- The program puts a budget around an agent's run. A governor (internal/governor) counts iterations,
-- tokens and dollars and halts the run when a budget is used up. The run manager (internal/runs)
-- keeps the live runs, writes each change through to a store (internal/storage) and rebuilds runs
-- from it after a crash. The gateway (internal/gateway) runs the governed cycle around a provider
-- call: begin a step, check the ceiling, route and call the provider, price the answer
-- (internal/pricing) and record it. The MCP gateway (internal/mcp) governs a tool call: an
-- allowlist, an approval by a human (internal/approval) where the policy asks for one, and an audit
-- record. Policy bundles (internal/policy) are validated and can be run dry over a recorded run. The
-- OpenTelemetry ingress (internal/otel) meters calls that went past the gateway, the audit
-- (internal/audit) exports a run as a hash-chained log, the memory reader (internal/memory) reads a
-- user's directory, the HTTP API (internal/httpapi) gives clients the runs, approvals and policies, and
-- the configuration (internal/config) supplies the default budget.
--
-- Base        shared names: Go's fixed-width integers (Int), strings (Text), float64 as a type with
--             operations (Float), time and contexts (Clock), path.Match (Glob), the splitting and
--             trimming of texts (Split).
-- Governor    internal/governor/governor.go: the state of a run and its guard methods (new is New,
--             pre_step is PreStep, and so on). Ceiling: what each guard decides. Halts and Trace:
--             any sequence of calls, and the invariant of a halted run. Loops: the loop counter.
-- Pricing     internal/pricing/pricing.go. Prefix: the longest-prefix loop. Table: Rate and NewTable.
-- Storage     internal/storage: the records and the Store interface; Sqlite fills the interface with
--             the SQLite backend as tables; Summary: SummarizeLedger; Listings: facts.go and the
--             listings; Postgres with Reports: postgres.go; Backends: the writes of the interface on
--             either backend. Tables: what a write does to later reads. Conserved, Lookups, Agreement,
--             Decisions and Backed hold the proofs.
-- Runs        internal/runs/manager.go: the methods of a run. Manager: the live runs and restoring.
--             Text, Writes, Resume, Rollback, Halted, Registry and Reload hold the proofs.
-- Approval    internal/approval/policy.go; Gate is gate.go; Slack is slack.go with the callback of
--             internal/httpapi/slack.go. Rules, Decisions, Lost, Signed and Stale hold the proofs.
-- Policy      internal/policy/policy.go and dryrun.go.
-- Gateway     internal/gateway/gateway.go and internal/provider/registry.go: governedCall, its proofs in
--             Calls; Streams: streamCall, its proofs in Streamed.
-- Provider    internal/provider: the request, and how an exchange with a server ends; Anthropic, OpenAi,
--             Ollama and Bedrock are the adapters; Sse: the loop that forwards an event stream and
--             reads its lines; Streams: the stream as streamCall sees it; SigV4: sigv4.go. Lines,
--             Pumped, Usage, Metered, Adapters, Counts and Encoded hold the proofs.
-- Front       internal/gateway/openai.go and anthropic.go: the two entrypoints. Agree and Shown hold the
--             proofs.
-- Mcp         internal/mcp/gateway.go. Allowed, Closed and Audit hold the proofs.
-- Audit       internal/audit/compliance.go. Order, Built and Chain hold the proofs.
-- Config      internal/config/config.go, with toGovernorBudget of internal/app/bootstrap.go: the readers
--             of the environment; DotEnv: the .env file and Load. Kept, Bounds, Defaults and Names hold
--             the proofs.
-- Memory      internal/memory/reader.go. Path: Clean, Join, IsLocal, Ext and Base of path/filepath on
--             Unix; Titles: the titles of the files; Safe: the proofs.
-- Http        internal/httpapi: the bearer token of server.go, and the handlers of runs.go; Approvals:
--             the handlers of approvals.go; Policies: those of policies.go. Auth, Budgets, Kill, Owned
--             and Registered hold the proofs.
-- Otel        internal/otel/ingress.go. Metered, Counted and Others hold the proofs.
-- Sample      values for the tests, which stand in a module Tests of each part.
--
-- How the state is modelled. A method that holds the mutex from its first to its last line is one
-- function from the state before to the state after; where the program releases it for longer, the
-- model has separate steps (open_request, register and await of the gate; commit of GetOrCreate), or
-- takes what others do in between as an argument (`during` of a provider call, `meanwhile` of a
-- waiting tool call). BeginStep and RecordCall take the governor's lock, the run's and the store's
-- one after the other; the model runs each as one step, as if no other call of that run came in
-- between. Clocks, minted ids, the provider's answer and the order in which `range` visits a map are
-- arguments. An int32 or int64 wraps where the source's does. float64 is a type parameter with the
-- operations that the program applies to it. A nil store is `none`. A write that fails answers an
-- error, which the best-effort writes drop as the source does. In the MCP gateway the run manager
-- and the approval gate hold one store. SHA-256, HMAC and the JSON of an event, ParseFloat, the
-- conversion of a double to an int64, the file system and the HTTP client are parameters; the
-- environment is a function. Loops are recursion on the list that they walk. Two loops run on fuel.
-- The pattern parser of path.Match (Base/Glob) has one unit more than the pattern is long: each of
-- its turns takes at least one character of the pattern. The loop over Recv (Provider/Sse) has one
-- unit more than the body of the stream is long: each of its turns but the last reads a newline.
--
-- Not modelled: HTTP routing and the coding of JSON, spans, message texts, the SQL driver, the
-- encoding of columns, the migrations, notifiers, the export of spans, the admin page, the metrics
-- text and the command line. How an engine compares stored times and sums a REAL column is the
-- parameter Engine, and where PostgreSQL puts the new version of a row is an argument of the
-- statement. The statements are on values that the columns take; which writes a backend refuses for
-- their values is the parameter Takes of Storage/Backends.
pub mod Base
pub mod Governor
pub mod Pricing
pub mod Storage
pub mod Runs
pub mod Approval
pub mod Policy
pub mod Gateway
pub mod Provider
pub mod Front
pub mod Mcp
pub mod Audit
pub mod Config
pub mod Memory
pub mod Otel
pub mod Http
pub mod Sample

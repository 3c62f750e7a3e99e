-- ===== src/Lib.antt =====
-- G-LM, an LLM gateway in Go: a verification library beside its sources.
--
-- The program routes chat requests to models. A request passes authentication, the tenant's policy,
-- the router for the model "auto", the reasoning modes and the tools; the store keeps tenants, keys,
-- policies, quotas, audit events, idempotency records and memory nodes.
--
-- Which file models which part (paths from the repository's root):
-- - Model: the records of internal/model/types.go. int is an integer without bounds, a time counts
--   nanoseconds from Go's zero time, an `any` is a JSON value.
-- - Store/Memory: internal/store/memory/memory.go. A method takes the store, the time and the fresh
--   identifier that it reads, and returns the new store with its result; the mutex makes it one step.
-- - Policy: internal/policy/policy.go, over the two reads that it makes of internal/store/store.go.
-- - Orchestrator: internal/orchestrator. Classifier is classifier.go; Router (configuration, state,
--   constructor), Lookup (the map of available models), Candidates and Choose (ChooseWithState),
--   Explain (ExplainWithState) and Inventory (reconcileOnce, cleanInventoryIfNeeded, and the goroutine
--   of triggerBackgroundPull as the step `finish_pull`) are router.go. The order in which Go ranges
--   over a map is a parameter `Order`, one for each candidate that is looked up in a call; the host of
--   the models is the parameter `Control`, with a state of its own.
-- - Auth: internal/auth/auth.go, over an interface of the store and the parameter `Crypto`.
-- - Idempotency: internal/idempotency/idempotency.go, over an interface of the store.
-- - ToolCalling: internal/toolcalling/client.go, with the tools of the OpenAPI document in Discovery;
--   Loop and Chat are internal/http/toolcalling.go. The network of the tools and the server of the
--   model share a state, whose parameters are `Network` and `Upstream`.
-- - Sessions: internal/state/manager.go: Detect and Topics read texts, Turns is a turn of a session.
-- - Overlay: internal/symbolicoverlay. Options is validate.go, Artifact types.go, Words, Extract
--   and Build are extract.go, Inject is inject.go, Prepare the method Prepare of service.go and
--   Supervision its method Supervise; Compliance is compliance.go. Accepted, Off,
--   Budget, Prepared, Applied, Quotes and Verdicts hold proofs.
-- - MemoryDynamics: internal/memorydynamics/service.go over an interface of the store, which Stored
--   fills with Store/Memory: Concepts reads texts, Turns is UpdateFromTurn, the rest BuildContext.
-- - RateLimit: internal/ratelimit/ratelimit.go, over the interface of float64.
-- - Metareasoning: internal/metareasoning. The evaluator is evaluator.go, with its regular
--   expressions in Patterns and the tests of Evaluate, as lists of signals, in Signals; Chain is
--   chain.go. Chains, Decisions and Flags hold proofs.
-- - Reasoning: internal/reasoning. Config, Records, Evaluation, Pruning, Contradictions, Messages and
--   Tot are executor.go, and Execute its method Execute; Geometry is geometry_fusion.go, Mcts is
--   mcts.go, Agents is multiagent.go and Decompose is decompose.go. Start has the steps that the modes
--   begin with. The model's server, the context, the clock and encoding/json are the parameter `World`.
--   The roles of a round run concurrently in Go; here each is one step, in the order `Arrival` in which
--   they end. Calls (all modes in Every), Answers and Kept hold proofs, as do Mcts/Idle and
--   Decompose/Planned.
-- - Prelude: lists, texts, maps, sorting, and float64 as an interface.
--
-- A Go string is a list of bytes; case mapping and white space are those of ASCII. A Go map is an
-- association list. sort.Slice is an insertion sort. float64 is the record `Float64` of operations,
-- whose order laws (`IsOrdered`) hold of the values other than NaN; `thousandths` is an instance. No
-- loop over a list needs fuel, and the loops of retries, rounds, branches and
-- rollouts recur on what is left of their bound.
--
-- Not modelled: HTTP handlers but the loop of tool calls, HTTP clients but the one of the tools,
-- configuration by environment variables, the PocketBase store, logging, metrics, and the
-- interleaving of goroutines within one method.
pub mod Prelude
pub mod Model
pub mod Store
pub mod Policy
pub mod Auth
pub mod Idempotency
pub mod ToolCalling
pub mod Sessions
pub mod Overlay
pub mod MemoryDynamics
pub mod RateLimit
pub mod Orchestrator
pub mod Metareasoning
pub mod Reasoning

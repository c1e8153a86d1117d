-- ===== src/Lib.antt =====
-- Genesis Agents: the gateway that takes signed requests for agents, queues them as jobs, lets the
-- agents' tools run under a policy and under grants, and keeps an audit chain of what they did.
--
-- A request comes in at a route of main.py, as a signed AP2 envelope (runtime/request_auth.py),
-- which gives a principal with a tenant and scopes; the principal's job goes into the job store
-- (job_store.py), which the worker claims, keeps alive by heartbeats and ends; a tool call of the
-- agent is first checked by the tool policy (runtime/tool_policy.py) and, where it needs an
-- approval, spends a one-time action grant (runtime/action_grants.py); every action is appended to
-- the audit log (audit.py), whose rows of a day are anchored by a Merkle root (anchor_logger.py).
-- The worker (worker.py) runs a job's agent in the turn loop of agent_runtime.py, records the
-- outcome, settles or refunds an escrow of its own under the guard of escrow_guard.py, and reports
-- to the job's callback.
--
-- Base: shared names, lists under Boolean tests, JSON values, results and transactions. A database
-- transaction is a function from the tables to a result with new tables; one that raises leaves the
-- tables as they were. Text: Python's texts, their truth, and tokens of three parts joined by dots.
-- Replay: the table of spent one-time ids with its sweep and its primary key, which action grants
-- and AP2 nonces share.
--
-- Jobs (job_store.py): Table has the rows, the events and the SQL primitives; Operations one function
-- for each of create_job, create_child_job, get_job, update_job_status, heartbeat, claim_job_by_id,
-- claim_queued_jobs and expire_stale_running_jobs; History the sequences of such calls. Times are
-- seconds, ids and the clock are arguments, and the rows that other transactions have locked
-- (SKIP LOCKED) are a predicate.
--
-- Policy (runtime/tool_policy.py): Tables and Risks are the module's constants, Check its decisions,
-- Boot the check before the gateway starts; the digest in the manifest file is an argument.
--
-- Grants (runtime/action_grants.py): Token has issue_action_grant, consume_action_grant and
-- _spend_jti on Postgres and SQLite. JSON in base64, HMAC-SHA256 and the digest are a record of
-- functions.
--
-- Audit (audit.py): Chain has the rows, the heads, the row hashes, verify_chain and session_summary
-- without the list of tools; Redaction has _sanitize and the part of log before the append; Append
-- has the rest of log, and log_spec_commitment. SHA-256, the texts of numbers, and Python's
-- functions on texts, URLs and JSON are records of functions. The lock and the transaction make an
-- append one step.
--
-- Auth (runtime/request_auth.py): Envelope has verify_ap2_envelope, the nonce store and
-- assert_envelope_binds; Tokens the principal tokens, legacy_gateway_principal and owns_resource.
-- Ed25519, canonical JSON and ISO timestamps are a record of functions.
--
-- Knowledge (knowledge_backbone.py): the rows that a retrieval query may return to a principal, by
-- permission, then without duplicates by identity and by content hash.
--
-- Envelope (tools/_envelope.py): Values removes the banned keys from JSON values, Answers builds the
-- answers of failure and success.
--
-- Runtime (agent_runtime.py, tools/genesis_call_tool.py): State has the local variables of _run_loop
-- and the effects outside of it, newest first; Dispatch the two chains of tests around a tool, Calls
-- one round over the tool calls, Criteria the success criteria, Loop the turns; Budget and Delegation
-- what a run passes on to the agents it calls. What the model, the clock, the tools and the stores
-- answer is a script. The other files keep invariants: Invariants those of a tool call, Runs those of
-- a run.
--
-- Worker (worker.py, escrow_guard.py): Profile is the escrow guard, Callback the posts to a callback
-- URL, Process a job from its run to its callback, Tick the two entries for single steps. What other
-- transactions do to the job store while an agent runs is a history of Jobs.
--
-- Anchors (anchor_logger.py): Merkle the tree, Daily the anchors and their check over the audit log.
--
-- Gateway (main.py): Http has HTTP errors and Python's functions on JSON; Identity says who calls, by
-- an envelope bound to the request, a key or a continuation token; Ownership has the routes that read
-- a job, Submit the one that makes it; Context the parameters and the prompt of a run, Run and Execute
-- run_agent with its escrows; Disputes the routes of disputes. The other files keep theorems. A field
-- of a request that has another type than the route expects is left out where the model says so, and
-- what the bundle loader, the escrow client, the runtime and the model router answer is given.
--
-- Retrieval (retrieval_route.py): Identity says who may ask, Route answers from the rows of the two
-- stores, those of the backbone by way of Knowledge. The rows, the parse of the body, the settings and
-- the clock are given.
--
-- Two loops run on fuel: the turns, with one round more than MAX_TURNS, and the levels of the Merkle
-- tree, with one round for each leaf. Every turn is counted against MAX_TURNS and every level is
-- shorter than the one below it, so both are enough. All other recursion is structural.
--
-- Not modelled: the export of sessions, the polling loop of the worker with its concurrent tasks,
-- what surrounds the turn loop (workspaces, the browser, durable sessions, tracing), the other
-- routes of main.py (negotiation, verification, A2A, health, traces), accounting,
-- the tools themselves, the sandbox and the store of artifacts.
pub mod Base
pub mod Text
pub mod Jobs
pub mod Policy
pub mod Replay
pub mod Retrieval
pub mod Gateway
pub mod Grants
pub mod Audit
pub mod Auth
pub mod Knowledge
pub mod Envelope
pub mod Runtime
pub mod Worker
pub mod Anchors

-- ===== src/Lib.antt =====
-- A verification library for multinexus, the Python program that connects chat channels (Discord, KOOK)
-- to local coding agents. A bridge receives a message, records it in the chat context store and hands a
-- job to a coordinate server; a worker on the host of an agent claims the job under an execution lease,
-- calls the agent's provider through an adapter, keeps the provider's session in the session store and
-- reports the result, with its usage evidence; the bridge sends the reply in chunks that fit.
--
-- What models which part (paths from the repository's root):
--   Base        shared types: tests, lists and options over native numbers, Python's == as a class, texts
--               as code points, exceptions as the type Result, JSON values as the type Value, and in
--               Base.Json the canonical text of a document, json.dumps with sorted keys and no spaces.
--   Sessions    multinexus/sessions/store.py: the sessions table is a list of rows in the order of
--               insertion, a statement of SQL is a function on it, and each method of SessionStore takes
--               the time of its call. Sessions.Scope models the plain keys of multinexus/sessions/scope.py,
--               Sessions.Like the LIKE patterns. Sessions.Table has the lemmas on rows, and
--               Sessions.Lookup and Sessions.History the specification of the calls on a map from
--               (scope, agent) to rows, to which the table is related.
--   Adapters    multinexus/adapters/base.py: the result of an adapter call and its settlement.
--   Worker      multinexus/agentd/worker.py: one provider turn of _process_job. The record Environment
--               stands for all that the worker does not decide: what the provider returns, which calls of
--               the database fail, and the session store calls that other processes make meanwhile. The
--               record Turn is the state: the table, the attempt (_SessionAttempt), the entry of
--               _context_sessions and the invocations made so far.
--               Worker.Startup models the checks of run before its loop, with the two policies of
--               multinexus/agentd/coordinate_client.py. Worker.Claiming models the loop of run: what each
--               outcome of claim_job leads to, with the request keys; an iteration is a Round of what it
--               meets. Worker.Renewal models the renewals of the lease during a turn, on a clock in
--               milliseconds. Worker.Attempt models the start of an attempt: the choice of the envelope, the
--               session to recover and the observed row. Worker.Report and Worker.Conclude model its end: the
--               race of the provider with the renewals, the report, the comparison of the receipt with it, and
--               the write of the session; report_job is a parameter, and so are the numbers that Python
--               compares as floats. Worker.Progress models the progress reports during a turn.
--   Lease       multinexus/agentd/execution_lease.py: the parser of lease envelopes, the normalization of
--               worktree paths, the resource key and the cross-checks. The record Platform holds what
--               comes from Python's Unicode tables, calendar, Windows path and hash modules.
--   Claims      multinexus/agentd/execution_context.py and executor_binding.py: the strict parsers of the
--               execution context and of the executor binding, with the digests of their canonical
--               documents. Claims.Gate models the first part of _process_job of
--               multinexus/agentd/worker.py: which claims reach the provider, which are dropped, which
--               are reported and under what identity. json.loads is a parameter. It uses the validation
--               of the lease in Lease and the same Platform.
--   Context     multinexus/context/store.py: the outbox of runtime replies and the window of recent
--               messages. str.lower is a parameter. Context.Envelope models multinexus/context/envelope.py, the
--               history that a bridge passes to a worker; json.loads and int of a text are parameters.
--               Context.Prompt models the rendering in multinexus/context/prompt.py.
--   Capacity    multinexus/executor_capacity_authority.py: the capacity projection of the agent registry and
--               its digests, on the document that tomllib reads.
--   Handoff     multinexus/handoff.py: the lines of a reply that hand work to another agent. Decimal digits
--               and the diagnostic line are parameters.
--   Usage       multinexus/usage.py: the normalization of usage evidence.
--   Chunks      multinexus/message_chunks.py: the chunks of a long reply.
-- Every Examples module runs definitions on concrete inputs.
--
-- Each method of a store is one transaction, so that processes interleave call by call: a history is a
-- list of calls. Python's exceptions are values: Result where a function raises, Option where it returns
-- None. Integers are natural numbers wherever the code refuses or ignores negative ones; where a
-- difference could fall below 0 the model stops at 0, and the comparison that follows has the same result.
--
-- Fuel: the loop of Chunks gets one more than the length of the text, since each round takes a character;
-- the loop of Usage.Budget one more than the number of records, since each round takes a cost away. That
-- both are enough is part of the theorems listed below. The digits of a number in Base.Json get one more
-- than the number, and Base.Json.Numbers reads the number back. All other recursion is structural.
--
-- Not modelled: the chat clients, the adapters' subprocesses, the HTTP client of the coordinate server,
-- desktop transports and configuration, which are input and output; the creation of database tables; and,
-- so far, coordinator handoffs and the agent registry. Texts with lone surrogates are not modelled.
pub mod Adapters
pub mod Base
pub mod Capacity
pub mod Chunks
pub mod Claims
pub mod Context
pub mod Handoff
pub mod Lease
pub mod Sessions
pub mod Usage
pub mod Worker

-- ===== src/Lib.antt =====
-- loomctl runs coding agents in workspaces for the tenants of a shared server. This library models the
-- parts of it that decide: the stores that the servers share, the loop that drives an agent, the tools that
-- the loop gives it, the admission of runs, and the monitor behind the readiness probe. Paths are from the
-- repository's root.
--
-- The stores (src/harness/storage). Storage.Contracts and Storage.Names have the records and the argument
-- checks of contracts.ts. Storage.File has the stores of file.ts, one module each: Documents
-- (createFileDocumentStore), Events (createFileEventStore), Leases (createFileLeaseStore), Capacity
-- (createFileCapacityLeaseStore) and Queues (createFileQueueStore). The state of a store is its directory:
-- texts with the contents of their files, for `documents` and `capacity-leases` one level deeper. An
-- operation is a function of its arguments, the readings of the clock and the state, and gives a result and the
-- next state, or an error. Every operation of file.ts runs under a file lock, so a history of many clients is
-- a list of calls, and `run` goes through it. Storage.File.Locks has the lock (withFileLock), for any number of
-- processes whose calls on the file system come in any order; Exclusion, Stale and Race are about it.
--
-- PostgreSQL (src/harness/storage/postgres.ts). Storage.Postgres.Documents has createPostgresDocumentStore.
-- The statements of the database are an argument, Statements; Table says what the store relies on of them,
-- Refines and Deletes compare it with the file store. Storage.Postgres.Events has createPostgresEventStore in
-- the same way, an append with its transaction as one step.
--
-- The tools (src/harness/tools.ts, git-commit.ts, git-diff.ts). Harness.Executor has the interface of a
-- workspace, an argument of all that follows: its calls are functions on a world, the state of all that is
-- outside, and end with a value or an error. Harness.Tools has createToolRuntime and runVerification,
-- Harness.GitCommit the git commands. A promise that `execute` returns without awaiting it is a value of
-- `Returned`, which runs behind the catch.
--
-- The loop (src/harness/loop.ts). Harness.Run has the variables of runHarness, its events and its summary;
-- Harness.Options what it is given; Harness.Turn one round: the pause request, the agent's step, its
-- actions, the three commands of the gate, the last event; Harness.Loop the `for`, the `try` and the `catch`.
-- The `for` is a recursion on the rounds that are left, from maxIterations down, so it ends without other
-- fuel. The agent, the pause request, the ids of actions and the scrubbing of secrets are arguments.
-- Harness.Triples and Harness.Turn.Steps carry the proofs through the calls. Harness.Agents has the choice of
-- the next step of the scripted agents of agents.ts.
--
-- Admission (src/harness/server/admission.ts). Server.Admission has tryAcquireActiveRunAdmission with a state
-- backend, over the leases and the capacity leases of Storage.File; what a call returns stands beside the
-- stores, which keep what was done before a throw. Server.QueuedAdmission has what a queued run says of its
-- wait, Server.QueuePositions its position in the queue.
-- Server.RunState has the reading and writing of the state of a run (src/harness/run-state.ts).
--
-- Access (src/harness/server-auth.ts, server-api-keys.ts, server/tenants.ts, server/shared.ts). Server.Access
-- has requireTenantAccess with the keys of a tenant, its steps as functions of what the tests before them
-- found; the digest of tokens and the OIDC authenticator are arguments. Server.ApiKeys has the routes that
-- create, rotate and revoke keys: Fields reads a body, whose values are those of Base.Json, Plans is what a
-- handler computes from the policy that it read, Handlers the whole handlers, and Store the policies and the
-- audit log. What the server makes up, and the readings of the clock, come with the request.
--
-- The rate limiter (src/harness/server/http.ts). Server.RateLimit has the client key, the buckets and the
-- guard in front of the routes. The eviction loop has the number of buckets for fuel: each round removes one.
--
-- Health (src/harness/server-observability.ts). Server.Health has createStateBackendHealthMonitor as a state
-- with the steps of a probe, from the start of it to its end, and of ensureFresh.
--
-- Times are milliseconds. A text that is no date is none where the source asks whether Date.parse gives a
-- number. Numbers are whole and at least 0, but for the tokens of the limiter, which are integers; costs of
-- model usage are left out.
--
-- Not modelled: the atomic writes; the list operations of the document, lease and queue stores, which only
-- read; the migration of PostgreSQL; the Redis stores; admission without a state backend, whose lock files are
-- opened, read and unlinked without a lock around it, and admission of workspace sessions; HTTP and its
-- routing; the draining of the run queue and its gates; the parsing of policies; the OIDC authenticator;
-- agents that call a model; the executors; clients of external services; the command line and the desktop app.
pub mod Base
pub mod Storage
pub mod Harness
pub mod Server

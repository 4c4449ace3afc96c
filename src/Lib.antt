-- ===== src/Lib.antt =====
-- LiteAIG, an AI gateway: a request passes a fixed pipeline of stages, its tokens are reserved
-- against a budget and a rate, a planner orders the deployments that may serve it, and an executor
-- walks that plan with a circuit breaker, capacity leases, bounded attempts and backoff. Answers
-- are cached, finished requests are settled and rolled up, guardrail policies are published while
-- requests run, and calls to the agents of other organisations pass a gate of their own.
--
-- Base: what the parts share. Base/Assoc is a Go map with text keys, Base/Word is int64 (and int) as
-- a bit pattern below 2 ^ 64 with wrap-around sums and signed orders, Base/Clock has times in
-- nanoseconds and durations, Base/Float is float64 as a type with operations of which no law is
-- assumed, Base/Sort a stable sort and how often a list's elements pass a test.
--
-- Pipeline (internal/kernel/pipeline/stage.go and runner.go): `run` is Run, `new_runner` is
-- NewRunner; a handler changes a request and answers a directive and an error.
--
-- Budget (internal/finops/budget/manager.go): `reserve`, `reconcile`, `release`, `sweep` and `usage`
-- are the methods of Manager, `sweep_locked` and `ledger_for` its helpers. A policy's window is
-- opened by `open_window`, and the window of an earlier period retires.
--
-- Circuit (internal/resilience/circuit/breaker.go): `allow`, `open_tuple` (Open), `record_result`
-- (Record), `reset_tuple` (Reset) and `start` are the methods of Breaker. The n-th reading of the
-- clock in a call is `clock n`; saves, deletions and notifications are listed effects.
--
-- Retry (internal/resilience/retry/policy.go): `backoff` is Policy.Backoff.
--
-- Execution (internal/gateway/execution/executor.go): `run_plan` is runPlan, `plan_loop` its loop
-- over deployments and `attempt_loop` the one over attempts, `round` one attempt. The circuit, the
-- leases, the calls, the jitter and the sleeper are the operations of `Env`. Execution/Counting puts
-- a counter of the calls beside the state of the parts.
--
-- Lease (internal/platform/coordination/memory.go, MemoryLeaseCoordinator): `acquire`, `renew`,
-- `release` and `cleanup`; Lease/Gate (internal/resilience/leasegate/gate.go): `gate_acquire`.
--
-- Rate (internal/policy/rate/limiter.go): `reserve`, `reconcile` and `window_state` of Meter.
--
-- Approval (internal/controlplane/approval/approval.go over internal/platform/storage/sqlrepo/
-- approvalstore.go): `create`, `approve` and `reject`. A decision reads, decides and writes;
-- `decide_approve`, `decide_reject` and `finish` are the two halves, so that two calls can be
-- interleaved.
--
-- Routing (internal/routing/model/planner.go, with the records of internal/kernel/runtime/
-- snapshot.go): `plan` is Plan, Routing/Order has `order`, Routing/Scores the scores.
--
-- CredentialPool (internal/resilience/credentialpool/pool.go and snapshot.go): `order` is
-- Pool.Order, `select` Pool.Select, `next` Picker.Next.
--
-- Coordination (internal/platform/coordination/memory.go): `reserve`, `reconcile` and `release` of
-- MemoryBudgetLedger, `incr` and `decr` of MemoryInflightCounter.
--
-- Cache (internal/cache/memory.go): `get`, `put` and `delete_key` of MemoryStore. The map holds the
-- addresses of the list's elements; Cache/Links ties the two, Cache/Recency has the ideal cache.
--
-- Accounting (internal/finops/accounting/finalizer.go): `finalize` is Finalizer.Finalize over a
-- repository, a sink and a budget; Accounting/Settled says what a budget promises, and
-- Accounting/Managed shows that the manager of Budget keeps it. Rollup (internal/finops/aggregate/
-- aggregate.go): `by_dimension`, `root_task` and `quantify_optimization_cost`; Rollup/Sums has the rows
-- as plain sums.
--
-- Enforcer (internal/app/budgetenforcer.go) composes Budget, a shared ledger behind the interface of
-- internal/platform/coordination/contracts.go (Enforcer/FailMode: internal/finops/budget/failmode.go;
-- Enforcer/Shared fills it with Coordination) and Enforcer/Slices (internal/platform/coordination/
-- budgetslice.go).
--
-- Limiter (internal/policy/rate/limiter.go): `allow` and `bucket_exists` of Limiter; Limiter/Single is
-- the same limiter without shards.
--
-- Federation (internal/federation): Federation/Lifecycle (federation.go) has `discover`, `review`,
-- `activate`, `suspend`, `revoke` and `review_material_change` of Lifecycle over a store interface,
-- Federation/Inbound (identity.go) `resolve`, Federation/Task (task.go) the counters of a task and
-- the LoopDetector, Federation/Permission permission.go and internal/identity/delegation.go, and
-- Federation/Gate (internal/app/federationgate.go) `enforce_a2a_federation`, which takes the number
-- of hops that the metadata gives.
--
-- Guardrail (internal/guardrail/policy.go): `fast_publish` and `active` of PolicyRegistry; `prepare`
-- and `commit` are the two sections of FastPublish that hold the lock.
--
-- Bounds and fuel. Integers of the source keep their wrap; a theorem that needs numbers to stay in
-- range says so. Loops over lists are recursion on the list. `attempt_loop` recurs on the attempts
-- that are left, which start at the policy's number; `doubled` and `escalate` recur on the rounds of
-- their loops. A decimal number has at most 20 digits, which is enough for 64 bits.
--
-- Not modelled. A mutex makes a method one step, so methods are functions; approvals and guardrail
-- publications, which hold no lock over their read and write, are interleaved. `reserve` of the
-- enforcer is one step too, although no lock spans its calls, so nothing is said of reservations
-- that run at the same time. Contexts and deadlines enter as errors
-- that a call or a sleep answers. Go's zero time is 0 and no time lies before it. Networks,
-- databases, hashes and random numbers are parameters, and the HTTP, storage and console layers are
-- left aside.
mod Base
pub mod Pipeline
pub mod Budget
pub mod Accounting
pub mod Rollup
pub mod Cache
pub mod Circuit
pub mod Retry
pub mod Execution
pub mod Lease
pub mod Rate
pub mod Limiter
pub mod Approval
pub mod Routing
pub mod CredentialPool
pub mod Coordination
pub mod Enforcer
pub mod Federation
pub mod Guardrail

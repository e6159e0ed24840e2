-- ===== src/Lib.antt =====
-- gh-runner: the supervisor that keeps pools of ephemeral CI runners in containers.
--
-- The supervisor is a set of Go packages. The orchestrator package holds the PoolController, which
-- tracks the runners of every pool (auditor.go), audits them against the container engine, spawns
-- and drains them to meet each pool's target under a limit per pool and a global quota, queues what
-- the quota refuses (controller.go), and answers webhooks (webhook_scaling.go) and container
-- events. The cron package starts the recurring Renovate jobs. The provider package wraps the HTTP
-- clients of the Git forges in a transport that backs off from rate limits. The webhook package checks
-- the forges' signatures and hands events to the controller; the server package lets administrators
-- in; the db package encrypts credentials. All of them call the container engine, the database and
-- remote APIs through interfaces.
--
-- What is modelled where:
--   * Prelude: shared notation; Prelude/Text: Go strings as byte lists with the functions of package
--     strings; Prelude/Dict: Go maps as association lists, with their lookup and counting laws.
--   * Orchestrator/Tracking: internal/orchestrator/auditor.go without Audit. Its children count
--     running runners (Counting), say when the maps are in shape (Valid) and describe the changes
--     that the controller makes as a relation of steps (Moves).
--   * Orchestrator/Audit: Reconciler.Audit of the same file.
--   * Orchestrator/Naming: internal/orchestrator/naming.go.
--   * Orchestrator/Platform: the interfaces that internal/orchestrator/controller.go is handed, as a
--     record of functions on an arbitrary type of worlds; every theorem on the controller holds for
--     all such functions, so for all answers of the engine, the database and the forges.
--   * Orchestrator/Controller: the state of the PoolController. Controller/Spawn models
--     spawnSingleRunner, Controller/Queue enqueueRequest and drainQueue, Controller/Pool
--     reconcilePool with its parts.
--   * Orchestrator/Lifecycle: Reconcile, drainPool, checkHungRunners, Pause and Resume;
--     Lifecycle/Settings the quota's parser; Lifecycle/Boot Boot, HandleContainerEvent and
--     TerminateRunner; Lifecycle/Shutdown the two shutdowns.
--   * Orchestrator/Matching and Orchestrator/Webhooks: internal/orchestrator/webhook_scaling.go, the
--     choice of a pool and HandleWorkflowJob.
--   * Orchestrator/Health: internal/orchestrator/degraded.go.
--   * Cron/Scheduler: internal/cron/scheduler.go and job.go; Scheduler/Database SyncFromDB.
--   * Provider/RateLimit: internal/provider/ratelimit.go. Provider/Segregation: segregation.go there.
--   * Orchestrator/Events and Orchestrator/Logs: internal/orchestrator/events.go and the collector of
--     lines in logs.go.
--   * Webhook: Receiver.Handle of internal/webhook/webhook.go; the handler is any function of a state.
--   * Database/Crypto: internal/db/crypto.go; Crypto/Profiles its queries on auth_profiles.
--   * Server/Auth: internal/server/auth.go with RecordAuditLogWithUser of audit.go, its interceptor and
--     tokens; Auth/Handlers SetupAdmin, Login and GetSession.
--   * Server/Pools: the validation of internal/server/pool.go; Pools/Service CreatePool, UpdatePool and
--     DeletePool.
--   * Config: internal/config/validate.go, normalize of config.go and Derive of internal/keys/keys.go.
--   * Examples: a small installation, at which each theorem with hypotheses is applied.
--
-- How state and effects are modelled. A method of the controller is a function from the controller's
-- state to its result and the next state; a Go error is `some` of an enumeration or `false`. Methods
-- that hold provisionMu for their whole body are single functions. drainQueue, whose two critical
-- sections can be interleaved with enqueueRequest, is split at them. The select statement of
-- GracefulShutdown reads a list of events, in the order in which they happen. Go iterates over a map
-- in an arbitrary order; here the order is that of the association list, and the theorems hold for
-- every list.
--
-- Numbers. Counts and identifiers of the database are natural numbers, since the RPC layer refuses
-- negative ones; Server/Pools, where that is checked, has signed integers. Times are nanoseconds
-- from Go's zero time, which is 0; the difference of two times stops at 0, and is only compared
-- with positive bounds. Durations of the HTTP transport, which can overflow, are kept modulo 2 ^
-- 64, and its differences of times stop at the largest Duration, as Time.Sub does. The transport's loop is recursion on the number of retries left, which its field MaxRetries
-- gives; no other fuel is used.
--
-- Not modelled: log lines, the contexts' deadlines outside GracefulShutdown, the goroutines that
-- call the alert handlers, the timer loops that only call a modelled method (PoolController.Start,
-- Scheduler.loop), a nil provider resolver in spawnSingleRunner (a panic in Go), and the packages
-- logging, registry, renovate and pb, the merging of configuration layers, the rest of db and server,
-- the compression of logs, and the clients of the forges and of Docker.
pub mod Prelude
pub mod Orchestrator
pub mod Cron
pub mod Provider
pub mod Database
pub mod Server
pub mod Webhook
pub mod Config
mod Examples

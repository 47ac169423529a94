-- ===== src/Lib.antt =====
-- General_Webhook: a durable webhook relay. The server accepts an event into SQLite (internal/store);
-- workers of internal/queue claim it under a lease, run its actions through internal/handler, and write
-- every outcome back, so that a crash at any statement can be recovered from.
--
-- How the parts correspond to the files:
--   Base, Base/          tests on numbers, lists with the shape of SQL (update_where, delete_where,
--                        first_where), keys of tables (Distinct), integers.
--   Config, Config/      internal/config: the data, WithDefaults and applyDefaults (Defaults), the chains
--                        of checks (Checks, Sources, Heartbeat, Validate), Load, and what a load promises
--                        (Valid). Snapshot: snapshot.go. Float: the float64 of the rate limits.
--   Store/Rows           the tables of `migrate`, one record for a row, and `Db` for the database.
--   Store/Tx, Store/Tx/  statements and transactions. `World` is the database with a list that says
--                        which of the coming statements fail; `transact` rolls back on any error.
--                        Relation: what an action does to the database as a relation (`Moves`), with a
--                        rule for each way to build an action. Ends: what holds after a success.
--   Store/Accept         SavePendingEvent, SavePendingEventGuarded, SaveEvent, HasRecentBodyHash.
--   Store/Claim          ClaimPending and RenewLease.
--   Store/Requeue        RequeueExpiredLeases, RequeueAllProcessing, RequeueEvent.
--   Store/Action         PrepareEvent, ListActionStates, StartAction, CompleteAction,
--                        ScheduleActionRetry, DeadAction, ExpireAction, RefreshEventStatus.
--   Store/Replay         ReplayDeadEvent, RetryFailedEvent, UpdateEventStatus, ClearPayload and
--                        PurgeOlderThan.
--   Store/Audit          SaveActionLog, SaveActionAttemptLog, GetPayload, GetEvent, HasEvent,
--                        ListActionLogs, ReadyCheck.
--   Store/Stats          Stats, without its floating-point rates.
--   Store/Heartbeats     internal/store/heartbeat_logs.go: SaveHeartbeatError, ListHeartbeatErrors.
--   Store/Snapshots      internal/store/snapshots.go: RewriteActionSnapshots, batch by batch. Store/Tx/Total:
--                        actions that end without an error even where statements fail.
--   Store/Calls          histories of calls of the store, in any order and with any failures. Parts and
--                        Walk: what the statements of a call respect, the call respects.
--   Store/Invariant/     what such histories keep.
--   Handler/Errors       internal/handler/errors.go: which errors are retried, and ParseRetryAfter.
--   Handler/UrlPolicy    internal/handler/urlpolicy.go, sameAuthority and the checks before a connection.
--   Heartbeat, Heartbeat/ internal/heartbeat: deliver as moves of workers that interleave, and where a
--                        push goes (Target).
--   Queue/Settings       New, computeLease, actionTimeout. Queue/Backoff: retryDelay.
--   Queue/Failure        what `process` decides about a failed action. Queue/Vars: executionVars.
--   Queue/Process        process and logAction. Queue/Drain: drain and resolveSource.
--   Queue/Lifecycle      Start, Ready, worker, Wake and Stop as steps.
--   Policy, Policy/      internal/policy/policy.go: Allow, Redact and the counters.
--   Router/              internal/router/match.go: the cache of compiled expressions and Match.
--   Auth                 internal/auth: Verify for every type of authentication.
--   Store/Released       the calls that end the processing of an event; Store/Tx/Calm: runs in which no
--                        statement fails.
--   Queue/Loaded         the settings of a queue made from a loaded configuration.
--   Server/              internal/server: budget.go (Budget); rateLimiter (Limiter) and clientIP
--                        (ClientIp) of protect.go; handlers as actions on the state of the server that a
--                        refusal ends (Handler); the handler `webhook` (Headers, Webhook) and those of the
--                        administrator (Admin).
--   The modules named Examples hold concrete runs.
--
-- Choices. Times and durations are natural numbers of nanoseconds and the columns milliseconds, as
-- the code converts them; clocks are not before 1970, and 64 bits are not exceeded. A function of
-- the store is an action `Tx A`, a state passing function with errors. The loops run over given
-- lists: over the configured actions in `run_actions`, and in `drain` over the rounds that the loop
-- makes before it is stopped. Only the batches of RewriteActionSnapshots, which end where the
-- events end, are counted by fuel; one more than the number of events is enough. A String is the
-- bytes of a Go string. Everything that comes from outside, the clock, cancellations, the answers
-- of handlers, the jitter, is data that a theorem holds for all of.
--
-- Not modelled: SQLite itself, the migration and backfill of old databases, the DATETIME twins of
-- the columns, the handlers of actions (HTTP requests, processes, templates), the tickers and
-- payloads of the heartbeat, the text of /metrics, and the lease heartbeat that runs beside a pass.
-- A handler of the server is one step: requests that interleave are not modelled. The packages
-- regexp, net, strings, crypto and encoding/json, the decoder of YAML and the arithmetic of float64
-- are parameters, and so are internal/parser, internal/logger and, in the queue,
-- config.ParseSourceSnapshot.
pub mod Base
pub mod Config
pub mod Store
pub mod Handler
pub mod Heartbeat
pub mod Policy
pub mod Router
pub mod Auth
pub mod Server
pub mod Queue

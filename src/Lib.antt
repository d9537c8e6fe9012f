-- ===== src/Lib.antt =====
-- dbbridge runs SQL queries of remote clients against configured databases, stores each result in a
-- backend and keeps a record of the query in a store that its instances share. This library models the
-- core of one instance and of the store, and proves what makes them correct.
--
-- How the parts interact. A submission (`SubmitQuery`) checks the request, claims an idempotency key
-- in the store, takes a slot, registers the query and launches `run`, which moves the record through
-- the states of the domain model and stores the result. Each change of state goes to the store and to
-- the subscriptions, and by messages in the store to the subscriptions at other instances. Clients
-- come in through the handlers of HTTP and gRPC, which call the service, which checks that the caller
-- may see the query before it asks the manager or opens the result. Beside these, the owner reaper
-- fails queries whose owner is gone, garbage collection removes queries whose retention is over, and
-- drain stops new queries from entering.
--
-- Which file models which part:
--   Base                     numbers, lists, results, integers and association lists
--   Domain, Domain/*         internal/core/domain: states, options, errors, records
--   Lifecycle                internal/lifecycle/manager.go
--   Authn, Authn/*           internal/authn/authn.go: tokens, scopes, ownership
--   Sqlguard, Sqlguard/*     internal/sqlguard/sqlguard.go: the lexical check of statements
--   Config                   internal/config/config.go: the settings that the manager reads
--   Config/Load, /*          internal/config/config.go: all settings, and `validate`
--   Config/Diff, /*          internal/config/diff.go: the databases that a reload changes
--   Config/NonReloadable     internal/config/diff.go: the sections that a reload does not apply
--   State/MetaStore          internal/state/metastore.go: the interface, over any store
--   State/Contract           what the interface promises of the records: the specification
--   State/Memory, /*         internal/state/memory.go: the store in memory
--   State/Redis, /*          internal/state/redis.go: the store in Redis, over a client of it
--   Manager/Defs             internal/core/manager/manager.go: the state of `QueryManager`
--   Manager/Admission        `acquireSlot`, `releaseSlot`, `admit`, `deregister`, `Drain`, `cancelActive`
--   Manager/Watchers, /*     `Watch`, `unwatch`, `notifyWatchers`, `deliverEvent`
--   Manager/Submit, /*       `SubmitQuery`, `resolveIdempotency`
--   Manager/Completion       `terminalFor`, `persist`, `complete`, `finishRun`
--   Manager/Run, /*          `run`, `progressReporter`
--   Manager/Pools, /*        `syncPools`, `lookupPool`
--   Manager/Capacity         the steps of an instance, interleaved in any order
--   Manager/Reaper, /*       `reapStaleOwners`, `recoverOrphans`, `failOwnerLost`
--   Manager/Garbage, /*      `collectGarbage`, `collectQuery`
--   Manager/Control, /*      `StopQuery`, `controlWorker`, `eventPublisher`, `Close`
--   Manager/Reload, /*       `Reload`, `getEngine`, `closePoolWhenIdle`
--   Service, Service/*       internal/core/service/service.go: `QueryService`, the section reader
--   Transport/Rest, /*       internal/transport/rest: the handlers of queries and their replies
--   Transport/Grpc, /*       internal/transport/grpcconnect: the same handlers over Connect, with scopes
--   Ratelimit, Ratelimit/*   internal/ratelimit/ratelimit.go: one bucket for each caller
--   Process, Process/*       cmd/dbbridge/shutdown.go: `drain`
--   Scenarios, Scenarios/*   the theorems at concrete inputs
--
-- How the code is rendered. A function keeps the name of the Go function in the spelling of this
-- language. A method that changes its receiver takes the state and gives the new one beside its reply.
-- A critical section, or one call of the store, is one step. A Go map is an association list, a
-- channel is the list of what waits in it, `error` is a constructor of `Result`. The clock is an
-- argument, and a duration is a count of nanoseconds as an integer without bound, so the overflow of
-- 64 bits is not modelled. Text is compared as text.
--
-- What stands outside is a parameter: the package `unicode` in `Unicode`, the verdict of the SQL guard
-- and the pools of databases in `Env`, `reflect.DeepEqual` of two sections of the settings in
-- `DeepEqual`, what the database, the encoder and the backend did in `Execution`, the result backends
-- in `Results` and `Backend`, the readers of objects in `Reader`, the client of Redis in `Client` and
-- the JSON of a record in `Codec`, and the store in `MetaStore`, which both stores implement, the
-- stream of a gRPC call in `send` and the buckets of the limiter in `take`. What the code relies on
-- stands in records of laws: `ClientLaws` (a pipeline that succeeded did its commands, a transaction
-- goes through only if the watched key is as it was read), `CodecLaws`, `StreamLaws`, `ReaderLaws` and
-- `IsSteady`, and `IsRecordStore`, which both stores are proved to keep. In the store in Redis a
-- function `others` stands for what other clients do between two round trips of one call.
--
-- Bounds. `persist` is recursion on the number of attempts, which the source fixes at five. A pass of
-- garbage collection has a budget of queries in place of its deadline. The loop of the SQL guard has
-- the length of the text as fuel, and reading a download to its end, over HTTP or gRPC, has one read
-- more than the object has bytes. The publisher's drain at the end of an instance has a budget of
-- events in place of its deadline, and the wait of a shutdown the list of its polls. All other loops
-- are recursion on a list.
--
-- Not modelled: reading a configuration file, the expansion of variables in it and its decoding, the
-- encoders and backends of results, routing, middleware, the handlers of administration over HTTP,
-- `ReloadConfig` over gRPC, events over a WebSocket, telemetry, the start of the process and the
-- closing of its listeners. `SubscribeControl` of Redis forwards what its client receives. A
-- synchronous submission is answered by a later read of the record, which is not part of the
-- submission here.
pub mod Base
pub mod Domain
pub mod Lifecycle
pub mod Authn
pub mod Sqlguard
pub mod State
pub mod Config
pub mod Manager
pub mod Service
pub mod Transport
pub mod Process
pub mod Ratelimit
mod Scenarios

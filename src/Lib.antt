-- ===== src/Lib.antt =====
-- DANTE API Systems: a verification library for the Go service in internal/.
--
-- The program stands between clients and a legacy core bank. A request for a QRIS payment or a
-- transfer is taken in by a service, which stores a transaction as PROCESSING, caches its status
-- and publishes a job to RabbitMQ; a consumer takes the job and hands it to a worker, which calls
-- the legacy system and stores the outcome. A job whose worker fails goes through a retry queue
-- and, after a limit, to a dead-letter queue. Sessions are issued after a login at the legacy
-- system and kept in Redis. A circuit breaker stands in front of the legacy merchant reader.
--
-- The files and the code that they model:
--   Base        Boolean tests, integers of Go's sizes, maps, and the library names shared by all.
--   Go          Go's errors, the calls of other components, texts. A handler is a function of an
--               environment, which answers each call from the calls made so far; its result is a
--               value, an error or a panic, with the calls made, newest first. Go.Trace counts in
--               these calls.
--   Models      internal/database/sqlc: rows and parameters of the queries.
--   Database    internal/database/sqlc: the statements on tables, in Transactions, Accounts
--               (users.sql.go), Merchants and CallLogs, with the constraints of
--               db/schema/init.sql. Rows and Order have WHERE, ORDER BY and LIMIT; Integrity is
--               about the constraints.
--   Views       Records of internal/cache/redis.go, internal/legacy/client.go and the session view
--               of internal/service/auth/service.go.
--   Cache       internal/cache: Policy (policy.go) and Client (redis.go), the operations over the
--               commands of a server. Client.Server states what Redis documents of these commands;
--               Entries, Keys, Operations, Held and Lock are about the client.
--   Breaker     internal/legacy/circuitbreaker.go: CircuitBreaker with allow_request,
--               record_success, record_failure and execute; step and run are the interleavings of
--               concurrent requests. Children: Invariant, Spec (the promised phases), Runs, Race.
--   Queue       internal/queue: Topology (topology.go), Messages and Publisher (publisher.go), and
--               Consumer (consumer.go) with consume for the loop of a session. Children:
--               Publisher.Sending, Consumer.Settle (what becomes of each delivery),
--               Consumer.Headers and Consumer.Retries. Worker (consumer.go) has the workers
--               around a session, Monitor (rabbitmq.go) the probes.
--   Payment     internal/service/payment: Qris (qris.go), Merchants (resolveMerchant), Transfer
--               (transfer.go), Worker.Qris (worker.go) and Worker.Transfers (transfer_worker.go).
--               Effects and Worker.Outcome count what a request and a handling did. Store has
--               the tables of Database behind both; Store.Marks, Accepted, Handled, Settlement
--               and Integrity are about the rows.
--   Auth        internal/service/auth/service.go: login, register, logout, validated_session and
--               ensure_account_provisioned.
--   Account     internal/service/account/service.go: get_profile and account_balance.
--   History     internal/service/transaction: list_by_account (history.go), transaction_status
--               (status.go) and transaction_detail (detail.go). Children: Cursor, Reads, Table
--               (the history of an account on the tables of Database) and Walk.
--   Legacy      internal/legacy/client.go: Messages (requests and responses) and Client (the
--               operations). Children: Requests, Responses, Answers.
--   Merchant    internal/service/merchant/service.go: get_merchant with the lock of the cache and
--               wait_for_merchant_fill; Merchant.Remote has the reader behind it
--               (internal/legacy/merchant.go and CircuitBreakingMerchantClient). Children: Waiting,
--               Lookup.
--   Bridge      internal/bridge/bridge.go: the handlers. Bodies has what they answer, Sessions those
--               of sessions and the bearer token, Payments, Accounts, Lookups and Internal the
--               others; Tokens, Authority, Statuses, Details, SignIn, Credentials,
--               Invalidation and Outage are about them, SignIn, Credentials and Outage with the
--               services behind.
--   RateLimit   internal/middleware/ratelimit.go: handle with the address of a client and its limiter.
--               Child: Buckets.
--   Config      internal/config/config.go: load and the readers of the environment. Child: Fallbacks.
--   Observability
--               internal/observability: Http (httpobs/middleware.go), Counters
--               (cachemetrics/cachemetrics.go), Metrics and Metrics.Collectors
--               (metrics/handler.go). Children: Http.Recording, Metrics.Registration,
--               Metrics.States.
-- Each Tests module has concrete runs of its component.
--
-- The parts meet as in the code: the intakes publish the messages that the workers handle, the
-- consumer hands jobs to a handler as a call, and the workers and services call the database, the
-- caches, the legacy system and the clock. No answer of these is assumed but where a theorem says
-- so; between two calls of a handler the environment may change in any way.
--
-- Numbers: int64, int32 and time.Duration are integers, with the wrapping of their arithmetic
-- written out (wrap64, wrap32); the counters of the circuit breaker are natural numbers, which a
-- Go int holds for 2^63 calls; a time is its nanoseconds since the year 1 and a uuid its 128-bit
-- number. Printing and reading uuids, times and numbers, and the texts of errors, are parameters.
-- The JSON of an event is an object of texts and numbers or is malformed; encoding one does not
-- fail, as encoding/json does not on such maps.
--
-- Fuel: consume and run_worker take the number of rounds of their loops and answer none if they are
-- still running; their theorems hold at every number. The rounds of a message take the number of
-- deliveries to look at, and their theorem shows that one more than the retries left is enough. The
-- waiting loop of a merchant lookup takes the polls to make at most and crashes beyond them; its
-- theorems show that one more than the ticks before its deadline is enough.
--
-- The database: a statement that fails changes nothing, and each statement is one step, as under
-- autocommit. Its uuids, its clock, its failures and its collation are parameters. A timestamp
-- keeps the nanoseconds that it is given, where PostgreSQL keeps microseconds; the times that the
-- statements compare and sort by are the database's own.
--
-- Not modelled: the opening of connections to Redis and the database, and migrations; the wiring of
-- the HTTP server, its routes, schemas and JSON; the exporter and the spans of tracing, which
-- decide nothing; and the scanning of rows by the generated code.
pub mod Base
pub mod Go
pub mod Models
pub mod Views
pub mod Cache
pub mod Breaker
pub mod Queue
pub mod Payment
pub mod Auth
pub mod Account
pub mod History
pub mod Legacy
pub mod Merchant
pub mod Bridge
pub mod RateLimit
pub mod Config
pub mod Database
pub mod Observability

-- ===== src/Lib.antt =====
-- Models of the metrics server and agent, and theorems about them.
--
-- The program has two parts. The agent (cmd/agent, internal/agent) collects runtime and system
-- metrics, and sends them as JSON over HTTP, compressed, signed and, if there is a key, encrypted, or
-- as protocol messages over gRPC. Over HTTP its reporter puts the metrics of a snapshot into a channel
-- from which workers take and send them. The server (cmd/server) passes an HTTP request through its
-- middlewares to a handler, and a gRPC call through its interceptor to the service; both end at a
-- storage, in memory or in PostgreSQL. The storage in memory is saved to a file and loaded from it,
-- and each update by HTTP is reported to an audit subject and its observers. Two tools belong to the
-- repository: cmd/reset generates Reset methods, for which internal/pool has a pool of objects, and
-- cmd/linter checks for calls of panic, os.Exit and log.Fatal.
--
-- Which file models what:
--   Base and below: helpers on lists, association lists and texts; an int64 is its bit pattern, and
--     its sum wraps round modulo 2 ^ 64 (Base/Int64). A Go map is an association list with one entry
--     for each key; a loop over a map takes its entries in an order that is a parameter (Visit).
--   Model: internal/model/metrics.go. A float64 is its bit pattern, which the program only copies,
--     parses and prints.
--   Wire, Http: encoding/json, compress/gzip, the keyed hash and net/http, as far as they are used.
--   Strconv: ParseInt and FormatInt at base 10 and 64 bits.
--   Storage, Storage/Memory: internal/storage/storage.go: the interface, its laws, MetricsStorage.
--     UpdateGauge, UpdateCounter, BatchUpdate, GetGauge, GetCounter, GetAllMetrics and Ping are
--     update_gauge, update_counter, batch_update, get_gauge, get_counter, get_all_metrics and ping;
--     the lock makes each of them one step.
--   Storage/Postgres: internal/storage/postgresql.go, over a pool whose transactions are a parameter;
--     GetAllMetrics is pg_get_all_metrics in Storage/Postgres/Read, NewPostgresStorage and
--     runMigrations are in Storage/Postgres/Open.
--   Persist, Persist/Sync: saveMetrics, loadMetrics, dirOf and syncStorage of cmd/server/main.go. The
--     disk maps paths to contents, and a save lists the states of the disk that it goes through.
--   Server: run() of cmd/server/main.go up to the start of the HTTP server. Server/Running: what happens
--     from then on to a storage in memory, as steps of handlers, of the periodic save, of the signal
--     and of the final snapshot, where a save is two steps, its copy of the storage and the end of its
--     work on the file. Server/Guarded: its middlewares by its settings. Buildinfo: main and internal/buildinfo.
--   Audit: internal/audit/audit.go: the queue and the dispatch goroutine as steps on one state, and the
--     observers (Audit/Observers).
--   Crypto: Encrypt and Decrypt of internal/crypto/crypto.go. Crypto/Keys: its two loaders of keys.
--   Retry: retryOnConnErr of internal/agent/util.go and withRetry of internal/storage/postgresql.go.
--   Handler: internal/handler/handlers.go: each handler takes the request, the state behind the
--     handlers and the response so far, and returns the last two anew. Handler/Page: the template of
--     the root page. Handler/Routes: RegisterRoutes, and a request that comes through the routes;
--     Handler/Routes/Stub: internal/server, the router with one route, which no command uses.
--   Middleware: internal/httpmw, NewSHA256CheckMiddleware, and the chain that run() of
--     cmd/server/main.go builds. A handler is seen there through its calls on the response writer.
--   Agent: internal/agent/sender.go. Agent/Compress: Compress of internal/agent/util.go.
--     Agent/Collector: collector.go and gopsutil_collector.go; Agent/Collector/Goroutines: AddMetric,
--     StartFlusher and the sendBatch goroutines that they start, as steps in any order.
--     Agent/Setup: run() of cmd/agent/main.go up to the start of its goroutines. Agent/Main: pollers,
--     reporter and workers as a step relation, in which any goroutine that can move moves next; the
--     clock and the signal are steps as well. Agent/Main/Exit: the end of run(), which waits for the
--     goroutines or for 30 seconds. Agent/GrpcMode: the agent that reports over gRPC.
--   Grpc: internal/grpcserver and internal/agent/grpcsender.go.
--   Config: internal/config/config.go. Config/Agent: internal/config/agent.go.
--   Reset: cmd/reset/main.go: the lines for the fields, the text of the template (Reset/Generate), the
--     directories that are visited (Reset/Walk), main (Reset/Main), whose starting directory is a path
--     that filepath.Clean leaves as it is, and what the lines mean (Reset/Values, Reset/Typing,
--     Reset/Empties). Reset/Generated: internal/audit/reset.gen.go.
--   Linter: cmd/linter/analyzer: exit_check.go and panic_check.go.
--   Pool: internal/pool/pool.go. Logger: internal/logger: logging.go, and logger.go in Logger/Init.
--   Fixtures, Middleware/Toy and the modules named Tests: concrete instances and runs.
--
-- Loops are structural recursion on the lists that they go through, and the retry loops on their list
-- of three delays, so that no fuel is needed and every function returns. The audit queue holds 256
-- events, the channel of jobs two for each worker, and the drain context ends after 30 seconds, as in
-- the source. A run that ends is found by recursion on the steps that are left on it, which is a
-- measure of the state.
--
-- Code of other packages is a parameter, and what a theorem relies on is a named hypothesis: IsJson,
-- IsGzip, IsPair and IsFull (crypto), IsVisit (map order), IsRetry (backoff), IsLibs and IsAgentLibs
-- (mergo and env), IsPool (transactions), IsRouter (chi); that os.CreateTemp makes a file that is new
-- (IsFresh) is a premise of the steps that save. The keyed hash, which is crypto/hmac, has no
-- hypothesis.
--
-- Not modelled: the goroutines that serve and stop gRPC; the parsing of Go files, the formatting of the
-- generated text and the execution of the page's template, which are of the standard library; the
-- lines that go to the standard log; the code generated from internal/proto; loadJSONFile's reading
-- of the file, Ping and Close of the PostgreSQL storage and ComputeHMAC, which only call a library.
-- SendMetric as a whole is one step of a worker in Agent/Main. The request body is one piece, of which
-- a reader gets all or an error; a body that is written with a status that allows none, such as 204,
-- which no handler uses, is not dropped; the HTTP server, and the middlewares StripSlashes, Recoverer, Logger
-- and RequestID of the routers are left out.
mod Base
mod Fixtures
pub mod Model
pub mod Wire
pub mod Strconv
pub mod Storage
pub mod Persist
pub mod Crypto
pub mod Retry
pub mod Audit
pub mod Http
pub mod Handler
pub mod Middleware
pub mod Agent
pub mod Grpc
pub mod Config
pub mod Server
pub mod Reset
pub mod Linter
pub mod Pool
pub mod Logger
pub mod Buildinfo

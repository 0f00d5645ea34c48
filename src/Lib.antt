-- ===== src/Lib.antt =====
-- Verification library of the DinaPay connector for Binance Pay.
--
-- The program takes payment and refund requests from the V2 orchestrator, sends them to Binance Pay,
-- keeps operations, orders, events and refunds in PostgreSQL, receives the provider's webhooks, polls
-- orders that are still open, and publishes provider events to the orchestrator from an outbox.
--
-- Files, and the code they model:
--   Core/          internal/core: Model has the structs of model.go, Error those of ports.go, Context
--                  that of observability.go; Value is JSON as a tree, Encode and Decode follow the
--                  field tags, Stored is what is read back of payments and refunds, and RoundTrip joins
--                  the two; Capabilities is what the server writes of itself, Strict and Commands what it
--                  reads with DisallowUnknownFields, maps of values of any type, and the connections that
--                  main reads.
--   Store/         internal/adapters/postgres: Schema has the tables of migration.sql, Operations
--                  ReserveCreate, CompleteCreate and FailCreate, Orders the search and the status
--                  updates, Schedule the claim and the retries, Events RecordProviderEvent and the
--                  outbox, Refunds the four operations on refunds, Stats Open with the migration and
--                  Stats (all of store.go). A statement is a function from the tables to its answer and
--                  the new tables.
--   Effects        The world and the monad of actions: time, statements that fail, HTTP, randomness,
--                  the requests that were sent and the metrics. Effects/Sql has statements, queries and
--                  transactions; Effects/Keeps and Effects/Sent have the rules for invariants of the
--                  tables and for the number of requests.
--   BinancePay/    internal/binancepay: Types and Client of client.go, Webhook of webhook.go with its
--                  verifyRSA in Webhook/Rsa.
--   App/           internal/app: Service (Create, Get, Cancel), Refunds (CreateRefund, GetRefund) and
--                  Status of service.go, Webhook of webhook.go, Reconciler of reconciler.go, Workers the
--                  parallelEach of reconciler.go as a step relation, with what holds of its
--                  interleavings in Workers/Conserved and Workers/Progress.
--   Publisher      internal/adapters/publisher/publisher.go: flush.
--   Metrics/       internal/observability/metrics.go: the registry, what each call changes, and in
--                  Exposition its text.
--   HttpApi/       internal/transport/httpapi/server.go: Message has requests and statusWriter, Headers
--                  the identifiers, Routes the patterns and the mux, Body decode, Server the writing of
--                  answers and the middlewares auth and internalOnly, Handlers the handlers, Observe New
--                  and observe. Demand says what a request may ask for, Effect and Returns are the rules
--                  for what a handler does and returns.
--   Connector/     cmd/connector/main.go: Configuration has the environment and the connections, the
--                  parent the start, collectMetrics, and a run as a list of HTTP requests and ticks.
--   Program/       The program as its surroundings drive it: a run is a list of requests, webhooks and
--                  ticks of the reconciler and the publisher, in any order. Program/Tables is the
--                  interface between the store and an invariant: what holds after every writing
--                  operation of the store holds after every run.
--   Invariants/    The invariants that fill that interface, and what follows of them for Open and for
--                  the outbox.
--   Idempotency/   Creation with an idempotency key, from the service and over HTTP: requests, replay,
--                  conflict.
--   Webhooks/      Webhooks and the tables.
--   Shared/, Strings/  Lists over the native numbers, tables, byte strings, decimal numbers, rationals.
--   Tests/         Runs on concrete inputs.
--
-- How the code is read:
--   * A Go string is a list of bytes. Case and white space are those of ASCII: the words, currencies
--     and signatures that the program folds are ASCII, and a letter outside it keeps its case here.
--     The texts that are written as JSON come from JSON, so that they are valid UTF-8, which JSON keeps.
--   * A time is a number of nanoseconds from the year 1, the zero of time.Time. In JSON it is kept as an
--     instant, and a timestamptz column keeps what the parameter `timestamptz` says of it.
--   * JSON text, SHA-256, HMAC-SHA-512, the clock, the random source, HTTP, the failure of each
--     statement and the rows that SKIP LOCKED passes over are fields of `Env`, read at the number of the
--     step, so that a theorem about every world is one about every behaviour of these. A request that
--     cannot be built is one that `http` answers with an error. big.Rat.SetString is defined for plain
--     decimals; for other forms it is the parameter `rational`. What verifyRSA uses of the packages
--     pem, x509, base64, hex and rsa is the record `Crypto`.
--   * JSON names match without regard to case, and the last match wins. null leaves a field as it is,
--     but sets one that is a map or a pointer to nil. In a map of values of any type, a number is read
--     as a float64 and kept as `float_text` prints that, and the keys are kept in the order in which a
--     map is written.
--   * A payment or a refund with a time in the year 10000 or later has no JSON: Marshal answers an error,
--     which the store drops and stores NULL, and which the server drops and writes no body. The other
--     times that are written come from the clock, which reads an earlier year, or from JSON. Times in
--     JSON stand in UTC.
--   * A Go function that returns a value beside an error returns the error alone.
--   * Times and durations do not overflow, nor do the counters of the metrics, which are uint64. The
--     float64 sum of a histogram is kept as the list of the durations that were added to it.
--   * The rows of a claim are answered in the order of the claim. The maps of a stored order or refund
--     are read back as they were stored: the program stores texts in them, with the keys in order.
--   * A statement that fails changes nothing, and a transaction whose commit fails has written nothing.
--   * In a run of the program the workers of parallelEach take the payments one after the other, and
--     requests do not interleave inside one transaction or between the statements of one request.
--     App/Workers has all interleavings of the workers with work as one step that ends.
--   * A request is what net/http hands over: a clean path in segments without escapes, the headers in
--     their order, the bytes of the body that arrive and the error after them. Redirects of unclean
--     paths are not part of it, nor is what net/http does with a reply.
--   * The texts of decoding errors are not those of encoding/json. Where a JSON object of a map repeats
--     a key, the last value counts; two values for one map or pointer field are not merged.
--   * Durations are compared in nanoseconds, and what fmt prints of a sum of seconds is a parameter.
--   * A log.Fatal of main is an error of the start.
--   * Loops are structural recursion on lists. The digits of a number are taken with one more step of
--     fuel than the number, of which each digit uses one and divides the number by ten.
--
-- Not modelled: the ticker loops (they are the ticks of a run), signals, timeouts and the shutdown of
-- the HTTP server in cmd/connector/main.go, the log lines of slog, the pool of store.go, and the limits
-- of the HTTP clients: these call packages that are not in the repository and change no state of it.
pub mod Shared
pub mod Strings
pub mod Core
pub mod Store
pub mod Effects
pub mod BinancePay
pub mod App
pub mod Publisher
pub mod Metrics
pub mod HttpApi
pub mod Connector
pub mod Program
pub mod Invariants
pub mod Idempotency
pub mod Tests
pub mod Webhooks

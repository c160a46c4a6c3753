-- ===== src/Lib.antt =====
-- Jack, the service that takes background jobs from producers and puts them into queues.
--
-- A client calls BackgroundJobs (internal/api/server.go): Enqueue and EnqueueBulk make a job of each
-- request, with an ID (internal/jobid), a priority from its payload or from the registered job type
-- (internal/storage), and hand it to a queue backend (internal/queue), or, if it is for later, to a scheduler
-- (internal/scheduler), whose task calls the service back when the time has come. AdminService registers
-- producers and job types.
--
-- The files and the code that they model:
--   Common      what the others share: tests, lists, digits, integers, text and finite maps.
--   Go          errors and errors.Is, instants and durations, %d, UTF-8.
--   Proto       the messages in proto/jackpb.
--   World       the state of a run and the calls that leave the process: the clock, the random source, metrics,
--               Pub/Sub, Cloud Tasks and Cloud Storage, and the end of each connection. A handler is a function of
--               the state.
--   JobId       internal/jobid/jobid.go. Base62 has `encodeBase62`, `isZero` and `divideBy62`, Checksum has
--               `crc16`; Division, Digits, RoundTrip, Fields and Shape hold the theorems.
--   Queue       internal/queue/queue.go, with Adapter (adapter.go, adapter_legacy.go), Noop (noop.go) and
--               PubSub (pubsub.go). Contract states what the interface promises, and Apart what it leaves alone.
--   Scheduler   internal/scheduler/scheduler.go and noop.go, with CloudTasks (cloudtasks.go).
--   Storage     internal/storage/storage.go, with Memory (memory.go), and Bucket and Gcs (gcs.go). Laws states
--               the invariant of the two maps, Contract what a user of a store relies on, with the memory store as
--               the reference, and Operations a store over time; Gcs.Restart is about two processes in turn.
--   Api         Status has the codes of gRPC, Server internal/api/server.go: Enqueue and Bulk are its two
--               handlers, Outcome, Accepted, Routing and Dropping are about the first, and the modules below Bulk
--               about the second. Admin is internal/api/admin_server.go, Http an HTTP request, and Callback
--               internal/api/callback.go with its route.
--   Cenv        internal/cenv/cenv.go, and Config internal/config/config.go.
--   Jack        cmd/jack/main.go: which store, backend and scheduler the servers are started with, and which
--               server a request goes to. Runs has the states that a process reaches by answering calls, and
--               Lifetime main as a whole, up to its shutdown.
--   Examples    data, and the theorems applied to it.
--
-- Loops are structural recursions, but for the loop of `encodeBase62`, which divides until nothing is left: it
-- runs on fuel, twice the number of bytes, since two base-62 digits hold more than a byte. The goroutines of
-- ScheduleBulk run in an order that is a parameter; those of the Pub/Sub EnqueueBulk only wait, each for the
-- outcome of its own message, and write the entry of their own index. A mutex makes an operation of a store one
-- step.
--
-- Parameters: crypto/sha256, crypto/rand and the clock, encoding/json, protojson and RFC 3339, timestamppb,
-- time.ParseDuration, the metadata of gRPC, the path of a URL, the clients of statsd, Pub/Sub, Cloud Tasks and
-- Cloud Storage, the HTTP server, and the order in which `range` visits a map.
--
-- Not modelled: the sockets, HTTP/2 and the generated transport code, which are libraries, and a failure of the
-- HTTP server after it has begun to listen; log lines; and calls of one process at the same time, which are
-- answered one after the other here: the state that they share is that of the store, whose operations a mutex
-- makes atomic.
pub mod Common
pub mod Go
pub mod Proto
pub mod World
pub mod JobId
pub mod Queue
pub mod Scheduler
pub mod Storage
pub mod Api
pub mod Cenv
pub mod Config
pub mod Jack
pub mod Examples

-- ===== src/Lib.antt =====
-- The control plane of playwright-distributed: the Go server that hands browser sessions to
-- workers.
--
-- The server keeps workers, sessions and API keys as PostgreSQL rows. Clients ask the scheduler
-- for a session, which a claim transaction inserts under the row lock of a worker; workers send
-- heartbeats; a rescuer sweeps away what fell silent.
--
-- Db models server/internal/db/data: the rows of models.go in Db.Models, and each SQL statement of
-- sessions.sql.go, workers.sql.go and api_keys.sql.go as a function of the same name on the
-- committed tables (Db.Sessions, Db.Workers, Db.ApiKeys). Scheduler models
-- server/internal/scheduler: Claim has claimOnce one round trip at a time, System the
-- interleavings of many claims with the other statements, Capacity the invariant of that system,
-- Retry claimOnce as a whole and the loop of Claim, Queue the admission loop of Admit, with the
-- count of queued requests in Queue.Depth, Waker the waker and the back-off of the listener,
-- Heartbeat the transaction of a worker's heartbeat. Rescuer models
-- server/internal/rescuer/rescuer.go: the sweep as its three transactions. Relay models
-- server/internal/relay/manager.go: Manager the accounting by which Shutdown waits for attachments
-- and relays, one critical section of the mutex a move, with the stages of attach of
-- server/internal/httpapi/relay.go; Outcome the close codes and the outcome of a relay, Loops the
-- rounds of the four loops of a relay, Run the relay itself: the channel of events, the goroutines
-- and the steps of Run as acts of one state, in any order; Shutdown its two waits, Version the two
-- version patterns of version.go. Http models server/internal/httpapi: Auth the bearer token and
-- TokenAuthenticator of auth.go, one request at a time with the latch and the tables passed on;
-- Response the refusals and authMiddleware; Sessions, Workers and Capacity the handlers of
-- server.go by the answer they give; Relay the two relay routes of relay.go, Relay.Dial the
-- headers of dialWorker, and Relay.Attach what attach does to the session, up to the end of the
-- relay in Attach.Relayed. ApiKeyCommand models server/internal/apikey/command.go: the parse of
-- the subcommands, Create and Revoke, with List and Execute in Execution. Server models the start
-- of server/cmd/server/main.go, and Server.Serving serve with its timeouts. Config models Load of
-- server/internal/config/config.go, with the parsers of durations and integers as parameters, as
-- the flag parser, the uuid parser, the trimming of names and the hash of a token (SHA-256 in
-- hexadecimal) are parameters elsewhere. Base holds shared helpers, Tests concrete runs.
--
-- A uuid is a number, a time counts microseconds, a text is its bytes. Time and fresh ids are
-- arguments; the durations of the configuration count nanoseconds. A transaction outside the
-- claims runs in Db.Driver: a monad of round trips over the tables, where nothing of other
-- transactions shows between two statements, unless the function has an argument for what others
-- do there. The JSON codec, the parser of URLs and the comparison of host names are parameters of
-- the handlers; the framework that checks the schema of a request before a handler runs is not
-- modelled, nor are the sockets of a relay, of which a call is its error. The database and its
-- driver are the environment: each round trip has a reply that is delivered, refused or lost, and
-- each statement runs at once on the tables of that moment. A statement that waits for a row lock
-- in PostgreSQL may run here at any time, which only adds behaviours. Numbers of the database are
-- not bounded here. The loop of Claim runs on its count of attempts, and an attempt on its seven
-- round trips. The loop of Admit runs on fuel: a turn more than the first turn that is told to
-- stop is enough. Nothing else runs on fuel. The panic of a WaitGroup that falls below 0 is the
-- result none. The error of a rollback that fails, which the code joins to the error of the
-- transaction, is not modelled: errors.Is finds the first error in the joined one all the same,
-- and the transaction is undone with its connection. The bytes of messages, timers and logging are
-- not modelled.
pub mod Base
pub mod Db
pub mod Scheduler
pub mod Config
pub mod Relay
pub mod Http
pub mod ApiKeyCommand
pub mod Rescuer
pub mod Tests
pub mod Server

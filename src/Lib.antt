-- ===== src/Lib.antt =====
-- phylax streams PostgreSQL's logical replication to subscribers in the process, to webhooks and an
-- SSE console, and to a transactional outbox. This library models the package phylax and its two
-- commands.
--
-- The parts. A client (cdc.go) opens a session and runs a replication stream (stream.go), which
-- receives WAL records, decodes each into changes (decode.go), gives the inserts on the outbox table
-- to the outbox consumer (outbox.go), and every other change to a broadcaster (broadcast.go) and to
-- a handler, which for the client publishes to its own broadcaster. A second goroutine of the stream
-- reports its position to the server; one goroutine for each topic delivers outbox rows; one for each
-- registration reads a subscriber's channel. The server of the console (sse.go, dashboard.go) subscribes
-- each request for /events to the client's broadcaster. The command cmd/phylax makes a client from its
-- flags, gives each change to the standard output or to a webhook, and serves the console;
-- cmd/sse-client prints the stream of /events.
--
-- The files, with what they model:
--   Base and Base/*: tests, lists, texts (a Go string is the list of its bytes), maps, 64-bit words,
--     errors and results (a value, an error or a panic), int64, channels with a buffer.
--   Change: Change of decode.go, MetricsSnapshot of metrics.go.
--   Decode: Decode, counted, relationFor, tupleToMap of decode.go. The relation cache and
--     metrics.ChangesProcessed are one state that a call returns.
--   Broadcast: every method of broadcast.go. Channels stand on a heap, by address; a method runs under
--     the mutex and is one step. Broadcast/History runs any list of calls and reads. Broadcast/Views:
--     broadcasters up to the order of the Go map of their subscribers, as an equivalence and as a
--     quotient; Cdc/Orders has the ids of unsubscribeAll in any order.
--   Outbox: ToOutboxRow, Handle, deliverWithRetry, ack of outbox.go. Outbox/Queues: enqueue and the
--     drainers, as interleavings of the receive loop, each topic's goroutine and the context.
--   Stream: NewReplicationStream, OutboxStats, ReplicationLag, handleCopyData of stream.go; in
--     Stream/Sessions Run, heartbeatLoop and sendStatusUpdate, as interleavings of the receive loop and the heartbeat goroutine.
--   Setup: slot.go and publication.go, over a record of database operations with two laws.
--   Cdc: New, OnChange, Start, MetricsSnapshot, unsubscribeAll, publishChange, replicationDSN and
--     retryable of cdc.go. The loop of Start reads a list of rounds: what a session returns, whether the
--     context is done, whether the wait was slept out.
--   Cdc/Sessions: runOnce and clientConfig of cdc.go, connect.go, config.go, IdentifySystem of
--     replication.go.
--   Cdc/Goroutines: the goroutine that OnChange starts. Cdc/Races: OnChange and unsubscribeAll as
--     interleavings of the parts that their locks separate. Cdc/Deliveries: OnOutboxDelivery,
--     outboxDeliveryFunc and deliverOutbox of cdc.go.
--   Sse: the frames of sse.go. Sse/Connections: NewSSEHandler, any number of handlers and the other
--     users of their broadcaster as interleavings, and NewMetricsHandler; Sse/Streams follows one
--     connection through them, and Sse/Marshals what it was sent of each change. Sse/Lifecycle:
--     NewServer, ensureInit, httpServer, Serve, ListenAndServe and Shutdown, with calls of Serve and
--     Shutdown as interleavings. Sse/Routes: Handler of sse.go and serveDashboard of dashboard.go.
--   Listener: listen and main of cmd/sse-client/main.go, by the reply to each request. Listener/Clients
--     joins it to the handlers of Sse, Listener/Rounds has the rounds of main.
--   Pipeline: handleCopyData of stream.go on records, with publishChange of cdc.go as its handler, and the
--     handlers of Sse on the client's broadcaster, as interleavings. The decoding of a record is one
--     step, and so is a round of the loop over its changes, which are left in the state; a turn that is
--     not the stream's to take changes nothing.
--   Command: of cmd/phylax/main.go the options, splitTables, dashboardURL, run, newConsoleServer and
--     stdoutHandler. Command/Flags: parseFlags, with flag.Parse and strconv.ParseBool of the standard
--     library on the arguments, and main.
--     Command/Semaphores: webhookChangeHandler, as interleavings of its callback and its goroutines.
--   Webhook: postWithRetry and postJSON of cmd/phylax/main.go.
-- In each folder, Examples has tests at concrete inputs.
--
-- Bounds. Counters and LSNs are 64-bit words with their wrap-around; the counters are int64 in the
-- source and are kept as residues modulo 2^64. The queue of a topic holds 256 rows, 64 drainers run at
-- a time, a row is tried six times, a webhook three times, five webhook deliveries run at a time, a line
-- of the SSE client has less than 65536 bytes. The print of a number takes its value plus one as fuel,
-- and it has at most that many digits. The goroutine of OnChange takes the reads of its channel as fuel: one more than the
-- changes that a closed channel holds. The loops of Run and Start and the interleavings read lists of
-- events, so a run is as long as the list; nothing else takes fuel. The number of a registration is not
-- bounded, and the source's is an int.
--
-- Parameters: the parsers of pglogrepl (Parse, ParseXLogData, ParsePrimaryKeepaliveMessage),
-- encoding/json, the HTTP client, net.Listen, what a write to a client returns, the embedded page, the
-- user's handlers, the answers of timers, contexts, sends and connections, and the database. Nothing is
-- assumed of them but the two laws of Setup: a slot and a publication that were created without an error
-- are found; and, where a theorem on the SSE client says so, that the JSON of a change is one line of
-- bounded length.
--
-- Not modelled: signals, logging, the messages on the standard error; the headers of the HTTP answers,
-- and paths that http.ServeMux redirects; the waiting of sleepCtx, of which there is the answer; the
-- benchmarks, which are no code of the program; the rendezvous of a channel with capacity 0, on which a
-- send here finds no room; an upper limit of a channel's size; the trees of errors.Join, an error being
-- a linear chain of `%w`. Some steps are coarser than the source's: enqueue is an append to a list where
-- a change is routed, and its waiting in once.Do and its drop after two seconds are modelled in
-- Outbox/Queues alone; the number of a request for /events and its Subscribe are one step; so are a
-- heartbeat's load of lastLSN and its send.
pub mod Base
pub mod Change
pub mod Decode
pub mod Broadcast
pub mod Outbox
pub mod Stream
pub mod Setup
pub mod Cdc
pub mod Webhook
pub mod Sse
pub mod Listener
pub mod Pipeline
pub mod Command

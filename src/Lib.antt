-- ===== src/Lib.antt =====
-- The core of Chukrun, an execution runtime in Go (core/), modelled in antt.
--
-- A request is submitted to the execution manager, which asks the lifecycle manager whether the
-- runtime takes work, queues the execution at the priority scheduler, and starts it in a goroutine
-- when a slot is free. The run resolves its provider at the registry, passes the middleware
-- pipeline, makes its attempts with backoffs between them, stores the result, publishes what
-- happened on the event bus, gives its slots back and wakes its waiters.
--
-- - Errors: core/errors/error.go.
-- - Lifecycle: core/lifecycle/manager.go. `transition`, `report_component_health` and the others are
--   its methods. Graph is the transition diagram, Histories the sequences of calls, Health the
--   reports, the snapshot and the restart cooldown.
-- - Config: core/config/manager.go. Defs has the types and the defaults, Overrides the values of the
--   process environment and of the code, Check `Validate`, and Load `LoadConfig`; the proofs are in
--   Validity and Sources.
-- - Context: core/context. Priority and Layers are the layers of a context and what reads them, Derive
--   the functions `With...`, Merge is `Merge` with its helpers, Session session.go, and Proto
--   serialization.go. The proofs are in Derive/Metadata and Lineage, Merge/Fields, Metadata, Picked,
--   Vars and Rules, Session/Sharing, Proto/Crossing and Losses.
-- - Execution: core/execution. Types, Retry, Registry and Scheduler are the files of those names;
--   Manager is manager.go: its state in State, then Submit, Batch (`SubmitBatch`), Cancel, Schedule
--   (`scheduleNext`), Attempts (`executeAttempts`), Run (`runExecution`) and Streams (`Stream` and
--   `runStreamExecution`); System puts them together as steps that interleave. The modules beside
--   and below them hold the proofs: Scheduler/Dispatch, Credits, Contents and Progress;
--   Manager/Slots, Dispatching, Submitting, Overshooting, Cancelling, Retrying, Answers, Outcome,
--   Streams/Delivery and Hanging, System/Places, Ends, Changes, Once and Races; Retry/Bounds;
--   Registry/Names.
-- - Middleware: core/middleware. Pipeline, Auth, RateLimit, CostGuard and Cache, with the proofs in
--   Pipeline/Order, Auth/Gate, RateLimit/Burst and Cache/Reuse; Auth/Remote joins the authorization to
--   the contexts of Proto.
-- - Events: core/events/bus.go. Topics has the namespaces and the patterns, with the proofs in
--   Topics/Matching; Bus/Defs has the events, the subscriptions and the bus, Bus/Publish publishing and
--   dead letters, and Bus/Subscribe subscribing and the subscribers' loops, with the proofs in
--   Bus/Queues, Sending, Publishing, Subscribing and Reaching.
-- - Telemetry: core/telemetry/logger.go (Logger), from the levels to the queue of the sinks, with the
--   proofs in Logger/Redaction, and the settings of the process in logger.go and telemetry.go
--   (Globals).
-- - Runtime: core/runtime.go and core/bootstrap.go. Defs is the state with `NewRuntime` and its
--   options, Boot is `Initialize` and `Restart`, Serve is `Execute`, `Health` and `Shutdown`, and
--   Calls any sequence of calls; Steps, Quiet, Booting, Restarting, Draining, Abandoning, Stuck,
--   Shifts and Sound hold the proofs.
-- - Base holds the lists, numbers and dictionaries that all share; Tests runs the theorems at
--   concrete inputs.
--
-- How the code is modelled. An operation is a function from the state to the state and its answer,
-- one call at a time: the locks make the calls of the lifecycle manager, of the scheduler and of the
-- runtime atomic. The operations of the execution manager are functions too, each with nothing in
-- between, and System has the steps of which they consist: the halves of `Submit`, one round of
-- `scheduleNext`, the start, the writes and the end of a run, and the calls of `Cancel` and `Wait`,
-- in any order. The time is an argument. What a provider, a delay or a context does in a run is its
-- `World`, or `StreamWorld` where it is streamed, with the number of chunks that the caller takes; a
-- token verifier, the arithmetic of float64, and the random numbers of a jitter are parameters too.
-- A Go int is ℤ, wrapped at 64 bits where the code multiplies; a map is an association list; a
-- pointer to an execution is an address on a store; a panic that the code can reach is a missing
-- value, or an outcome of the runtime's calls. Where a run recovers from a panic, it calls
-- `logger.Fatal` after it gave back its slots and woke its waiters: the model records the call in
-- `fatals` and goes on as with a logger that returns, where the built-in one shuts the logs down and
-- ends the process (core/telemetry/logger.go).
--
-- The event bus has a step relation: subscribing, unsubscribing, a whole publication, a round of a
-- subscriber's loop, and settings of the queues and of the topic rules, in any order. The contexts of
-- one session share its variables, which lie at an address in the store of sessions. The process
-- environment, files and decoders of the configuration are a record of parameters.
--
-- Loops. `scheduleNext` recurses on the free slots: each of its rounds takes one, so the loop has
-- ended when they are used up. The attempts recurse on the rounds that `MaxAttempts` leaves. A
-- dead letter may overflow a queue and so cause another: this recursion is on fuel, and fuel for every
-- queued event that is not a dead letter, and every subscription, is enough. Everything else is
-- structural recursion.
--
-- Not modelled: the cancellation functions of contexts, the sinks of the logs, spans and metrics with
-- the header of a trace parent, and the middlewares that only log and count. They reach the outside,
-- or enter as what a run meets; a recorded cost also goes to the budget of its context. Panics of
-- providers and of middlewares in a run, and two streams that share an id, are left out. The capacity
-- of a subscriber's queue is not negative (the code would panic at the next subscription), and lists
-- are values, so what `LoadConfig` writes through a list of providers into its caller's overrides is
-- not seen. Generated code, the Python SDK and the entry points have no logic of their own here.
pub mod Base
pub mod Errors
pub mod Config
pub mod Lifecycle
pub mod Runtime
pub mod Context
pub mod Execution
pub mod Middleware
pub mod Events
pub mod Telemetry
pub mod Tests

-- ===== src/Lib.antt =====
-- LoadWave, a distributed load generator: models of its Go code and theorems about them.
--
-- A coordinator (internal/coordinator) accepts agents, splits a run's virtual users over them
-- (internal/apportion), gives each agent a block of user ids (internal/idspace), collects the
-- metrics that the nodes send (internal/metrics) and decides when a run is over and whether it met
-- its thresholds.
--
-- The files, and the code that each is about:
--
-- Prelude, with Prelude/Tests, Prelude/Lists, Prelude/Suffix, Prelude/Int and Prelude/Assoc: Boolean
-- tests, lists over the native numbers, their last elements, signed integers, Go's 64-bit arithmetic
-- with its wrap-around, and maps as association lists.
--
-- Apportion: internal/apportion/apportion.go. `total_weight` and `floors` are the two loops of
-- `Largest`, `sort` stands for the stable sort of the claims, `hand_out` is the last loop. Below it,
-- Exact has the same method over the natural numbers and that the code agrees with it while no
-- product leaves `int64`; Total, Quota, Order and Even prove what that method does, and Shares
-- carries it over to the code.
--
-- Idspace: internal/idspace/idspace.go.
--
-- Metrics/Rle: `encodeRLE` and `decodeRLE` of internal/metrics/histogram.go. A slice that the runtime
-- refuses to make is the result `panic`; `max_slice` is the limit of 48 bits of addresses.
--
-- Metrics/Histogram: the rest of internal/metrics/histogram.go. `Hdr` is the HDR library, and `Scaling`
-- its multiplication and rounding of floats.
--
-- Metrics/Aggregate: internal/metrics/aggregate.go. `Measures` has the floats and the histograms of the
-- run's configuration, as Metrics/Measured fills them from Metrics/Histogram; `change_series` is an
-- assignment through the pointer that `find` returned.
--
-- Metrics/Delta, Metrics/RecorderConfig and Metrics/Recorder: internal/metrics/recorder.go. A method is
-- one step, as it holds the lock of what it touches; Recorder/Tally has lists of uses in any order.
-- `none` is an index out of range.
--
-- Metrics/Bucket, Metrics/Ring and Metrics/Store: internal/metrics/store.go. Bucket has what a series
-- adds to an interval, Ring the ring of finalised intervals, Store the ingestion of batches, and
-- Store/Closing what files and lists the intervals, Store/Summary the sums of a run, on which thresholds
-- are evaluated.
--
-- Labels: pkg/loadwave/labels.go. The hash is a parameter.
--
-- Engine/Executor: internal/engine/executor.go, over a parameter `Reals` for floats, of which the
-- laws in Executor/Between are used: they speak of integers below 2 ^ 53, and of quotients of
-- `int64`. Engine/Pool: `resize`, `startVU`, `retireVU` and a tick of `control` of
-- internal/engine/engine.go; a virtual user is its id.
--
-- Scenario/Load: `LoadConfig.validate`, `asUint32` and the load profile of `Plan`, of
-- internal/scenario/config.go, next to which Load/Accepted puts the engine's constructors.
--
-- Metrics/Failures: internal/metrics/failures.go, the table of failures of a node and that of the
-- run. A method holds the table's lock throughout, so that a list of uses is any order of calls.
--
-- Coordinator/Phase and Coordinator/Run: internal/coordinator/run.go. The methods that change a run
-- are the constructors of `Operation`, so that a theorem over lists of operations speaks of every
-- order in which the goroutines that share a run can take its lock.
--
-- Coordinator/Thresholds: internal/coordinator/threshold.go, over a parameter `Floats` for
-- floating point numbers, of which no law is assumed, and one for the store's aggregates.
--
-- Coordinator/Completion: `StopRun`, `finish`, `checkCompletion`, `checkStopTimeout` and the work of
-- `tick` on the active run, of internal/coordinator/coordinator.go. Texts that `fmt` renders with
-- numbers in them are a parameter. One moment stands for all clock readings of a call.
--
-- Coordinator/Fleet: `dispatch` and `rebalance` of internal/coordinator/coordinator.go. The messages are
-- values in the order of sending, and what `Send` answers to each is a parameter. It uses Apportion
-- for the quotas and Idspace for the blocks of ids.
--
-- Registry: `SessionRegistry` of internal/control/server.go. A pointer is an id with a serial number.
--
-- Agent and Agent/Workers: `foldPhases` and `rebalance` of internal/agent/agent.go.
--
-- Shard: `Shard` and `Slice` of pkg/loadwave/vu.go.
--
-- Text: what is used of the packages `strings` and `strconv`. A text is a list of code points.
--
-- Scenario/Template: internal/scenario/template.go. What the source draws anew at each call, from a clock
-- or a random source, is a function of the turn of the call.
--
-- Scenario/Path, with Path/Document: internal/scenario/jsonpath.go. `Encoding` is encoding/json with the
-- conversions of floats.
--
-- Scenario/Step, Scenario/Compile, Scenario/Build and Scenario/Running: internal/scenario/declarative.go.
-- Step has a step of the configuration and its validation, Compile `compileStep`, Build
-- `BuildScenarios` with Build/Validated the validation of a scenario, Running what an iteration does with the virtual user, which is the interface `Client`.
-- Maps are association lists, so that the order in which Go visits a map is that of the list.
--
-- Sdk/Names and Sdk/Http: pkg/loadwave/http.go. `Net` has the operations of net/url, of the labels and of
-- the transport; a request that is sent changes the state `W` of the network. Http/Do is `Do`, whose
-- effects on the virtual user are a list of events.
--
-- Sdk/Floats: the `float64` that the recorder is given, with `msOf` of http.go.
--
-- Sdk/Pause, Sdk/Scenarios, Sdk/Vu and Sdk/Messages: pause.go, scenario.go, vu.go and `TruncateMessage` of
-- failure.go in pkg/loadwave. A panic of the random source is `none`.
--
-- Coordinator/History: `StartRun` where it holds the lock, the eviction of old runs, `OnRunStatus`, `OnLog`
-- and the global events of internal/coordinator/coordinator.go. Coordinator/Cluster: its `OnJoin`,
-- `OnLeave` and `OnHeartbeat`, over Registry; the two halves of the first two are operations of their own,
-- which Cluster/Racing puts in another order. Coordinator/Fleet/Scaling: its `ScaleRun`.
--
-- Agent/Telemetry: `OnStartRun`, `OnSetQuota`, `OnJoin`, `OnLeave`, `OnHeartbeat` and `OnRunStatus` of
-- internal/agent/agent.go.
--
-- A loop is a recursion over a list or down to a number that the code counts to, so there is no fuel
-- but for `bits.Len`, with the number itself, which Recorder/Pow2 shows to be enough; for the
-- placeholders of a template, with one more than the length of the text, which Template/RoundTrip shows
-- to be enough; and for the digits that `FormatUint` writes, with 20, as many as a number of 64 bits has.
-- Not modelled: gRPC streams, the HTTP transport, processes, logging and the publishing of updates,
-- which are input and output; texts rendered by `fmt`; the dashboard and the generated code; the
-- listings of the store, the goroutines of the virtual users, the reading of YAML, the workers, the
-- supervision of processes, the reports and the command line.
pub mod Prelude
pub mod Idspace
pub mod Apportion
pub mod Labels
pub mod Metrics
pub mod Registry
pub mod Scenario
pub mod Sdk
pub mod Text
pub mod Engine
pub mod Agent
pub mod Shard
pub mod Coordinator

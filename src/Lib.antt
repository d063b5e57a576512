-- ===== src/Lib.antt =====
-- KioMQ, a task queue for Rust, over its in-memory store.
--
-- The program. A queue (src/queue/mod.rs) keeps jobs in a store (src/stores/inmemory_store.rs). A
-- store holds the records of the jobs and the locks in two timed maps
-- (src/timers/concurrent_timed_map.rs), and the ids of the jobs in collections: three double-ended
-- queues for the waiting, the paused and the active jobs (src/utils/concurrent_structures.rs),
-- four sets sorted by a score for the prioritized, delayed, completed and failed ones, and the set of
-- the stalled ones. Adding a job gives it an id, puts it into a collection by its delay and priority,
-- records it and publishes an event; workers take ids off the waiting list or the prioritized set,
-- lock the job, run a processor on it, and report how it ended (src/worker/mod.rs, src/utils/mod.rs);
-- a coordinator for the whole process (src/metrics/process_metrics.rs) tells the queues when a timer
-- expires, for stalled jobs, locks, metrics and delayed jobs. An event goes to the queue's emitter,
-- after which the metrics that queue and store share are refreshed and the workers are paused or woken.
--
-- The files.
--   Prelude, Words: shared names, lists on native numbers, and machine integers.
--   SkipMap: the interface of crossbeam_skiplist, its laws, and instances that meet it (Listed, and
--     Keyed for names); Sweep is the pass that removes entries by a test.
--   Env: what the program takes from elsewhere: the payload types, chrono, croner and the maps.
--   Deque: `ConcurrentDeque`; Refine and Traces compare it with a plain list.
--   TimedMap: `TimedMap` and `ExpiryValue`; Expiry and Purge say when an entry is there.
--   Job: src/job/, with the delays, the backoff registry, the repeat policies and the options of
--     jobs and queues (src/job/mod.rs, delay.rs, backoff.rs, repeat.rs, src/queue/options.rs).
--   Suffix: `CollectionSuffix` and its keys; Metrics: `QueueMetrics` (both src/queue/options.rs).
--   Events: src/events/; Result: the errors of src/error/mod.rs and the shape of a method.
--   Store: `InMemoryStore`. Items has the collections, Ids their listing, Jobs the records, locks and
--     counters, Publish the events, Insert the new jobs. Below them and beside them stand what is
--     proved: Fifo, Pause, Delayed, Invariant, Items/Removal, Ids/Whole, Jobs/Held, Publish/Frame,
--     Publish/Workers, Insert/Score, Insert/Placed, Insert/Lands and Insert/Batch.
--   Queue: `Queue`. Moves has the transitions of a job, Control pausing, locks and emptying, Stalled
--     the check for stalled jobs, Retry retries and cleaning up.
--     What is proved of a whole move stands in Moves/Claim, Moves/Final, Moves/Finish and others.
--   Timers: the coordinator of src/metrics/process_metrics.rs, with the timers that
--     src/timers/delay_queue_timer.rs sends; Once, Told, Awaited and Registry say what it takes up,
--     whom it tells, and how long it keeps a worker. Timer: the repeating timer of src/timers/mod.rs.
--   Worker: src/worker/mod.rs and a queue's registry of workers. Process is `process_job` and
--     `get_next_job`, Loop is `main_loop` (src/utils/mod.rs); Timed is `promote_jobs` and
--     `process_timer` (src/timers/delay_queue_timer.rs); States says when a worker can be run,
--     and Loop/Cycle follows a job through the loop.
--   Rocks: src/stores/rocksdb_store.rs over ColumnFamily, an interface for a column family. Items, Jobs,
--     Publish and Insert have its operations; Alike compares it with the store in memory, Counted and
--     Lost say where the two part.
--   Examples: a concrete environment, and each result at concrete data.
--
-- How it is modelled. A method of the store or the queue is a function of the state, with the
-- readings of the two clocks in its call as an argument; a method that may fail is an `Action`,
-- which keeps what was written before an error. Calls are whole steps: interleavings within a
-- call, which the atomic cells and the lock-free maps allow, are not modelled. An `i64` is its
-- bit pattern, and arithmetic wraps as in a release build; an index of a deque is an `i64` plus
-- 2^63, so that a deque has room for 2^63 pushes on either side. A value behind a lock is
-- changed in place. A panic of `expect`, or of a date out of chrono's range, is the error
-- `panicked`. The cells that a queue hands to its store are fields of the store. Loops are
-- structural; the loop of `pause` runs on one round more than there are entries.
--
-- A worker's cells, which it shares with its tasks, are kept under its id, and its main loop is
-- a step relation: a loop rests where it awaits something, each stretch of code between two
-- rests is one step, and other steps may change everything but the cells of the worker in
-- between. The relation is about one loop of a worker: calls of `run` that fail are steps, and
-- one that succeeds, as it does while the loop waits for a notification, starts a second loop,
-- which is not modelled. The answer of a processor is an argument. What goes through a channel
-- of the coordinator of the timers is the argument or the value of a call, and of tokio's delay
-- queue there is what is put into it.
--
-- A record of the RocksDB store is held as what its bytes say, and its calls of the database
-- succeed.
--
-- Not modelled: the store over Redis (src/stores/redis_store.rs), which is a client of an
-- external program; the measurements of tasks and processes (src/metrics/), which are readings
-- of tokio and of the operating system; serialisation, tracing, and the subscription of
-- callbacks.
pub mod Prelude
pub mod Words
pub mod SkipMap
pub mod Env
pub mod Deque
pub mod Job
pub mod Suffix
pub mod Metrics
pub mod TimedMap
pub mod Timers
pub mod Timer
pub mod Result
pub mod Events
pub mod Store
pub mod ColumnFamily
pub mod Rocks
pub mod Queue
pub mod Worker
pub mod Examples

-- ===== src/Lib.antt =====
-- tonggeret: a crate for metrics. An observation (counter, gauge or histogram) updates an in-memory
-- Prometheus registry and is sent into a bounded channel; a writer thread takes it from there into an
-- embedded ordered store; and a compaction pass moves expired samples from the store into cold files.
-- A visitor tracker counts visits and estimates unique visitors by region, through the same engine.
--
-- The files, by the part of the repository that they model:
--   Error            src/error.rs
--   Types            src/types.rs: MetricType, names, labels, MetricEntry, PipelineMsg
--   Config           src/config.rs, with FilePath for std::path
--   Storage.Keys     src/storage/fjall_engine.rs: encode_key, cutoff_prefix, decode_key
--   Storage.Values   encode_value and entry_micros there, decode_value of src/storage/parquet_exporter.rs
--   Storage.Writer   writer_loop and flush_batch of src/storage/fjall_engine.rs, as steps of the thread
--   Storage.Export   src/storage/parquet_exporter.rs: run_compaction_once_blocking and PendingBatch;
--                    Storage.Export.Refines is what a pass does with one sample
--   Storage.Shared   a pass of it and the inserts of the writer thread on one store, in any order
--   Engine           src/engine.rs: EngineHandle and record; Engine.Pipeline is the step relation of
--                    callers, channel and writer thread together
--   Engine.Lifecycle src/engine.rs: init and spawn_compaction_task, over the process globals, and
--                    shutdown in .Close; .Reach is the step relation from init on while no
--                    compaction loop is started, .EndToEnd goes on from there to shutdown, and
--                    .Exported to a compaction pass
--   Visitors.Region  src/visitors.rs: parse_region, normalize_region, visitor_key
--   Visitors.Hll     src/visitors.rs: Hll; in .Sets, sketches as functions of a quotient, the sets of
--                    visitors
--   Visitors.Tracker src/visitors.rs: VisitorsTracker
--   Prometheus       src/prometheus.rs: PromRegistry, which fills the interface Engine.Registry
--   Storage.Open     open_handles of src/storage/fjall_engine.rs
--   Storage.Loop     compaction_loop of src/storage/parquet_exporter.rs, as its passes; in .Safe, what
--                    all of them together keep
--   Storage.ColdFiles
--                    latest_cold_file there; in .Served, that it finds what a pass publishes
--   Middleware       src/middleware/axum.rs and src/middleware/actix.rs: truncate_path in the parent,
--                    track and call in the children Axum and Actix, with the handlers of a scrape
--   Macros           src/lib.rs: counter!, gauge! and histogram!
--   Text             str, char, UTF-8, decimal and hexadecimal digits of the Rust standard library
--   Base             helpers on lists, options and Boolean tests
--   Examples         concrete libraries for the interfaces, and each result at a concrete input
--
-- Interfaces stand for code outside the repository: Storage.Json for serde_json, Storage.Partition for
-- a partition of fjall, Channel for tokio's mpsc channel, Visitors.Hll.Floats for the arithmetic of
-- f64, Prometheus.Library for the prometheus crate, and Storage.Export.Outcomes for the calls of a pass
-- that may fail. The laws in them state documented behaviour.
--
-- Storage.Shared runs a pass over any items that its scan may give, and notes the removals: in the code
-- the scan is lazy, over the live partition, and each removal and each insert is one call of fjall.
-- Elsewhere nothing is inserted while a pass runs, so its scan is the range at its beginning.
-- The order in which the map of sketches is iterated is an argument of Visitors.Tracker.snapshot.
--
-- Machine integers keep their wrap-around: dropped_total is modulo 2 ^ 64, the writer's sequence number
-- modulo 2 ^ 32. A panic is `none`. A text is the list of its code points, and its length is that of
-- its UTF-8 encoding. The text that an error of a library adds to a message is left out.
-- The only loop on fuel is Engine.Pipeline.Drain.run_writer, a number of steps of the writer thread;
-- two for each message in the channel and one more are enough to come to a shutdown message.
--
-- In Engine.Lifecycle.Close.shut_down the thread takes a given number of steps in each sleep of the
-- call, and `waits` steps in the join; a call that still waits after them is `none`. No other caller
-- sends while it runs. A process serves (Engine.Lifecycle.Deliver.Serving) if it has an engine that is
-- not shut down, with an open channel of at least one place, and a writer thread that has come from
-- its start to where it is by calls of record and steps of its own, with no shutdown message sent.
--
-- Engine.Lifecycle counts the compaction loops that are started and aborted; the passes of one loop are
-- Storage.Loop, and they are not interleaved with the steps of a process.
--
-- Not modelled: the panic of chrono where the time less the retention is out of its range; whether the
-- store was persisted, beyond that the call was made (a failure of it is logged); the encoding of a
-- Parquet file; how long the timers of the snapshot task and of compaction_loop sleep; the Transform
-- implementations of actix-web, which only wrap a service.
mod Base
mod Examples
pub mod Error
pub mod Text
pub mod Types
pub mod FilePath
pub mod Config
pub mod Channel
pub mod Storage
pub mod Engine
pub mod Visitors
pub mod Prometheus
pub mod Middleware
pub mod Macros

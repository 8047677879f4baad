-- ===== src/Lib.antt =====
-- The verification library of Zyrnix, a logging library in C++. A call of a logger passes the level,
-- the filters and the redaction and reaches the sinks; around it stand the limiters, the queue of
-- the asynchronous logger, the context of a thread, the metrics and the health checks. Each module
-- models one part as a record for its state and one function for each of its operations, under the
-- name in the source (a second function of one name, or a piece of a long one, has a name of its own
-- and says so), and its child modules hold the proofs.
--
-- - Prelude: what all modules share: lists, texts as lists of bytes, dictionaries, decimal numbers,
--   64-bit arithmetic with its wrap-around.
-- - Level: include/Zyrnix/log_level.hpp, include/Zyrnix/log_record.hpp, `parse_log_level` of
--   src/logger.cpp and `ConfigLoader::parse_log_level` of src/config.cpp.
-- - SignalSafe: src/sinks/signal_safe_sink.cpp. The kernel is the list of its answers to `write`.
--   `SignalSafe.Window` reads the ring as the bytes held, `SignalSafe.Stream` the file and the ring
--   as one stream, which is the specification of the sink.
-- - Limiter: src/rate_limiter.cpp.
-- - Async: src/async/async_queue.cpp. `Async.Threads` lets any number of threads interleave, as a
--   step relation; the wait of `shutdown` may end at any step.
-- - Context: src/log_context.cpp, for one thread.
-- - Filter: src/log_filter.cpp, with the cache of filters over a heap.
-- - Redact: `Formatter::redact` of src/formatter.cpp.
-- - Levels: the part of src/logger.cpp that changes the level of a logger, with the request to do
--   so in `Levels.Control` and its answer as JSON in `Levels.Response`; its state is the part of `Logger` of
--   include/Zyrnix/logger.hpp that this needs.
-- - Logger: the rest of src/logger.cpp: the sinks, the redaction settings, and `log` in
--   `Logger.Logging`, which calls Levels, Filter and Redact. `Logger.Removal` lets threads that log
--   and threads that change the sinks interleave, as a step relation.
-- - Output: the sinks that pass a line on, src/sinks/stdout_sink.cpp, src/sinks/udp_sink.cpp,
--   src/sinks/syslog_sink.cpp, multi_sink.hpp and null_sink.hpp of include/Zyrnix/sinks, and
--   src/color.cpp; `Output.Handles` is src/Zyrnix.cpp and include/Zyrnix/async/async_logger.hpp.
-- - Json: src/sinks/structured_json_sink.cpp and src/structured_logger.cpp; `Json.Reader` is a reader
--   of JSON that does not come from the program.
-- - Files: src/sinks/file_sink.cpp, src/sinks/daily_file_sink.cpp and `Formatter::format`, over a
--   directory of files as bytes, which Rotating and Compressed use too.
-- - Rotating: src/sinks/rotating_file_sink.cpp.
-- - Compressed: src/sinks/compressed_file_sink.cpp, over a compressor; `Compressed.Utils` is the
--   calls of zlib, zstd and the shell.
-- - Scan: how src/config.cpp finds values and lists in a text.
-- - Util: `trim` of src/util.cpp, and its calls of the file system as POSIX answers them.
-- - Config: the rest of src/config.cpp; `Config.Create` makes loggers of Logger.
-- - Reload: src/hot_reload_manager.cpp, over Config; `Reload.Watcher` is src/config_watcher.cpp.
-- - Cloud: src/sinks/cloud_sinks.cpp, for both services over the type of their events: `Cloud.Azure`
--   and `Cloud.CloudWatch` are the events and the requests, `Cloud.Worker` lets `log`, the worker and
--   the destructor take turns, as a step relation.
-- - Loki: src/sinks/loki_sink.cpp, with the counters of `SinkMetrics` of src/log_metrics.cpp.
-- - Pool: src/async/thread_pool.cpp, as a step relation.
-- - Metrics: `LogMetrics` of src/log_metrics.cpp; `MetricsRegistry` is in `Metrics.Registry`, the
--   snapshots and exports in `Metrics.Export`. `Metrics.Exposition` and `Metrics.Members` are readers
--   of the two formats that do not come from the program.
--   `Metrics.Maximum` lets threads record durations at once, as a step relation.
-- - Health: `HealthChecker` and `HealthRegistry` of src/log_health.cpp, which reads Metrics; the
--   changes of the registry are in `Health.Entries`, its summaries in `Health.Summary`, the texts in
--   `Health.Reports`, with what can be seen of JSON in one pass in `Health.Reports.Shape`.
--
-- Clocks, dates and the answers of the kernel are arguments. Parameters are the regular
-- expressions (std::regex), in Health and Metrics the arithmetic of `double` and its text, in
-- Compressed what zlib or zstd make of a file, in Output the sockets, in Cloud and Loki the answers
-- of libcurl, in Loki also what libcurl finds behind the pointer to the body of a request, in Config
-- std::stoull and std::stol. `CURLE_OK` from libcurl is not taken to mean that Loki has a batch.
-- Loops are structural, but for seven on fuel. The loop of `flush_buffer` passes at least one byte
-- in each round and has the number of bytes held as fuel; the loop of `redact` passes a pattern
-- that is not empty in each round and has the length of the message and one as fuel, and for an
-- empty pattern, where the source's loop does not end, `none` stands for that. The two loops of
-- the configuration's parser pass a byte in each round and have the length of the text and one.
-- The loop over the chunks of a file passes a byte in each round and has the length of the file,
-- and the loop of `int_to_str` has the 32 places of its buffer, of which a number fills ten at most.
-- The loop of `send_batch` has its fuel as an argument, since it ends with the service's answers
-- only.
--
-- Not modelled: rounding of `double`; the atomic operations of a sink, a logger or the metrics
-- that interleave with others of the same object, except in Async, Cloud, Pool, Logger.Removal
-- and Metrics.Maximum; temporary levels of a
-- negative duration (the end of one is a time point of 64 bits with a sign, taken to wrap);
-- failures of the file system but where a file cannot be opened; the half of src/util.cpp for Windows,
-- and the macros.
mod Prelude
pub mod Level
pub mod Limiter
pub mod Async
pub mod SignalSafe
pub mod Context
pub mod Filter
pub mod Redact
pub mod Levels
pub mod Logger
pub mod Metrics
pub mod Health
pub mod Json
pub mod Scan
pub mod Util
pub mod Config
pub mod Cloud
pub mod Loki
pub mod Output
pub mod Pool
pub mod Reload
pub mod Files
pub mod Rotating
pub mod Compressed

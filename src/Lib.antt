-- ===== src/Lib.antt =====
-- PulseMesh: the agent's core and the aggregator's store.
--
-- An agent parses its command line, collects metrics, builds batches of them with IDs that stay the
-- same over retries, and keeps each batch in a bounded queue until the aggregator acknowledges it.
-- The aggregator commits a batch to its time-series store, once for each batch ID, and answers range
-- queries page by page, queries for the latest sample, and replays of events behind an event ID.
--
-- The files, and the code that they model:
--   Wire                the messages of proto/metrics.proto, as records
--   AgentConfig         cpp/client/impl/agent_config: `parse_agent_config` and all that it calls
--   BatchBuilder        cpp/client/impl/batch_builder: `build` and `next_batch_id`
--   SyntheticMetricCollector
--                       cpp/client/impl/synthetic_metric_collector: `collect`
--   MetricCollector     cpp/client/i_metric_collector.h: the collectors' errors
--   ProcMetricCollector cpp/client/impl/proc_metric_collector: the state of the class as a record
--     Source            `MetricSample`, `make_metric`, `make_error`
--     Cpu               `parse_cpu_counters`
--     Memory            `parse_memory_metrics`
--   PendingBatchQueue   cpp/client/impl/pending_batch_queue: the state of the class as the record
--                       `Queue`, and a function for each method
--   TimeSeriesStore     cpp/aggregator/i_time_series_store.h and
--                       cpp/aggregator/impl/in_memory_time_series_store: the state as `Store`
--     Filters           `matches_tags`, `matches_filters`, `validate_query_filters`
--     PageToken         `encode_page_token` and `decode_page_token`
--     Buffer            `insert_bounded_metric`, on the buffer of one metric
--     Commit            `validate_batch`, `commit_batch`, `publish_staged_buffers`
--     Range             `make_range_query_plan`, `build_range_page`, `compute_stats`, `query_range`
--     Events            `query_latest`, `current_event_id`, `query_events_after`
--     Log               the log that `commit_batch` implements, an abstract description of the store
--     Interface         `ITimeSeriesStore` as a record of operations, and one of the laws that its
--                       comments promise
--     InMemory          `InMemoryTimeSeriesStore` as an implementation of the two
--     Subscriber        repeated calls of `query_events_after` through the interface
--   CollectorSmoke      cpp/client/collector_smoke.cpp: `collect_and_enqueue` and `main`
--   Delivery            the queue and any store behind the interface, over a connection that loses
--                       messages. The sender and the service between them are not in the repository
--                       yet; what they may do is a list of events, after the messages of
--                       proto/metrics.proto
--     InMemory, Once, Agents
--                       the in-memory store there, and the builders of the batches
--   Base, Text          shared tests, lists, maps, integers, doubles; printed and parsed numbers;
--                       extraction from a string stream
-- A file below one of these holds its proofs, and a file named Tests its runs and examples.
--
-- How the code is read. A method holds the lock of its object around all accesses to the members, so
-- that it is one step from a state to a state, and what several threads do is a sequence of steps. A
-- method that can fail returns `Expected`, and one that changes the state returns the next one beside
-- its result. A string is the list of its bytes. An unordered map is an association list, in which a
-- new key comes last, and a set is a list. Unsigned numbers that the code lets wrap around wrap
-- around at 2^64; event IDs are natural numbers, which the code keeps within `int64_t`.
--
-- Parameters. The type of a `double` and its operations are arguments of the definitions that
-- use them (Base/Double), since no law of rounding is needed; the order of finite values is a
-- hypothesis of the theorem on the aggregates, and whole numbers satisfy it. What
-- `std::random_device` draws for a session's nonce are two arguments, of 32 bits where a theorem
-- needs it, as `unsigned int` has them. The time of a sample is an argument, in the nanoseconds of
-- the system clock, and so is the reader of the collector's sources with the world that it reads:
-- the production reader's is a function from paths to contents. A percentage is the expression
-- that the code computes, with no law of its operations. The smoke program's clock and its pause
-- are functions on the world that its reader reads. The store that the agent's queue is connected
-- to is a parameter of Delivery, with the laws of the interface.
--
-- Fuel. `digits` prints `n` with `n + 1` rounds, and each round divides what is left. `follow`,
-- a client that pages through an answer, has one round for each requested sample and one more,
-- and so has `follow_while`, where batches are committed between the pages. `poll_while`, which repeats
-- `query_events_after`, asks once more for each list of batches that is committed in between.
--
-- Not modelled: the generated Protobuf code, whose accessors are field accesses here; memory
-- allocation and its failures; the Python package, which has no code of its own.
pub mod Base
pub mod Text
pub mod Wire
pub mod AgentConfig
pub mod BatchBuilder
pub mod MetricCollector
pub mod SyntheticMetricCollector
pub mod ProcMetricCollector
pub mod CollectorSmoke
pub mod Delivery
pub mod PendingBatchQueue
pub mod TimeSeriesStore

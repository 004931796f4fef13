-- ===== src/Lib.antt =====
-- microtel is an OpenTelemetry SDK in C++: an API of value types and propagators (`src/api`), an SDK
-- that records and batches spans (`src/sdk`), exporters that retry (`src/exporter`), and wire codecs
-- (`src/wire`). This library models the parts below and proves what makes them correct.
--
-- Parts and files. A definition has the source's name in snake case, without the class.
--
-- - Prelude: Boolean tests, lists and integers over the native numbers, and text as lists of bytes
--   with the searches and the trimming that the header parsers share.
-- - Api/TraceState: `TraceState` of `src/api/trace_state.cpp`. `FromHeader` is `from_header`; the
--   null pointer is `none`.
-- - Api/Trace, Api/Propagator: ids, `SpanContext` and the two propagators of `src/api/trace.cpp`,
--   `include/microtel/trace.hpp` and `src/api/propagator.cpp`; `W3CBaggagePropagator` is in
--   Api/Propagator/Baggage. What a setter is called with is the list that `inject` or
--   `inject_baggage` returns, and there is always a setter; a getter is a function.
-- - Api/Baggage: `Baggage` of `src/api/baggage.cpp`, with its percent-encoding in Api/Baggage/Octets,
--   its limits in Api/Baggage/Limits and the reading of what was written in Api/Baggage/RoundTrip.
-- - Sdk/Diagnostics: the counters of `src/sdk/diagnostics_counters.cpp`, which the queue and the
--   retry engine write to.
-- - Sdk/Record, Sdk/BatchSpan: a span record (`include/microtel/internal/batch.hpp`) and
--   `BatchSpanProcessor` of `src/sdk/batch_span_processor.cpp`. A critical section is a function on
--   `Processor`; Sdk/BatchSpan/Flush interleaves them as steps, and Sdk/BatchSpan/Grouping is
--   `ExportBatch`.
-- - Sdk/LeafTime: the time corrections and `BootAnchor` of `src/sdk/leaf_time.cpp`.
-- - Sdk/LeafTable, Sdk/UnknownLeaf: `LeafTable` and `UnknownLeafCache` of `src/sdk/leaf_table.cpp`,
--   each a recency list and its index.
-- - Sdk/LeafWire, Sdk/LeafResource: `src/sdk/leaf_resource.cpp`, with `Resource::Merge` of
--   `include/microtel/resource.hpp`. Sdk/LeafWire is what a payload declares: `ReadWireInfo`,
--   `CheckWireInfo` and the hash of a Resource. Sdk/LeafResource is the byte budget,
--   `ResolveLeafResource` and `MergeResolverResource`.
-- - Sdk/LeafReceiver: `SdkLeafReceiver` of `src/sdk/leaf_receiver.cpp`, with the types of
--   `include/microtel/leaf_receiver.hpp` and `include/microtel/internal/otlp_trace_decoder.hpp`. The
--   file has the state, the checks before and after decoding and `Admit`; its children are
--   Identity (the leaf, its settings, its modes), Corrections (its Resource and time correction),
--   Enqueue (the way of each span to the processor) and Ingest (`Ingest` as a whole, `MarkShutDown`,
--   `Stats`). A shared settings object or Resource is a place in a list of the receiver.
-- - Sdk/LeafOptions: `ValidateLeafReceiverOptions` of `src/sdk/leaf_options.cpp`.
-- - Sdk/SpanLimits, Sdk/Span: `src/sdk/span_limits.cpp` and `SdkSpan` of `src/sdk/sdk_span.cpp`. A
--   processor is the list of the records that `End` handed over, and each allocation that can fail
--   takes a Boolean.
-- - Sdk/Samplers: the samplers of `src/sdk/sampler_factories.cpp` and `src/sdk/sampler_chains.cpp` as
--   one tree, and `SdkProvider::SetSamplerRatio` of `src/sdk/sdk_provider.cpp`.
-- - Sdk/ExpHistogram: `src/sdk/metric_exp_histogram_storage.cpp`, the buckets and the downscaling of
--   a point; Sdk/ExpHistogram/Storage is `Record` and `Collect`. The operations on `double`, the math
--   library's `log2`, `ldexp` and `ceil` among them, are parameters; `MapIndex` is written over them.
-- - Sdk/SumStorage: `SumStorage<std::int64_t>` of `src/sdk/metric_sum_storage.cpp`. The attribute
--   sets are a type with an equality test, the exemplars another type.
-- - Exporter/Retry: `RetryEngine` of `src/exporter/retry_engine.cpp` and `ComputeBackoff` of
--   `src/exporter/retry_policy.cpp`. The clock, the random draw, whether `Abort` comes within a wait
--   of a given time, and the attempt are the fields of `Env`, `double` is the record `Double`.
-- - Wire/GrpcStatus: `src/wire/grpc/grpc_status.cpp`.
--
-- The batch processor counts its drops in the diagnostics and hands groups to an exporter, which
-- settles each of them with the retry engine, which writes to the same diagnostics. The propagators
-- read and write `TraceState` and `Baggage` headers. A span and the limits on a span that was built elsewhere
-- share the truncation and count in the same diagnostics, as the sum storage does. The leaf receiver
-- calls the leaf table, the cache of unknown leaves, the wire format, the resolution of a Resource,
-- the leaf times, the span limits and a sampler, and hands each span to the queue of the batch
-- processor, or to another processor, which is then the list of what it was handed.
--
-- Bounds. A `uint64_t` counter and the byte count of the queue wrap around as written; `int64_t`
-- times are integers, and the guards before each sum are the source's. The parsers of `tracestate`
-- and `baggage` run on fuel, the length of the header: every turn of the loop takes at least one
-- character. `parse_properties` has one more turn, for an empty tail. The retry loop has as many
-- rounds as the policy has attempts, and the eviction of idle leaves as many turns as there are
-- leaves, and the expiry of refused leaves as many as there are answers. `RequiredDownscale` has 30 turns after the first, enough for 32-bit indices and a cap of at
-- least two; with a cap of one the source may loop for ever, where the model answers 31. Signed sums that the source leaves undefined on overflow are exact: the indices of the
-- exponential histogram, its scale, and the values of the sum storage. A finite `double` of a
-- sampler is its exact value times 2^1074.
--
-- Exceptions are values. The decoder and the resolver of leaf settings are parameters that answer
-- with a result or a failure, and a `Surroundings` says which allocations of Resources and of
-- a sampler's attributes fail in a call, besides what the clocks read. `Ingest` catches each failure as the source does. The
-- theorems on whole calls hold for every choice of them.
--
-- Not modelled: threads, condition variables and their timeouts (a wait is a step or an answer of
-- the environment, and a payload is handled as one step), exceptions of `retry()`, allocation
-- failures outside a span, the indices of the leaf table and of the cache of unknown leaves, and the
-- leaf receiver's documented ones (in a call of the receiver the two indices do get their memory), log lines and the wording of
-- errors, the destructors but the span's, the descriptions of samplers, the `double` sum storage,
-- and the exporters, codecs, transports, other metric storages, readers, logs, configuration and
-- adapters.
-- The library's sources under `third_party` and `gen` are not read.
pub mod Api
pub mod Exporter
pub mod Prelude
pub mod Sdk
pub mod Wire

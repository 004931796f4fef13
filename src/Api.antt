-- ===== src/Api.antt =====
-- The public value types and propagators, src/api and include/microtel.
pub mod TraceState
pub mod Trace
pub mod Propagator
pub mod Baggage

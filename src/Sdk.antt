-- ===== src/Sdk.antt =====
-- The SDK core, src/sdk.
pub mod Diagnostics
pub mod Record
pub mod BatchSpan
pub mod LeafTime
pub mod LeafWire
pub mod LeafResource
pub mod LeafTable
pub mod UnknownLeaf
pub mod ExpHistogram
pub mod SpanLimits
pub mod Span
pub mod Samplers
pub mod SumStorage
pub mod LeafReceiver
pub mod LeafOptions

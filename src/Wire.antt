-- ===== src/Wire.antt =====
-- The wire codecs, src/wire.
pub mod GrpcStatus

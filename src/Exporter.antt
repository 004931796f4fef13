-- ===== src/Exporter.antt =====
-- The exporters, src/exporter.
pub mod Retry

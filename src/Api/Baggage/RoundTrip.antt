-- ===== src/Api/Baggage/RoundTrip.antt =====
-- src/api/baggage.cpp: `FromHeader` and `ToHeader` against each other.
pub mod Properties
pub mod Canonical
pub mod Members
pub mod Headers
pub mod Mutated

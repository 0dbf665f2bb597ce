-- ===== src/Aggregator.antt =====
-- internal/aggregator: fingerprints, pattern windows and the incident store.
pub mod Patterns
pub mod Store
pub mod Slug
pub mod Fingerprint

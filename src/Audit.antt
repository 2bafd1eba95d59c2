-- ===== src/Audit.antt =====
-- eidolon_data/audit: the authority's transactional audit outbox, its dispatcher and its retention.
pub mod Row
pub mod Facts
pub mod Outbox
pub mod Dispatcher
pub mod Backoff
pub mod Delivery
pub mod History
pub mod Runner
pub mod Retention
pub mod Kept
pub mod Rounds

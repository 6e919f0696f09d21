-- ===== src/Sequence.antt =====
-- The sequence service (sequence-service/src/seq): the format of ids, the counters, the requests.
pub mod Formatting
pub mod Service
pub mod Ids
pub mod Unique

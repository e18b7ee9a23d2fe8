-- ===== src/Queue/Refine.antt =====
-- crates/queue-sqlite against the specification: a table that holds, row by row, the mails of the
-- model.
pub mod Holds
pub mod Writes
pub mod Reads
pub mod Batch

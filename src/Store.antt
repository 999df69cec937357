-- ===== src/Store.antt =====
-- crates/coding-agent-store/src: the SQLite store, its transactions, operations and projections.
pub mod Schema
pub mod Tx
pub mod Table
pub mod Ensures
pub mod Codec
pub mod Tasks
pub mod History
pub mod Append
pub mod Invariant
pub mod Repositories
pub mod Projection
pub mod Replay
pub mod Detail
pub mod Answers
pub mod Pages

-- ===== src/Api.antt =====
-- crates/coding-agent-api/src: the stream of events that a client reads.
pub mod Sse

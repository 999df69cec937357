-- ===== src/Domain.antt =====
-- The pure domain types of crates/coding-agent-domain/src: values, tasks, events, repositories.
pub mod Value
pub mod Path
pub mod Task
pub mod Event
pub mod Repository
pub mod Lifecycle
pub mod Prompt

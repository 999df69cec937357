-- ===== src/App.antt =====
-- crates/coding-agent-app/src: the actors of the service and its state.
pub mod Writer
pub mod Service
pub mod Dispatcher
pub mod Manager
pub mod Security
pub mod Clock

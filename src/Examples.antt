-- ===== src/Examples.antt =====
-- The theorems at concrete inputs: a repository with two tasks, of which one runs.
mod Data
mod App
mod Store
mod Domain
mod Created
mod Manager
mod Security
mod Sse

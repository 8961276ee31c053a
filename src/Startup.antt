-- ===== src/Startup.antt =====
-- main.go: how the operator starts.
pub mod Text
pub mod Platform
pub mod Effect
pub mod Load
pub mod Discovery
pub mod Main
pub mod Order
pub mod Wait
pub mod Tasks
pub mod Reload
pub mod Cached

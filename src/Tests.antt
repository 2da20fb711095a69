-- ===== src/Tests.antt =====
-- Runs of the definitions at concrete inputs.
mod Toy
mod Handlers
mod Mirrors
mod Tables
mod Keys
mod Texts
mod Runs
mod Output
mod Listeners
mod Shared
mod Connections
mod Reconnect
mod Converges
mod Removed

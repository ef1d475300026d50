-- ===== src/Tests.antt =====
-- Concrete runs: a small airport, its rules and templates, and every theorem at an input of them.
pub mod Data
mod Dialogs
mod Engine
mod Runtime
mod Zones
mod Index
mod Broadcast
mod Parser
mod Speech
mod Flows
mod Rules
mod Queries

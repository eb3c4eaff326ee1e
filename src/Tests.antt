-- ===== src/Tests.antt =====
-- The theorems at concrete inputs: a small library, a small Ruby, and states of them.
mod Demo
mod Connections
mod Statements
mod Callbacks
mod Values
mod Executions
mod Histories
mod Backups
mod Gem
mod Opening

-- ===== src/Tests.antt =====
-- Runs of the models at concrete inputs, and the theorems at inputs that meet their hypotheses.
mod Commands
mod Adapter
mod Publisher
mod Config
mod Itch
mod Ipc
mod Validation
mod Workerpool
mod Pipeline
mod Orderbook
mod Wal
mod Server
mod Supervisor
mod Canonicalizer

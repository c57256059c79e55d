-- ===== src/Examples.antt =====
-- Concrete nodes, logs and stores on which the library's theorems are used and its code is run.
pub mod Data
pub mod Logs
pub mod Nodes
pub mod Stores
pub mod Votes
pub mod Runs
mod Format
mod Codec
mod Disk
mod Service
mod Config
mod Network
mod Http

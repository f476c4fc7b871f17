-- ===== src/Distributed.antt =====
-- internal/distributed: the ledger in Redis.
pub mod Redis
pub mod Members
pub mod Model
pub mod Scripts
pub mod Requests
pub mod Snapshots
pub mod Answers
pub mod Ledger
pub mod Task
pub mod Worker
pub mod Producer
pub mod Waiting

-- ===== src/Tests.antt =====
-- The theorems at concrete inputs.
mod RedisLists
mod Campaigns
mod Worker
mod Isolation
mod LocalFile
mod Web
mod Console
mod Inbox
mod Reader
mod Producer
mod Interrupted
mod Ledger
mod Runner
mod RunCommand
mod Generate
mod Report
mod Service

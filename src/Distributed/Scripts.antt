-- ===== src/Distributed/Scripts.antt =====
-- internal/distributed/scripts.go: the Lua scripts over the eight keys of one campaign. Redis runs
-- each script as one atomic step, so a script is a function from the store to the store and its
-- reply.
pub mod Store
pub mod Phase
pub mod Later
pub mod Create
pub mod Acknowledge
pub mod Begin
pub mod Commit
pub mod Close
pub mod Snapshot
pub mod Calls
pub mod Invariant

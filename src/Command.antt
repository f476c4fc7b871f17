-- ===== src/Command.antt =====
-- cmd/email-pipeline: the parts of the command that decide something of their own.
pub mod LocalFile
pub mod Options
pub mod Web
pub mod Exit
pub mod Handler
pub mod Server
pub mod Run
pub mod Generate
pub mod DistributedReport
pub mod Controller

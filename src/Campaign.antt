-- ===== src/Campaign.antt =====
-- internal/campaign: validation, rendering, the local coordinator, its accounts and its report.
pub mod Model
pub mod Accounting
pub mod Text
pub mod Normalize
pub mod Metrics
pub mod Samples
pub mod Loop
pub mod Runner
pub mod Report
pub mod Render

-- ===== src/RecipientCsv.antt =====
-- internal/recipientcsv: where the records of a campaign come from.
pub mod Fixture
pub mod Reader

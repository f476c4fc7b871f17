-- ===== src/Command/Exit.antt =====
-- cmd/email-pipeline: how a command ends.
use personalized_email_pipel.Prelude.{ℕ, Option, none, some}
use personalized_email_pipel.Campaign.Model.{Text}

-- The exit code, and the reason that is printed as an error, if any.
pub record Exit : Type 0 where
  pub code : ℕ
  pub reason : Option Text

-- staticError of run_command.go.
abbrev pub static_error : Text → Exit
static_error reason = record { code = 1; reason = some reason }

abbrev pub silent : ℕ → Exit
silent code = record { code = code; reason = none }

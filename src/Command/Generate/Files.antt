-- ===== src/Command/Generate/Files.antt =====
-- cmd/email-pipeline/generate_command.go: what the generate command leaves at its path.
use personalized_email_pipel.Prelude.{◌≡◌, ◌⊎◌}
use personalized_email_pipel.Command.Exit.{Exit}
use personalized_email_pipel.Command.Generate.{
  GenerateFlags, fixture_options, OutputFile, absent, holds, Disk,
}
use personalized_email_pipel.RecipientCsv.Fixture.Written.{IsFixture}
use personalized_email_pipel.RecipientCsv.Fixture.{Random, CsvWriter, FixtureSummary}

module _ (M : Random) (W : CsvWriter) (flags : GenerateFlags) (d : Disk M W) where
  -- The path held nothing and now holds a whole fixture of the flags.
  pub record IsMade (file : OutputFile M W) : Type 0 where
    was_absent : d.before ≡ absent
    start : W.Output
    out : W.Output
    summary : FixtureSummary
    whole : IsFixture M W (fixture_options flags) start out summary
    stored : file ≡ holds out

  -- All or nothing.
  unfoldable pub IsAllOrNothing : OutputFile M W × Exit → Type 0
  IsAllOrNothing (file, exit) = IsMade file ⊎ ((file ≡ d.before) × (exit.code ≡ 1))

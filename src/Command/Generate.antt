-- ===== src/Command/Generate.antt =====
-- cmd/email-pipeline/generate_command.go: the generate command, over one path of the file system. What
-- the file system and the printed report answer are inputs; the generator's parameters are those of
-- RecipientCsv.Fixture.
pub mod Files
use personalized_email_pipel.Prelude.{
  ℕ, Bool, true, false, not, ◌||◌, List, [], ◌∷◌, Option, none, some, ◌==◌, if◌then◌else◌,
}
use personalized_email_pipel.Prelude.Int64.{is_negative}
use personalized_email_pipel.Campaign.Model.{Text}
use personalized_email_pipel.Campaign.Text.{codes, text_eq}
use personalized_email_pipel.Command.Exit.{Exit, static_error, silent}
use personalized_email_pipel.RecipientCsv.Fixture.{
  Random, CsvWriter, FixtureOptions, FixtureSummary, fixture_algorithm_v1, generate,
}

pub record GenerateFlags : Type 0 where
  pub parse_failed : Bool
  pub rest : ℕ
  pub output : Text
  pub count : ℕ
  pub seed : ℕ
  pub algorithm : Text

abbrev no_output : Text → Bool
no_output [] = true
no_output (c ∷ s) = false

abbrev bad_flags : GenerateFlags → Bool
bad_flags flags =
    flags.parse_failed
    || not (flags.rest == 0)
    || no_output flags.output
    || is_negative flags.count
    || not (text_eq flags.algorithm fixture_algorithm_v1)

abbrev pub fixture_options : GenerateFlags → FixtureOptions
fixture_options flags = record {
  algorithm = flags.algorithm;
  seed = flags.seed;
  count = flags.count;
}

module _ (M : Random) (W : CsvWriter) where
  -- What stands at the path: nothing, a file, or a new file that is not complete.
  pub data OutputFile : Type 0 where
    absent incomplete : OutputFile
    holds : W.Output → OutputFile

  -- The path before, the empty file that OpenFile makes (`none` for an error), and whether Close, Remove
  -- and the encoding of the report fail.
  pub record Disk : Type 0 where
    pub before : OutputFile
    pub opened : Option W.Output
    pub close_failed : Bool
    pub remove_failed : Bool
    pub encode_failed : Bool

  abbrev removed : Disk → OutputFile
  removed d = if d.remove_failed then incomplete else absent

  generated_exit : Disk → Option (FixtureSummary × W.Output) → OutputFile × Exit
  generated_exit d none = (removed d, static_error (codes "fixture_generation_failed"))
  generated_exit d (some (summary, out)) =
      if d.close_failed
      then (removed d, static_error (codes "fixture_generation_failed"))
      else if d.encode_failed
      then (holds out, static_error (codes "report_write_failed"))
      else (holds out, silent 0)

  opened_exit : GenerateFlags → Disk → Option W.Output → OutputFile × Exit
  opened_exit flags d none = (d.before, static_error (codes "output_unavailable"))
  opened_exit flags d (some out) = generated_exit d (generate M W out (fixture_options flags))

  -- generateCommand: what stands at the path behind it, and how it ends.
  unfoldable pub generate_command : GenerateFlags → Disk → OutputFile × Exit
  unfolding opened_exit generated_exit
  generate_command flags d =
      if bad_flags flags
      then (d.before, static_error (codes "invalid_configuration"))
      else opened_exit flags d d.opened

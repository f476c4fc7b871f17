-- ===== src/Command/LocalFile.antt =====
-- cmd/email-pipeline/run_command.go: runLocalFile, the local run over a recipient file. The input is
-- what ReadSlice answers; the rounds of Run and what it measures are inputs.
pub mod Reports
use personalized_email_pipel.Prelude.{
  ℕ, zero, suc, ◌+◌, Bool, true, false, List, [], ◌∷◌, Option, none, some, if◌then◌else◌, length,
}
use personalized_email_pipel.Campaign.Model.{failure}
use personalized_email_pipel.Campaign.Report.{RunReport, ModeEvidence, Backend, Sink, report_of}
use personalized_email_pipel.Campaign.Runner.{run_turns, is_running}
use personalized_email_pipel.Campaign.Loop.{
  SourceRecord, Next, gives, fails, ends, Turn, RunConfig, Loop, initial_loop, zero_counts,
  prefix_only,
}
use personalized_email_pipel.Campaign.Samples.{no_samples}
use personalized_email_pipel.RecipientCsv.Fixture.{Record}
use personalized_email_pipel.RecipientCsv.Reader.{
  Slice, Csv, Reader, NextAnswer, next_failed, next_end, next_panics, next_record, next_of,
  new_reader,
}

-- What Run's caller hands on, and what Run measures.
pub record LocalRun : Type 0 where
  pub config : RunConfig
  pub turns : List Turn
  pub mode : Option ModeEvidence  -- if the mode is exposed
  pub elapsed : ℕ
  pub peak : ℕ
  pub response_bound : ℕ
  pub measured : ℕ

abbrev pub source_record : Record → SourceRecord
source_record r = record {
  ordinal = r.ordinal;
  email = r.email;
  name = r.name;
  parser_reason = r.reason;
}

-- The report of a file whose header is not read.
abbrev pub header_report : RunReport
header_report = record {
  outcome = failure;
  scope = prefix_only;
  counts = zero_counts;
  invalid_reasons = [];
  failed_reasons = [];
  samples = no_samples;
  processing_elapsed = 0;
  peak_heap = 0;
  workers = 0;
  settlement = 0;
  response_bound = 0;
  measured_response = 0;
  cancelled = false;
  fatal = true;
  started = 0;
  mode = none;
  test_delivery = none;
  distributed = none;
}

-- `none` if the source is not known, or if Run goes on behind the rounds.
abbrev finished_report : LocalRun → Loop → Option RunReport
finished_report run s =
    if is_running s
    then none
    else some
        (record (report_of run.config s run.elapsed run.peak run.response_bound run.measured) {
          mode = run.mode;
        })

run_source : LocalRun → Option (List Next) → Option RunReport
run_source run none = none
run_source run (some source) =
    finished_report run (run_turns run.config (initial_loop source) run.turns)

module _ (C : Csv) where
  -- The answers of the source that Run calls, up to the first that is no record: `none` if a call
  -- panics or the fuel runs out.
  abbrev prepend : SourceRecord → Option (List Next) → Option (List Next)
  prepend r none = none
  prepend r (some xs) = some (gives r ∷ xs)

  abbrev after_next : NextAnswer → Option (List Next) → Option (List Next)
  after_next next_failed rest = some (fails ∷ [])
  after_next next_end rest = some (ends ∷ [])
  after_next next_panics rest = none
  after_next (next_record r) rest = prepend (source_record r) rest

  unfoldable pub source_from : ℕ → Reader → Option (List Next)
  source_from zero r = none
  source_from (suc fuel) r =
      let (r', answer) = next_of C r in let rest = source_from fuel r' in after_next answer rest

  run_reader : LocalRun → Option Reader → Option RunReport
  run_reader run none = some header_report
  run_reader run (some r) = run_source run (source_from (length r.input + 1) r)

  -- runLocalFile, behind the checks of the file: the report that is written. One call of Next for each
  -- fragment and one more are the fuel.
  unfoldable pub run_local_file : LocalRun → List Slice → Option RunReport
  unfolding run_reader run_source
  run_local_file run input = run_reader run (new_reader C input)

-- ===== src/Tests/Runner.antt =====
-- A local run of three records (internal/campaign/runner_test.go has such runs).
use personalized_email_pipel.Prelude.{
  ◌≡◌, refl, true, false, List, [], ◌∷◌, none, some, arith, length,
}
use personalized_email_pipel.Campaign.Model.{named, missing_email}
use personalized_email_pipel.Campaign.Normalize.{
  normalize_email, valid_local, valid_domain, valid_label, every_label, ascii_printable, local_rune,
  label_rune,
}
use personalized_email_pipel.Campaign.Report.Runs.{marshal_report-run}
use personalized_email_pipel.Campaign.Report.{RunReport, report_of, document_of, marshal_report}
use personalized_email_pipel.Campaign.Runner.Books.{AddsUp}
use personalized_email_pipel.Campaign.Runner.Rounds.{run_turns-AddsUp}
use personalized_email_pipel.Campaign.Runner.Whole.{Gives, run_turns-examines_all}
use personalized_email_pipel.Campaign.Runner.{
  is_running, run_turns, turn, observe_cancel, enforce_deadline, fail_all, read_input,
  classify_record, settle_result, drain, grant, delete_active,
}
use personalized_email_pipel.Campaign.Loop.{
  full, Loop, SourceRecord, Next, gives, Turn, RunConfig, wait_timer, initial_loop,
}
use personalized_email_pipel.Campaign.Text.{
  codes, is_space, rune_len, byte_len, trim_left, trim_right, trim_space, count_rune, cut,
  has_twice, split_from, to_lower,
}

abbrev pub ada : SourceRecord
ada = record {
  ordinal = 1;
  email = codes " Ada@example.test";
  name = codes "Ada";
  parser_reason = none;
}

abbrev ada_again : SourceRecord
ada_again = record {
  ordinal = 2;
  email = codes "ada@EXAMPLE.test";
  name = [];
  parser_reason = none;
}

abbrev nobody : SourceRecord
nobody = record { ordinal = 3; email = []; name = []; parser_reason = some missing_email }

abbrev pub source : List Next
source = gives ada ∷ gives ada_again ∷ gives nobody ∷ []

abbrev pub quiet : Turn
quiet = record {
  cancelled = false;
  now = 0;
  deadline_now = 0;
  read_now = 0;
  results = [];
  ready = true;
  wait = wait_timer;
}

abbrev pub answered : Turn
answered = record quiet {
  results = record { ordinal = 1; category = named; reason = none; accepted = 5 } ∷ [];
}

abbrev pub turns : List Turn
turns = quiet ∷ quiet ∷ answered ∷ quiet ∷ []

abbrev pub config : RunConfig
config = record { workers = 2; settlement = 5; sample_text = λ o c. [] }

abbrev pub finished : Loop
finished = run_turns config (initial_loop source) turns

pub finished_stopped : is_running finished ≡ false
unfolding run_turns turn observe_cancel enforce_deadline fail_all read_input classify_record
    settle_result drain grant delete_active normalize_email valid_local valid_domain valid_label
    every_label ascii_printable local_rune label_rune byte_len trim_left trim_right trim_space
    count_rune cut has_twice split_from to_lower is_space rune_len
finished_stopped = refl

finished_counts :
    (finished.counts.completed ≡ 1)
    × (finished.counts.duplicate ≡ 1)
    × (finished.counts.invalid ≡ 1)
unfolding run_turns turn observe_cancel enforce_deadline fail_all read_input classify_record
    settle_result drain grant delete_active normalize_email valid_local valid_domain valid_label
    every_label ascii_printable local_rune label_rune byte_len trim_left trim_right trim_space
    count_rune cut has_twice split_from to_lower is_space rune_len
finished_counts = (refl, refl, refl)

run_turns-AddsUp_example :
    AddsUp finished.counts finished.started (length finished.queue) (length finished.active)
run_turns-AddsUp_example = run_turns-AddsUp config source turns (omega arith) (omega arith)

abbrev finished_report : RunReport
finished_report = record (report_of config finished 7 8 9 10) { mode = none }

marshal_report-run_example : marshal_report finished_report ≡ some (document_of finished_report)
marshal_report-run_example =
    marshal_report-run config source turns none 7 8 9 10 (omega arith) (omega arith)
      finished_stopped tt

three_given : Gives 3 source
unfolding Gives
three_given = tt

run_turns-examines_all_example :
    (finished.counts.examined ≡ 3) × (finished.fatal ≡ false) × (finished.scope ≡ full)
run_turns-examines_all_example =
    run_turns-examines_all config source turns 3 three_given (omega arith) finished_stopped

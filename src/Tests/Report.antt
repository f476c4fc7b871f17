-- ===== src/Tests/Report.antt =====
-- Counters, outcomes and reports at concrete numbers (internal/campaign/report_test.go and
-- model_test.go have such reports).
use personalized_email_pipel.Prelude.{
  ℕ, ◌∷◌, ◌+◌, ◌<◌, ◌≡◌, refl, true, false, [], none, some, arith,
}
use personalized_email_pipel.Campaign.Accounting.{IsSmall}
use personalized_email_pipel.Campaign.Model.{Counts, success, validate, derive_outcome}
use personalized_email_pipel.Campaign.Report.Refusals.{IsReportable, write_run_report_zero}
use personalized_email_pipel.Campaign.Report.{
  RunReport, marshal_report, write_run_report, report_holds, valid_optional_evidence,
}
use personalized_email_pipel.Campaign.Loop.{full}
use personalized_email_pipel.Campaign.Metrics.Totals.{IsExact, add_all, add_all-IsExact}
use personalized_email_pipel.Campaign.Metrics.{
  ReasonSummary, zero_summary, add_to_summary, replace_largest, largest_from,
}
use personalized_email_pipel.Campaign.Model.{named}
use personalized_email_pipel.Campaign.Samples.Order.{IsKept, add_samples, add_samples-IsKept}
use personalized_email_pipel.Campaign.Samples.{no_samples, Sample, for_category}

-- Five records: two duplicates and three completed recipients.
abbrev five : Counts
five = record {
  examined = 5;
  invalid = 0;
  duplicate = 2;
  eligible = 3;
  completed = 3;
  failed = 0;
  unprocessed = 0;
}

five-IsSmall : IsSmall five
five-IsSmall = record {
  small_invalid = omega arith;
  small_duplicate = omega arith;
  small_eligible = omega arith;
  small_completed = omega arith;
  small_failed = omega arith;
  small_unprocessed = omega arith;
}

abbrev five_report : RunReport
five_report = record {
  outcome = success;
  scope = full;
  counts = five;
  invalid_reasons = [];
  failed_reasons = [];
  samples = no_samples;
  processing_elapsed = 1000;
  peak_heap = 4096;
  workers = 2;
  settlement = 5000000;
  response_bound = 6000000;
  measured_response = 0;
  cancelled = false;
  fatal = false;
  started = 3;
  mode = none;
  test_delivery = none;
  distributed = none;
}

five_written : write_run_report five_report true ≡ 0
unfolding write_run_report marshal_report report_holds valid_optional_evidence validate
    derive_outcome
five_written = refl

write_run_report_zero_example :
    IsReportable five_report
    × (false ≡ false)
    × (false ≡ false)
    × (0 < five.completed)
    × (five.completed ≡ five.eligible)
    × (five.examined ≡ five.duplicate + five.completed)
write_run_report_zero_example = write_run_report_zero five_report true five_written

-- Five refusals for one reason, of which three are kept.
add_all-IsExact_example :
    (s : ReasonSummary) × (add_all zero_summary (9 ∷ 4 ∷ 7 ∷ 2 ∷ 8 ∷ []) 3 ≡ some s) × IsExact s 5 3
add_all-IsExact_example = add_all-IsExact (9 ∷ 4 ∷ 7 ∷ 2 ∷ 8 ∷ []) 3 (omega arith) (omega arith)

-- The kept ordinals are the least ones; with no room for any the call panics.
added_least :
    (add_all zero_summary (9 ∷ 4 ∷ 7 ∷ 2 ∷ 8 ∷ []) 3
      ≡ some (record { count = 5; ordinals = 2 ∷ 4 ∷ 7 ∷ []; omitted = 2 }))
    × (add_all zero_summary (9 ∷ []) 0 ≡ none)
unfolding add_to_summary replace_largest largest_from
added_least = (refl, refl)

abbrev sample_at : ℕ → Sample
sample_at o = record { ordinal = o; category = named; reason = none; text = [] }

add_samples-IsKept_example :
    IsKept 2
      (for_category named (add_samples no_samples (sample_at 3 ∷ sample_at 1 ∷ sample_at 2 ∷ []) 2))
add_samples-IsKept_example =
    add_samples-IsKept (sample_at 3 ∷ sample_at 1 ∷ sample_at 2 ∷ []) 2 named

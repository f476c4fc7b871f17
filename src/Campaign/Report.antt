-- ===== src/Campaign/Report.antt =====
-- internal/campaign/report.go and the evidence types of runner_types.go: when a report is written,
-- and with which fields. A float64 quotient is kept as its two operands, and a duration as its
-- nanoseconds; encoding/json turns the document into bytes and is not part of the model.
pub mod Refusals
pub mod Runs
use personalized_email_pipel.Prelude.{
  ◌≡◌, ℕ, zero, suc, ◌+◌, ◌*◌, ◌/◌, Bool, true, false, not, ◌&&◌, ◌||◌, List, [], ◌∷◌, ◌++◌, Option,
  none, some, ltb, leb, ◌==◌, if◌then◌else◌,
}
use personalized_email_pipel.Prelude.Int64.{add64, is_negative, lt64}
use personalized_email_pipel.Campaign.Metrics.{Summaries}
use personalized_email_pipel.Campaign.Model.{
  Outcome, success, partial_success, failure, interrupted, named, fallback, Counts, validate,
  derive_outcome,
}
use personalized_email_pipel.Campaign.Loop.{Scope, full, prefix_only, unknown, Loop, RunConfig}
use personalized_email_pipel.Campaign.Samples.{Sample, Samples, for_category, sort_func}

-- A backend or sink of any other name is `other`.
pub data Backend : Type 0 where
  backend_local backend_asynq backend_other : Backend

pub data Sink : Type 0 where
  sink_dry_run sink_test_inbox sink_other : Sink

pub record ModeEvidence : Type 0 where
  pub backend : Backend
  pub sink : Sink

pub record TestDeliveryEvidence : Type 0 where
  pub confirmed : ℕ
  pub rejected : ℕ
  pub transport : ℕ
  pub indeterminate : ℕ

pub record DistributedEvidence : Type 0 where
  pub known_enqueued : ℕ
  pub known_terminal : ℕ
  pub unknown_count : ℕ

pub record RunReport : Type 0 where
  pub outcome : Outcome
  pub scope : Scope
  pub counts : Counts
  pub invalid_reasons : Summaries
  pub failed_reasons : Summaries
  pub samples : Samples
  pub processing_elapsed : ℕ
  pub peak_heap : ℕ
  pub workers : ℕ
  pub settlement : ℕ
  pub response_bound : ℕ
  pub measured_response : ℕ
  pub cancelled : Bool
  pub fatal : Bool
  pub started : ℕ
  pub mode : Option ModeEvidence
  pub test_delivery : Option TestDeliveryEvidence
  pub distributed : Option DistributedEvidence

-- What Run returns from the variables of its loop, and the times and sizes that it measured.
unfoldable pub report_of : RunConfig → Loop → ℕ → ℕ → ℕ → ℕ → RunReport
report_of cfg s elapsed peak response_bound measured = record {
  outcome = derive_outcome s.counts s.cancelled s.fatal;
  scope = s.scope;
  counts = s.counts;
  invalid_reasons = s.invalid_reasons;
  failed_reasons = s.failed_reasons;
  samples = s.samples;
  processing_elapsed = elapsed;
  peak_heap = peak;
  workers = cfg.workers;
  settlement = cfg.settlement;
  response_bound = response_bound;
  measured_response = measured;
  cancelled = s.cancelled;
  fatal = s.fatal;
  started = s.started;
  mode = none;
  test_delivery = none;
  distributed = none;
}

-- The evidence that runLocalFile adds to the report of a dry run, if any.
abbrev pub IsLocalMode : Option ModeEvidence → Type 0
IsLocalMode none = Unit {0}
IsLocalMode (some m) = (m.backend ≡ backend_local) × (m.sink ≡ sink_dry_run)

abbrev pub is_none {ℓ} : {A : Type ℓ} → Option A → Bool
is_none none = true
is_none (some a) = false

abbrev pub is_unknown : Scope → Bool
is_unknown unknown = true
is_unknown _ = false

abbrev pub is_full : Scope → Bool
is_full full = true
is_full _ = false

abbrev pub is_failure : Outcome → Bool
is_failure failure = true
is_failure _ = false

abbrev pub outcome_eq : Outcome → Outcome → Bool
outcome_eq success success = true
outcome_eq partial_success partial_success = true
outcome_eq failure failure = true
outcome_eq interrupted interrupted = true
outcome_eq _ _ = false

-- The delivery evidence is not negative and agrees with the counts.
unfoldable pub delivery_agrees : TestDeliveryEvidence → Counts → Bool
delivery_agrees e c =
    not (is_negative e.confirmed)
    && not (is_negative e.rejected)
    && not (is_negative e.transport)
    && not (is_negative e.indeterminate)
    && e.confirmed == c.completed
    && add64 (add64 e.rejected e.transport) e.indeterminate == c.failed

abbrev delivery_given : Option TestDeliveryEvidence → Counts → Bool
delivery_given none c = false
delivery_given (some e) c = delivery_agrees e c

-- The branch of the asynq backend.
valid_distributed : Sink → DistributedEvidence → RunReport → Bool
valid_distributed sink e r =
    if is_negative e.known_enqueued
      || is_negative e.known_terminal
      || is_negative e.unknown_count
      || lt64 e.known_enqueued e.known_terminal
    then false
    else if not (delivery_fits sink)
    then false
    else if is_unknown r.scope
    then r.fatal && is_failure r.outcome && lt64 0 e.unknown_count
    else e.unknown_count == 0
  where
    delivery_fits : Sink → Bool
    delivery_fits sink_dry_run = is_none r.test_delivery
    delivery_fits sink_test_inbox = delivery_given r.test_delivery r.counts
    delivery_fits sink_other = false

valid_asynq : Sink → Option DistributedEvidence → RunReport → Bool
valid_asynq sink none r = false
valid_asynq sink (some e) r = valid_distributed sink e r

valid_mode : Backend → Sink → RunReport → Bool
valid_mode backend_local sink_test_inbox r =
    delivery_given r.test_delivery r.counts && is_none r.distributed && not (is_unknown r.scope)
valid_mode backend_local sink_dry_run r =
    is_none r.test_delivery && is_none r.distributed && not (is_unknown r.scope)
valid_mode backend_asynq sink r = valid_asynq sink r.distributed r
valid_mode backend_local sink_other r = false
valid_mode backend_other sink r = false

valid_evidence_for : Option ModeEvidence → RunReport → Bool
valid_evidence_for none r =
    is_none r.test_delivery && is_none r.distributed && not (is_unknown r.scope)
valid_evidence_for (some m) r = valid_mode m.backend m.sink r

-- validOptionalEvidence.
unfoldable pub valid_optional_evidence : RunReport → Bool
unfolding valid_evidence_for valid_mode valid_asynq valid_distributed
valid_optional_evidence r = valid_evidence_for r.mode r

-- The scopes that go with a fatal report, and with any other.
abbrev pub scope_fits : Bool → Scope → Bool
scope_fits true s = not (is_full s)
scope_fits false s = is_full s

-- The guard of MarshalReport.
unfoldable pub report_holds : RunReport → Bool
report_holds r =
    valid_optional_evidence r
    && validate r.counts
    && r.started == add64 r.counts.completed r.counts.failed
    && outcome_eq r.outcome (derive_outcome r.counts r.cancelled r.fatal)
    && scope_fits r.fatal r.scope

pub record Fraction : Type 0 where
  pub numerator : ℕ
  pub denominator : ℕ

-- ratio: 0 for a zero denominator.
abbrev pub ratio : ℕ → ℕ → Fraction
ratio n d =
    if d == 0
    then record { numerator = 0; denominator = 1 }
    else record { numerator = n; denominator = d }

pub record Machine : Type 0 where
  pub peak_heap : ℕ
  pub heap_interval_ms : ℕ
  pub workers : ℕ
  pub queue_capacity : ℕ
  pub response_bound_ms : ℕ
  pub measured_response_ms : ℕ
  pub settlement_ms : ℕ

pub record Proportions : Type 0 where
  pub invalid : Fraction
  pub duplicate : Fraction
  pub failed : Fraction
  pub unprocessed : Fraction

pub record Measured : Type 0 where
  pub elapsed : ℕ
  pub machine : Option Machine
  pub proportions : Proportions
  pub examined_rate : Option Fraction
  pub completed_rate : Option Fraction

-- reportDocument; a fatal report has no measurements.
pub record ReportDocument : Type 0 where
  pub report : RunReport
  pub samples : List Sample
  pub measured : Option Measured

abbrev is_asynq : Option ModeEvidence → Bool
is_asynq none = false
is_asynq (some m) = elim m.backend [ backend_asynq ↦ true | _ ↦ false ]

abbrev millis : ℕ → ℕ
millis nanos = nanos / 1000000

abbrev machine_of : RunReport → Machine
machine_of r = record {
  peak_heap = r.peak_heap;
  heap_interval_ms = 10;
  workers = r.workers;
  queue_capacity = r.workers * 2;
  response_bound_ms = millis r.response_bound;
  measured_response_ms = millis r.measured_response;
  settlement_ms = millis r.settlement;
}

abbrev rate : ℕ → ℕ → Option Fraction
rate n elapsed =
    if ltb 0 elapsed then some (record { numerator = n; denominator = elapsed }) else none

abbrev measured_of : RunReport → Measured
measured_of r = record {
  elapsed = r.processing_elapsed;
  machine = if is_asynq r.mode then none else some (machine_of r);
  proportions = record {
    invalid = ratio r.counts.invalid r.counts.examined;
    duplicate = ratio r.counts.duplicate r.counts.examined;
    failed = ratio r.counts.failed r.counts.eligible;
    unprocessed = ratio r.counts.unprocessed r.counts.eligible;
  };
  examined_rate = rate r.counts.examined r.processing_elapsed;
  completed_rate = rate r.counts.completed r.processing_elapsed;
}

-- reportSamples.
unfoldable pub report_samples : Samples → List Sample
report_samples s = sort_func (for_category named s ++ for_category fallback s)

unfoldable pub document_of : RunReport → ReportDocument
document_of r = record {
  report = r;
  samples = report_samples r.samples;
  measured = if r.fatal then none else some (measured_of r);
}

-- MarshalReport: `none` is ErrReportInvariant.
unfoldable pub marshal_report : RunReport → Option ReportDocument
marshal_report r = if not (report_holds r) then none else some (document_of r)

-- writeRunReport of cmd/email-pipeline/run_command.go: the exit code. `written` tells whether the
-- report could be printed.
exit_of : Outcome → ℕ
exit_of success = 0
exit_of partial_success = 2
exit_of interrupted = 130
exit_of failure = 1

unfoldable pub write_run_report : RunReport → Bool → ℕ
unfolding exit_of
write_run_report r written =
    if is_none (marshal_report r) then 1 else if not written then 1 else exit_of r.outcome

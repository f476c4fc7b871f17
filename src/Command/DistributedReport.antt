-- ===== src/Command/DistributedReport.antt =====
-- cmd/email-pipeline/run_command.go: the report of a distributed run.
pub mod Accepted
pub mod Waited
pub mod Refused
use personalized_email_pipel.Prelude.{
  ℕ, ◌+◌, ◌<◌, ◌≡◌, refl, Bool-cases, inl, inr, Bool, true, false, not, ◌||◌, [], Option, none,
  some, ◌==◌, if◌then◌else◌, arith,
}
use personalized_email_pipel.Prelude.Int64.{sign_bit, add64, lt64, is_negative}
use personalized_email_pipel.Campaign.Model.{Counts, validate, derive_outcome}
use personalized_email_pipel.Campaign.Report.Refusals.{IsReportable, marshal_report-some}
use personalized_email_pipel.Campaign.Report.{
  RunReport, Backend, backend_asynq, Sink, sink_dry_run, sink_test_inbox, sink_other,
  TestDeliveryEvidence, valid_optional_evidence, delivery_agrees, marshal_report, document_of,
  scope_fits,
}
use personalized_email_pipel.Campaign.Loop.{Scope, full, prefix_only, unknown}
use personalized_email_pipel.Campaign.Samples.{no_samples}
use personalized_email_pipel.Distributed.Snapshots.{
  SnapshotTrust, trust_full, Snapshot, known_terminal, known_enqueued, is_settled, valid_snapshot,
  is_trusted,
}
use personalized_email_pipel.Distributed.Requests.{valid_id}
use personalized_email_pipel.Distributed.Producer.{ProducerResult, ProducerError, context_cancelled}

-- The error of the run: none, context.Canceled, an error that wraps it, or any other.
pub data RunError : Type 0 where
  no_error is_cancelled wraps_cancelled other_error : RunError

abbrev is_fatal : RunError → Bool
is_fatal other_error = true
is_fatal _ = false

abbrev is_cancellation : RunError → Bool
is_cancellation is_cancelled = true
is_cancellation _ = false

-- The scope.
abbrev scope_of : ℕ → Bool → Scope
scope_of unknown_count fatal =
    if lt64 0 unknown_count then unknown else if fatal then prefix_only else full

-- The delivery evidence, of a test inbox alone.
abbrev delivery_of : Sink → Snapshot → Option TestDeliveryEvidence
delivery_of sink_test_inbox s = some (record {
  confirmed = s.completed;
  rejected = s.delivery_rejected;
  transport = s.delivery_transport;
  indeterminate = s.delivery_unknown;
})
delivery_of sink_dry_run s = none
delivery_of sink_other s = none

abbrev counts_of : ProducerResult → Counts
counts_of r =
    let classified =
      if r.unknown_count == 0
      then r.snapshot.total
      else add64 (add64 r.snapshot.completed r.snapshot.failed) r.snapshot.unprocessed in
    record {
      examined = classified;
      invalid = 0;
      duplicate = 0;
      eligible = classified;
      completed = r.snapshot.completed;
      failed = r.snapshot.failed;
      unprocessed = r.snapshot.unprocessed;
    }

unfoldable pub distributed_report : Backend → Sink → ProducerResult → RunError → RunReport
distributed_report backend sink r err = record {
  outcome = derive_outcome (counts_of r) (is_cancellation err) (is_fatal err);
  scope = scope_of r.unknown_count (is_fatal err);
  counts = counts_of r;
  invalid_reasons = [];
  failed_reasons = [];
  samples = no_samples;
  processing_elapsed = 0;
  peak_heap = 0;
  workers = 0;
  settlement = 0;
  response_bound = 0;
  measured_response = 0;
  cancelled = is_cancellation err;
  fatal = is_fatal err;
  started = add64 r.snapshot.completed r.snapshot.failed;
  mode = some (record { backend = backend; sink = sink });
  test_delivery = delivery_of sink r.snapshot;
  distributed = some (record {
    known_enqueued = r.known_enqueued;
    known_terminal = known_terminal r.snapshot;
    unknown_count = r.unknown_count;
  });
}

-- A failure of a delivery has one of the three delivery reasons.
abbrev pub IsAccounted : Sink → Snapshot → Type 0
IsAccounted sink_dry_run s = Unit {0}
IsAccounted sink_test_inbox s =
    add64 (add64 s.delivery_rejected s.delivery_transport) s.delivery_unknown ≡ s.failed
IsAccounted sink_other s = ⊥

-- The error that runDistributed passes on; the context is cancelled by a signal.
abbrev pub run_error : Option ProducerError → RunError
run_error none = no_error
run_error (some context_cancelled) = is_cancelled
run_error (some e) = other_error

-- ===== src/Command/DistributedReport/Refused.antt =====
-- cmd/email-pipeline/run_command.go: which reports of a distributed run are refused.
use personalized_email_pipel.Prelude.{◌≡◌, true, false, none, ◌==◌, arith, Option-cases, inl, inr}
use personalized_email_pipel.Prelude.Int64.{add64}
use personalized_email_pipel.Campaign.Model.{Counts, validate}
use personalized_email_pipel.Campaign.Report.Refusals.{marshal_report_iff}
use personalized_email_pipel.Campaign.Report.{Backend, Sink, marshal_report}
use personalized_email_pipel.Command.DistributedReport.{RunError, counts_of, distributed_report}
use personalized_email_pipel.Distributed.Producer.{ProducerResult}

unbalanced :
    (c : Counts)
    → (c.eligible == add64 (add64 c.completed c.failed) c.unprocessed) ≡ false
    → validate c ≡ true
    → ⊥
unfolding validate
unbalanced c e h = ground arith

-- A result that counts nothing as unknown is refused if its completed, failed and unprocessed
-- recipients do not make up the whole campaign, whatever the backend, the sink and the error are.
pub marshal_report-unsettled :
    (backend : Backend) (sink : Sink) (r : ProducerResult) (err : RunError)
    → r.unknown_count ≡ 0
    → (r.snapshot.total
        == add64 (add64 r.snapshot.completed r.snapshot.failed) r.snapshot.unprocessed)
      ≡ false
    → marshal_report (distributed_report backend sink r err) ≡ none
unfolding distributed_report
marshal_report-unsettled backend sink r err u h =
    elim (Option-cases (marshal_report (distributed_report backend sink r err))) [
      | inl e ↦ e
      | inr e ↦
          let v = (marshal_report_iff (distributed_report backend sink r err)).0 e in
          absurd (unbalanced (counts_of r) (rw u h) v.valid_counts)
    ]

-- ===== src/Command/DistributedReport/Accepted.antt =====
-- cmd/email-pipeline/run_command.go: the reports of distributed runs that are accepted.
use personalized_email_pipel.Prelude.{
  ℕ, ◌+◌, ◌<◌, ◌≡◌, refl, Bool-cases, inl, inr, Bool, true, false, not, ◌||◌, some, if◌then◌else◌,
  arith,
}
use personalized_email_pipel.Prelude.Int64.{sign_bit, add64, lt64, is_negative}
use personalized_email_pipel.Campaign.Model.{validate}
use personalized_email_pipel.Campaign.Report.Refusals.{IsReportable, marshal_report-some}
use personalized_email_pipel.Campaign.Report.{
  backend_asynq, Sink, sink_dry_run, sink_test_inbox, sink_other, valid_optional_evidence,
  delivery_agrees, marshal_report, document_of, scope_fits,
}
use personalized_email_pipel.Distributed.Snapshots.{
  SnapshotTrust, trust_full, Snapshot, known_terminal, known_enqueued, is_settled, valid_snapshot,
  is_trusted,
}
use personalized_email_pipel.Distributed.Requests.{valid_id}
use personalized_email_pipel.Distributed.Producer.{ProducerResult}
use personalized_email_pipel.Command.DistributedReport.{
  RunError, is_fatal, scope_of, counts_of, distributed_report, IsAccounted,
}

-- What the check of a trusted snapshot says of the numbers that go into the report.
pub record Checked (s : Snapshot) : Type 0 where
  pub total_positive : is_negative s.total ≡ false
  pub completed_positive : is_negative s.completed ≡ false
  pub failed_positive : is_negative s.failed ≡ false
  pub unprocessed_positive : is_negative s.unprocessed ≡ false
  pub rejected_positive : is_negative s.delivery_rejected ≡ false
  pub unknown_positive : is_negative s.delivery_unknown ≡ false
  pub transport_positive : is_negative s.delivery_transport ≡ false
  pub sum_total : add64 (add64 s.completed s.failed) s.unprocessed ≡ s.total

trusted_of_settled : (s : Snapshot) → is_settled s ≡ true → is_trusted s.trust ≡ true
unfolding is_settled
trusted_of_settled s k = elim (Bool-cases (is_trusted s.trust)) [
  | inl e ↦ e
  | inr e ↦ absurd (false-ne-true (rw e at k))
]
  where
    false-ne-true : ◌≡◌ {A = Bool} false true → ⊥
    false-ne-true q = cc

full_of_trusted : (t : SnapshotTrust) → is_trusted t ≡ true → t ≡ trust_full
full_of_trusted trust_full h = refl
full_of_trusted t h = ground arith

sum_of_settled :
    (s : Snapshot)
    → is_settled s ≡ true
    → add64 (add64 s.completed s.failed) s.unprocessed ≡ s.total
unfolding is_settled
sum_of_settled s k = ground arith

-- Of eighteen tests joined by `or`, none holds.
signs_of_valid :
    (s : Snapshot)
    → is_trusted s.trust ≡ true
    → valid_snapshot s ≡ true
    → (is_negative s.total ≡ false)
      × (is_negative s.completed ≡ false)
      × (is_negative s.failed ≡ false)
      × (is_negative s.unprocessed ≡ false)
      × (is_negative s.delivery_rejected ≡ false)
      × (is_negative s.delivery_unknown ≡ false)
      × (is_negative s.delivery_transport ≡ false)
unfolding valid_snapshot
signs_of_valid s t h =
    tests true (valid_id s.campaign_id) (is_negative s.total) (is_negative s.acknowledged)
      (is_negative s.started) (is_negative s.completed) (is_negative s.failed)
      (is_negative s.unprocessed) (is_negative s.attempts) (is_negative s.retries)
      (is_negative s.duplicates) (is_negative s.delivery_limit) (is_negative s.delivery_reserved)
      (lt64 s.delivery_limit s.delivery_reserved) (is_negative s.delivery_rejected)
      (is_negative s.delivery_unknown) (is_negative s.delivery_transport) (is_negative s.work)
      (lt64 s.total (known_enqueued s)) (rw (full_of_trusted s.trust t) at h)
  where
    tests :
        (tr i t a st c f u ats re du li rs lt rj uk tra wo ke : Bool)
        → (if not tr
              || not i
              || t
              || a
              || st
              || c
              || f
              || u
              || ats
              || re
              || du
              || li
              || rs
              || lt
              || rj
              || uk
              || tra
              || wo
              || ke
            then false
            else true)
          ≡ true
        → (t ≡ false)
          × (c ≡ false)
          × (f ≡ false)
          × (u ≡ false)
          × (rj ≡ false)
          × (uk ≡ false)
          × (tra ≡ false)
    tests tr i t a st c f u ats re du li rs lt rj uk tra wo ke h = ground arith

pub checked : (s : Snapshot) → valid_snapshot s ≡ true → is_settled s ≡ true → Checked s
checked s h k =
    let (t, c, f, u, rj, uk, tr) = signs_of_valid s (trusted_of_settled s k) h in
    record {
      total_positive = t;
      completed_positive = c;
      failed_positive = f;
      unprocessed_positive = u;
      rejected_positive = rj;
      unknown_positive = uk;
      transport_positive = tr;
      sum_total = sum_of_settled s k;
    }

counts_valid :
    (r : ProducerResult) → Checked r.snapshot → r.unknown_count ≡ 0 → validate (counts_of r) ≡ true
unfolding validate
counts_valid r c u =
    rw
      (
        u, c.total_positive, c.completed_positive, c.failed_positive, c.unprocessed_positive,
        c.sum_total,
      )
      (ground (arith, c.total_positive))

evidence_valid :
    (sink : Sink) (r : ProducerResult) (err : RunError)
    → Checked r.snapshot
    → r.unknown_count ≡ 0
    → is_negative r.known_enqueued ≡ false
    → lt64 r.known_enqueued (known_terminal r.snapshot) ≡ false
    → is_negative (known_terminal r.snapshot) ≡ false
    → IsAccounted sink r.snapshot
    → valid_optional_evidence (distributed_report backend_asynq sink r err) ≡ true
unfolding valid_optional_evidence distributed_report delivery_agrees
evidence_valid sink_dry_run r err c u e k t a = rw (u, e, k, t) (ground arith)
evidence_valid sink_test_inbox r err c u e k t a =
    rw
      (
        u, e, k, t, c.completed_positive, c.rejected_positive, c.transport_positive,
        c.unknown_positive, a,
      )
      (ground arith)
evidence_valid sink_other r err c u e k t a = absurd a

scope_fits_of : (u : ℕ) (fatal : Bool) → u ≡ 0 → scope_fits fatal (scope_of u fatal) ≡ true
scope_fits_of u true e = rw e refl
scope_fits_of u false e = rw e refl

reportable :
    (sink : Sink) (r : ProducerResult) (err : RunError)
    → Checked r.snapshot
    → r.unknown_count ≡ 0
    → is_negative r.known_enqueued ≡ false
    → lt64 r.known_enqueued (known_terminal r.snapshot) ≡ false
    → r.snapshot.completed + r.snapshot.failed < sign_bit
    → IsAccounted sink r.snapshot
    → IsReportable (distributed_report backend_asynq sink r err)
unfolding distributed_report
reportable sink r err c u e k small a = record {
  evidence = evidence_valid sink r err c u e k (ground (arith, small)) a;
  valid_counts = counts_valid r c u;
  started_split = refl;
  outcome_derived = refl;
  scope_fitting = scope_fits_of r.unknown_count (is_fatal err) u;
}

-- The report of a distributed run is never refused, whatever error the run ended with, if no task
-- is unknown, the snapshot is settled and passes its own check, the producer knows of as many
-- enqueued recipients as terminal ones at least, and, with a test inbox, each failed recipient has
-- one of the three delivery reasons.
pub marshal_report-distributed_report :
    (sink : Sink) (r : ProducerResult) (err : RunError)
    → r.unknown_count ≡ 0
    → valid_snapshot r.snapshot ≡ true
    → is_settled r.snapshot ≡ true
    → r.snapshot.completed + r.snapshot.failed < sign_bit
    → is_negative r.known_enqueued ≡ false
    → lt64 r.known_enqueued (known_terminal r.snapshot) ≡ false
    → IsAccounted sink r.snapshot
    → marshal_report (distributed_report backend_asynq sink r err)
      ≡ some (document_of (distributed_report backend_asynq sink r err))
marshal_report-distributed_report sink r err u v st small e k a =
    let c = checked r.snapshot v st in marshal_report-some _ (reportable sink r err c u e k small a)

-- ===== src/Command/DistributedReport/Waited.antt =====
-- cmd/email-pipeline/run_command.go: the report of what Wait returns.
use personalized_email_pipel.Prelude.{◌+◌, ◌<◌, ◌≡◌, true, false, List, some, arith}
use personalized_email_pipel.Prelude.Int64.{sign_bit, lt64, is_negative}
use personalized_email_pipel.Campaign.Report.{Sink, backend_asynq, marshal_report, document_of}
use personalized_email_pipel.Command.DistributedReport.Accepted.{
  Checked, checked, marshal_report-distributed_report,
}
use personalized_email_pipel.Command.DistributedReport.{distributed_report, run_error, IsAccounted}
use personalized_email_pipel.Distributed.Producer.{
  ProducerConfig, ProducerResult, PollRound, Produced,
}
use personalized_email_pipel.Distributed.Redis.{Redis}
use personalized_email_pipel.Distributed.Scripts.Store.{Store}
use personalized_email_pipel.Distributed.Snapshots.{
  Snapshot, known_terminal, known_enqueued, is_settled,
}
use personalized_email_pipel.Distributed.Waiting.Ends.{is_unknown_state, wait-IsAccountable}
use personalized_email_pipel.Distributed.Waiting.{wait}

nothing_waits : (s : Snapshot) → is_settled s ≡ true → (s.acknowledged ≡ 0) × (s.started ≡ 0)
unfolding is_settled
nothing_waits s h = ground arith

-- The enqueued recipients of a settled snapshot are all of them.
enqueued_total :
    (s : Snapshot)
    → Checked s
    → (s.acknowledged ≡ 0) × (s.started ≡ 0)
    → s.completed + s.failed < sign_bit
    → (is_negative (known_enqueued s) ≡ false)
      × (lt64 (known_enqueued s) (known_terminal s) ≡ false)
enqueued_total s c (a, b) h =
    rw (a, b)
      (ground (
        arith, c.sum_total, c.total_positive, c.completed_positive, c.failed_positive,
        c.unprocessed_positive,
      ))

-- The report of a distributed run for which Wait returned is never refused, unless its error is
-- ErrUnknownState: whether the campaign was completed, cancelled, or ended by its deadline, if the
-- terminal recipients are fewer than 2 ^ 63 and, with a test inbox, each failed recipient has one of
-- the three delivery reasons.
pub marshal_report-wait :
    (R : Redis) (c : ProducerConfig) (ts : List PollRound) (s : Store R) (r : ProducerResult)
    (p : Produced R) (sink : Sink)
    → wait R c ts s r ≡ some p
    → is_unknown_state p.error ≡ false
    → p.result.snapshot.completed + p.result.snapshot.failed < sign_bit
    → IsAccounted sink p.result.snapshot
    → let report = distributed_report backend_asynq sink p.result (run_error p.error) in
      marshal_report report ≡ some (document_of report)
marshal_report-wait R c ts s r p sink e h small a =
    let w = wait-IsAccountable R c ts s r p e h in
    let snap = p.result.snapshot in
    let (positive, fits) =
      enqueued_total snap (checked snap w.checked w.settled) (nothing_waits snap w.settled) small in
    marshal_report-distributed_report sink p.result (run_error p.error) w.nothing_unknown w.checked
      w.settled small (rw w.enqueued positive) (rw w.enqueued fits) a

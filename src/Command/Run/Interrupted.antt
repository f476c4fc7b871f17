-- ===== src/Command/Run/Interrupted.antt =====
-- cmd/email-pipeline/run_command.go: how a distributed run that a signal interrupts ends.
use personalized_email_pipel.Prelude.{◌+◌, ◌<◌, ◌≡◌, refl, ◌∙◌, true, false, ◌&&◌, none, some, ap}
use personalized_email_pipel.Prelude.Int64.{sign_bit}
use personalized_email_pipel.Campaign.Model.{interrupted, derive_outcome}
use personalized_email_pipel.Campaign.Report.Refusals.{IsReportable, marshal_report_iff}
use personalized_email_pipel.Campaign.Report.{
  RunReport, backend_asynq, marshal_report, document_of, write_run_report,
}
use personalized_email_pipel.Command.DistributedReport.Waited.{marshal_report-wait}
use personalized_email_pipel.Command.DistributedReport.{distributed_report, run_error, IsAccounted}
use personalized_email_pipel.Command.Exit.{silent}
use personalized_email_pipel.Command.Options.{
  RunOptions, RedisConfig, redis_config_from_environment, producer_config, is_test_inbox,
}
use personalized_email_pipel.Command.Run.{
  Environment, DistributedRun, smtp_sink_from_environment, report_exit, awaited, produce,
  produced_exit, redis_run, is_refused, run_distributed,
}
use personalized_email_pipel.Distributed.Producer.{
  Produced, context_cancelled, valid_producer, enqueue,
}
use personalized_email_pipel.Distributed.Redis.{Redis}
use personalized_email_pipel.Distributed.Scripts.Store.{Store}
use personalized_email_pipel.Distributed.Task.{Codec}
use personalized_email_pipel.Distributed.Waiting.{wait}
use personalized_email_pipel.TestInbox.{Strings}

outcome_interrupted :
    (r : RunReport)
    → IsReportable r
    → r.cancelled ≡ true
    → r.fatal ≡ false
    → r.outcome ≡ interrupted
unfolding derive_outcome
outcome_interrupted r v c f = v.outcome_derived ∙ rw c (rw f (rw v.valid_counts refl))

exit_interrupted :
    (r : RunReport)
    → marshal_report r ≡ some (document_of r)
    → r.cancelled ≡ true
    → r.fatal ≡ false
    → report_exit r true ≡ silent 130
unfolding report_exit write_run_report
exit_interrupted r m c f =
    let o = outcome_interrupted r ((marshal_report_iff r).0 (document_of r, m)) c f in
    rw m (rw o refl)

module _ (R : Redis) (J : Codec) (S : Strings) (E : Environment) where
  -- runDistributed gets as far as Wait, which returns `p`: its guards pass, and Enqueue has no error.
  pub record Returns (o : RunOptions) (d : DistributedRun) (s : Store R) (p : Produced R)
      : Type 1 where
    pub sink_made : (is_test_inbox o.sink && is_refused (smtp_sink_from_environment S E)) ≡ false
    pub redis : RedisConfig
    pub redis_made : redis_config_from_environment S.atoi E.get_env ≡ some redis
    pub producer_made : valid_producer (producer_config o d.now) ≡ true
    pub enqueued : Produced R
    pub enqueued_lem :
        (enqueue R J (producer_config o d.now) d.create_link d.rounds d.closing s).produced
        ≡ enqueued
    pub no_error : enqueued.error ≡ none
    pub waited : wait R (producer_config o d.now) d.polls enqueued.store enqueued.result ≡ some p

  produce-Returns :
      (o : RunOptions) (d : DistributedRun) (s : Store R) (p : Produced R)
      → Returns o d s p
      → produce R J o d s ≡ some p
  unfolding produce awaited
  produce-Returns o d s p h = rw h.enqueued_lem (rw h.no_error h.waited)

  run_distributed-Returns :
      (o : RunOptions) (d : DistributedRun) (s : Store R) (p : Produced R)
      → Returns o d s p
      → run_distributed R J S E o d s
        ≡ some (
            report_exit
              (distributed_report o.backend o.sink p.result (run_error p.error))
              d.written)
  unfolding run_distributed redis_run produced_exit
  run_distributed-Returns o d s p h =
      rw h.sink_made (rw h.redis_made (rw h.producer_made (rw (produce-Returns o d s p h) refl)))

  -- A distributed run that a signal interrupts while it waits, behind an Enqueue without an error, exits
  -- with 130 and prints no error, whatever the workers and the links to the ledger do, if Wait then
  -- returns the error of the context and not that the state is unknown. The terminal recipients are
  -- fewer than 2 ^ 63, with a test inbox each failed one has one of the three delivery reasons, and the
  -- report can be printed.
  pub run_distributed-interrupted :
      (o : RunOptions) (d : DistributedRun) (s : Store R) (p : Produced R)
      → Returns o d s p
      → o.backend ≡ backend_asynq
      → p.error ≡ some context_cancelled
      → p.result.snapshot.completed + p.result.snapshot.failed < sign_bit
      → IsAccounted o.sink p.result.snapshot
      → d.written ≡ true
      → run_distributed R J S E o d s ≡ some (silent 130)
  unfolding distributed_report
  run_distributed-interrupted o d s p h backend cancelled small accounted written =
      let m =
        marshal_report-wait R (producer_config o d.now) d.polls h.enqueued.store h.enqueued.result p
          o.sink h.waited (rw cancelled refl) small accounted in
      run_distributed-Returns o d s p h
      ∙ rw written
          (rw backend (ap some (exit_interrupted _ m (rw cancelled refl) (rw cancelled refl))))

-- ===== src/Tests/Interrupted.antt =====
-- The options of a distributed run, and one that is interrupted before its second task is enqueued.
use personalized_email_pipel.Prelude.{ℕ, ◌≡◌, refl, true, false, not, ◌==◌, [], none, arith}
use personalized_email_pipel.Prelude.Int64.{add64, lt64}
use personalized_email_pipel.Campaign.Render.{html_format, decimal_from}
use personalized_email_pipel.Campaign.Report.{backend_asynq, sink_test_inbox, marshal_report}
use personalized_email_pipel.Command.DistributedReport.Refused.{marshal_report-unsettled}
use personalized_email_pipel.Command.DistributedReport.{distributed_report, is_cancelled, run_error}
use personalized_email_pipel.Command.Options.Campaigns.{valid_options-valid_producer}
use personalized_email_pipel.Command.Options.{
  RunOptions, valid_options, producer_config, test_inbox_confirmation,
}
use personalized_email_pipel.Distributed.Answers.{create_error, acknowledge_error, close_error}
use personalized_email_pipel.Distributed.Ledger.{
  answered, create, acknowledge, close, snapshot, decode_snapshot,
}
use personalized_email_pipel.Distributed.Producer.{
  RangeRound, Enqueued, enqueue, enqueue_from, enqueue_range, close_campaign, valid_producer,
}
use personalized_email_pipel.Distributed.Requests.{valid_close, valid_campaign, valid_id, bad_range}
use personalized_email_pipel.Distributed.Scripts.Acknowledge.{acknowledge_script, acknowledge_from}
use personalized_email_pipel.Distributed.Scripts.Close.{close_script, move_all}
use personalized_email_pipel.Distributed.Scripts.Create.{create_script, any_key_exists}
use personalized_email_pipel.Distributed.Scripts.Snapshot.{snapshot_script}
use personalized_email_pipel.Distributed.Scripts.Store.{empty_store}
use personalized_email_pipel.Distributed.Snapshots.{valid_snapshot}
use personalized_email_pipel.Distributed.Task.{new_task, valid_payload}
use personalized_email_pipel.RecipientCsv.Fixture.{fixture_algorithm_v1}
use personalized_email_pipel.Tests.Campaigns.{codec}
use personalized_email_pipel.Tests.Producer.{config, rounds, closing}
use personalized_email_pipel.Tests.RedisLists.{list_redis}

abbrev pub options : RunOptions
options = record {
  input = [];
  backend = backend_asynq;
  sink = sink_test_inbox;
  format = html_format;
  count = 3;
  seed = 7;
  algorithm = fixture_algorithm_v1;
  workers = 4;
  settlement = 5000000000;
  confirmation = test_inbox_confirmation;
  task_size = 100;
  max_retry = 3;
  completion_deadline = 30000000000;
  expose_mode = true;
}

options_valid : valid_options options ≡ true
unfolding valid_options
options_valid = refl

valid_options-valid_producer_example :
    valid_producer (producer_config options 1700000000000000000) ≡ not (lt64 10000 100)
valid_options-valid_producer_example =
    valid_options-valid_producer options 1700000000000000000 options_valid refl (omega arith)
      (omega arith)

abbrev interrupted_rounds : ℕ → RangeRound
interrupted_rounds first = record (rounds first) { cancelled = not (first == 1) }

abbrev interrupted_enqueue : Enqueued list_redis
interrupted_enqueue =
    enqueue list_redis codec config answered interrupted_rounds closing (empty_store list_redis)

interrupted_error : run_error interrupted_enqueue.produced.error ≡ is_cancelled
unfolding enqueue enqueue_from enqueue_range new_task valid_payload create acknowledge close
    snapshot valid_campaign valid_id bad_range create_script any_key_exists acknowledge_script
    acknowledge_from valid_snapshot create_error decimal_from acknowledge_error snapshot_script
    decode_snapshot close_campaign close_error close_script move_all valid_close
interrupted_error = refl

interrupted_known : interrupted_enqueue.produced.result.unknown_count ≡ 0
unfolding enqueue enqueue_from enqueue_range new_task valid_payload create acknowledge close
    snapshot valid_campaign valid_id bad_range create_script any_key_exists acknowledge_script
    acknowledge_from valid_snapshot create_error decimal_from acknowledge_error snapshot_script
    decode_snapshot close_campaign close_error close_script move_all valid_close
interrupted_known = refl

interrupted_counts :
    let snap = interrupted_enqueue.produced.result.snapshot in
    (snap.total == add64 (add64 snap.completed snap.failed) snap.unprocessed) ≡ false
unfolding enqueue enqueue_from enqueue_range new_task valid_payload create acknowledge close
    snapshot valid_campaign valid_id bad_range create_script any_key_exists acknowledge_script
    acknowledge_from valid_snapshot create_error decimal_from acknowledge_error snapshot_script
    decode_snapshot close_campaign close_error close_script move_all valid_close
interrupted_counts = refl

marshal_report-unsettled_example :
    marshal_report (
      distributed_report backend_asynq sink_test_inbox interrupted_enqueue.produced.result
        (run_error interrupted_enqueue.produced.error))
    ≡ none
marshal_report-unsettled_example =
    marshal_report-unsettled backend_asynq sink_test_inbox interrupted_enqueue.produced.result
      (run_error interrupted_enqueue.produced.error) interrupted_known interrupted_counts

-- ===== src/Tests/Producer.antt =====
-- The producer at concrete inputs.
use personalized_email_pipel.Prelude.{
  ℕ, ◌+◌, ◌<◌, ◌≡◌, refl, true, false, List, [], ◌∷◌, Option, none, some, arith,
}
use personalized_email_pipel.Campaign.Render.{html_format, decimal_from}
use personalized_email_pipel.Campaign.Report.{
  backend_asynq, sink_test_inbox, marshal_report, document_of,
}
use personalized_email_pipel.Command.DistributedReport.Waited.{marshal_report-wait}
use personalized_email_pipel.Command.DistributedReport.{distributed_report, run_error, IsAccounted}
use personalized_email_pipel.Distributed.Answers.{
  create_error, acknowledge_error, close_error, settle_error,
}
use personalized_email_pipel.Distributed.Ledger.{
  decode_snapshot, answered, create, acknowledge, close, settle, snapshot,
}
use personalized_email_pipel.Distributed.Producer.Ranges.{has_error, enqueue-ends, enqueue-Tiles}
use personalized_email_pipel.Distributed.Producer.Tiles.{Tiles, Fits}
use personalized_email_pipel.Distributed.Producer.{
  ProducerConfig, ProducerResult, RangeRound, CloseRound, PollRound, Produced, info, task_id,
  last_of, enqueue, enqueue_from, enqueue_range, close_campaign,
}
use personalized_email_pipel.Distributed.Requests.{
  since_epoch, valid_close, valid_campaign, valid_id, bad_range,
}
use personalized_email_pipel.Distributed.Scripts.Acknowledge.{acknowledge_script, acknowledge_from}
use personalized_email_pipel.Distributed.Scripts.Close.{
  close_script, settle_script, move_all, record_all,
}
use personalized_email_pipel.Distributed.Scripts.Create.{create_script, any_key_exists}
use personalized_email_pipel.Distributed.Scripts.Snapshot.{snapshot_script}
use personalized_email_pipel.Distributed.Scripts.Store.{empty_store}
use personalized_email_pipel.Distributed.Snapshots.{empty_snapshot, valid_snapshot, is_settled}
use personalized_email_pipel.Distributed.Task.{
  task_sink_test_inbox, task_test_inbox, new_task, valid_payload,
}
use personalized_email_pipel.Distributed.Waiting.Ends.{
  IsAccountable, is_unknown_state, wait-IsAccountable,
}
use personalized_email_pipel.Distributed.Waiting.Returns.{is_returned, wait-is_returned}
use personalized_email_pipel.Distributed.Waiting.{wait, settle_campaign}
use personalized_email_pipel.Tests.Campaigns.{campaign_id, terms, prepared, codec}
use personalized_email_pipel.Tests.RedisLists.{list_redis}

abbrev pub config : ProducerConfig
config = record {
  campaign = terms;
  sink = task_sink_test_inbox;
  format = html_format;
  task_size = 1;
  max_retry = 3;
  retention = 1000;
  enqueue_timeout = 1000;
}

-- The queue confirms each task.
abbrev pub rounds : ℕ → RangeRound
rounds first = record {
  cancelled = false;
  enqueue = info (task_id campaign_id first (last_of config first)) task_test_inbox;
  inspector = none;
  others = [];
  acknowledge_link = answered;
  now = since_epoch 5000000;
}

abbrev pub closing : CloseRound
closing = record {
  close_link = answered;
  close_now = since_epoch 100000000;
  close_others = [];
  close_snapshot = answered;
}

config-Fits : Fits config
config-Fits = record { positive = omega arith; room = omega arith }

enqueue-ends_example :
    (enqueue list_redis codec config answered rounds closing (empty_store list_redis)).ran_out
    ≡ false
enqueue-ends_example =
    enqueue-ends list_redis codec config answered rounds closing (empty_store list_redis)
      config-Fits

enqueued_well :
    has_error
      (enqueue list_redis codec config answered rounds closing
        (empty_store list_redis)).produced.error
    ≡ false
unfolding enqueue enqueue_from enqueue_range new_task valid_payload create acknowledge snapshot
    valid_campaign valid_id bad_range create_script any_key_exists acknowledge_script
    acknowledge_from valid_snapshot create_error decimal_from acknowledge_error snapshot_script
    decode_snapshot
enqueued_well = refl

enqueue-Tiles_example :
    Tiles 1 1 2
      (enqueue list_redis codec config answered rounds closing (empty_store list_redis)).ranges
    × ((enqueue list_redis codec config answered rounds closing
          (empty_store list_redis)).produced.result.known_enqueued
        ≡ 2)
    × ((enqueue list_redis codec config answered rounds closing
          (empty_store list_redis)).produced.result.unknown_count
        ≡ 0)
enqueue-Tiles_example =
    enqueue-Tiles list_redis codec config answered rounds closing (empty_store list_redis)
      config-Fits enqueued_well

abbrev poll_at : ℕ → PollRound
poll_at now = record {
  poll_others = [];
  poll_snapshot = answered;
  poll_cancelled = false;
  poll_now = since_epoch now;
  closing = closing;
  settle_link = answered;
  settle_now = since_epoch 100000000;
  settle_others = [];
  settle_snapshot = answered;
}

abbrev polls : List PollRound
polls = poll_at 6000000 ∷ poll_at 100000000 ∷ poll_at 101000000 ∷ []

abbrev enqueued : ProducerResult
enqueued = record { snapshot = empty_snapshot; known_enqueued = 2; unknown_count = 0 }

wait-is_returned_example : is_returned (wait list_redis config polls prepared enqueued) ≡ true
wait-is_returned_example = wait-is_returned list_redis config polls prepared enqueued (omega arith)

abbrev produced_of : Option (Produced list_redis) → Produced list_redis
produced_of none = record { store = prepared; result = enqueued; error = none }
produced_of (some p) = p

abbrev waited : Produced list_redis
waited = produced_of (wait list_redis config polls prepared enqueued)

produced_of_lem :
    (o : Option (Produced list_redis)) → is_returned o ≡ true → o ≡ some (produced_of o)
produced_of_lem none h = ground arith
produced_of_lem (some p) h = refl

waited_lem : wait list_redis config polls prepared enqueued ≡ some waited
waited_lem = produced_of_lem (wait list_redis config polls prepared enqueued) wait_returned
  where
    wait_returned : is_returned (wait list_redis config polls prepared enqueued) ≡ true
    wait_returned = wait-is_returned list_redis config polls prepared enqueued (omega arith)

waited_known : is_unknown_state waited.error ≡ false
unfolding wait close_campaign create acknowledge close settle snapshot valid_campaign valid_id
    bad_range create_script any_key_exists acknowledge_script acknowledge_from close_script
    settle_script move_all record_all close_error settle_error create_error acknowledge_error
    snapshot_script decode_snapshot valid_close valid_snapshot is_settled settle_campaign
waited_known = refl

wait-IsAccountable_example : IsAccountable waited.result
wait-IsAccountable_example =
    wait-IsAccountable list_redis config polls prepared enqueued waited waited_lem waited_known

waited_small :
    waited.result.snapshot.completed + waited.result.snapshot.failed < 9223372036854775808
unfolding wait close_campaign create acknowledge close settle snapshot valid_campaign valid_id
    bad_range create_script any_key_exists acknowledge_script acknowledge_from close_script
    settle_script move_all record_all close_error settle_error create_error acknowledge_error
    snapshot_script decode_snapshot valid_close valid_snapshot is_settled settle_campaign
waited_small = omega arith

waited-IsAccounted : IsAccounted sink_test_inbox waited.result.snapshot
unfolding wait close_campaign create acknowledge close settle snapshot valid_campaign valid_id
    bad_range create_script any_key_exists acknowledge_script acknowledge_from close_script
    settle_script move_all record_all close_error settle_error create_error acknowledge_error
    snapshot_script decode_snapshot valid_close valid_snapshot is_settled settle_campaign
waited-IsAccounted = refl

marshal_report-wait_example :
    marshal_report
      (distributed_report backend_asynq sink_test_inbox waited.result (run_error waited.error))
    ≡ some (
        document_of
          (distributed_report backend_asynq sink_test_inbox waited.result (run_error waited.error)))
marshal_report-wait_example =
    marshal_report-wait list_redis config polls prepared enqueued waited sink_test_inbox waited_lem
      waited_known waited_small waited-IsAccounted

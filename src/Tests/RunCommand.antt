-- ===== src/Tests/RunCommand.antt =====
-- Runs of the run command: one over the queue that is interrupted while it waits, and two with the test
-- inbox, of which one is interrupted and its delivery confirmed behind the settlement deadline.
use personalized_email_pipel.Prelude.{
  ℕ, ◌+◌, ◌<◌, ◌≡◌, ◌↔◌, refl, true, false, List, [], ◌∷◌, Option, none, some, arith, if◌then◌else◌,
}
use personalized_email_pipel.Campaign.Loop.{Loop, Turn, gives, initial_loop}
use personalized_email_pipel.Campaign.Render.{text_format, decimal_from}
use personalized_email_pipel.Campaign.Report.{sink_dry_run, marshal_report, ReportDocument}
use personalized_email_pipel.Campaign.Normalize.{
  normalize_email, valid_local, valid_domain, valid_label, every_label, ascii_printable, local_rune,
  label_rune,
}
use personalized_email_pipel.Campaign.Runner.{
  is_running, run_turns, turn, observe_cancel, enforce_deadline, fail_all, read_input,
  classify_record, settle_result, drain, grant, delete_active,
}
use personalized_email_pipel.Campaign.Text.{
  text_eq, codes, is_space, rune_len, byte_len, trim_left, trim_right, trim_space, count_rune, cut,
  has_twice, split_from, to_lower,
}
use personalized_email_pipel.Command.Exit.{silent}
use personalized_email_pipel.Command.LocalFile.{LocalRun}
use personalized_email_pipel.Command.Options.{
  RunOptions, producer_config, redis_config_from_environment,
}
use personalized_email_pipel.Command.Run.{
  Environment, DistributedRun, run_distributed, tally, returned_deliveries, inbox_report,
}
use personalized_email_pipel.Command.Run.Inbox.{inbox_mode, Agrees, inbox_report_iff}
use personalized_email_pipel.Command.Run.Interrupted.{Returns, run_distributed-interrupted}
use personalized_email_pipel.Distributed.Producer.{
  ProducerConfig, RangeRound, CloseRound, PollRound, Produced, info, task_id, last_of, enqueue,
  enqueue_from, enqueue_range, close_campaign, valid_producer, context_cancelled,
}
use personalized_email_pipel.Distributed.Answers.{
  create_error, acknowledge_error, close_error, settle_error,
}
use personalized_email_pipel.Distributed.Ledger.{
  decode_snapshot, answered, create, acknowledge, close, settle, snapshot,
}
use personalized_email_pipel.Distributed.Requests.{
  since_epoch, valid_close, valid_campaign, valid_id, bad_range,
}
use personalized_email_pipel.Distributed.Scripts.Acknowledge.{acknowledge_script, acknowledge_from}
use personalized_email_pipel.Distributed.Scripts.Close.{
  close_script, settle_script, move_all, record_all,
}
use personalized_email_pipel.Distributed.Scripts.Create.{create_script, any_key_exists}
use personalized_email_pipel.Distributed.Scripts.Snapshot.{snapshot_script}
use personalized_email_pipel.Distributed.Snapshots.{valid_snapshot, is_settled}
use personalized_email_pipel.Distributed.Task.{new_task, task_dry_run, valid_payload}
use personalized_email_pipel.Distributed.Waiting.{wait, wait_closed, settle_campaign}
use personalized_email_pipel.Distributed.Scripts.Store.{empty_store}
use personalized_email_pipel.TestInbox.{DeliveryStatus, delivery_confirmed}
use personalized_email_pipel.Tests.Campaigns.{codec}
use personalized_email_pipel.Tests.Inbox.{strings}
use personalized_email_pipel.Tests.Interrupted.{options}
use personalized_email_pipel.Tests.RedisLists.{list_redis}
use personalized_email_pipel.Tests.Runner.{
  ada, quiet, config, source, turns, finished, finished_stopped,
}

abbrev environment : Environment
environment = record {
  get_env = λ key. if text_eq key (codes "EMAIL_PIPELINE_REDIS_ADDR") then codes "redis" else [];
  read_file = λ path. none;
  no_cert_pool = false;
  append_certs = λ pem. false;
}

abbrev dry_options : RunOptions
dry_options = record options { sink = sink_dry_run; count = 2; task_size = 1; format = text_format }

abbrev campaign_config : ProducerConfig
campaign_config = producer_config dry_options 1000000

-- The queue confirms each task; the first poll finds the context cancelled.
abbrev queue_rounds : ℕ → RangeRound
queue_rounds first = record {
  cancelled = false;
  enqueue =
      info (task_id campaign_config.campaign.id first (last_of campaign_config first)) task_dry_run;
  inspector = none;
  others = [];
  acknowledge_link = answered;
  now = since_epoch 2000000;
}

abbrev queue_closing : CloseRound
queue_closing = record {
  close_link = answered;
  close_now = since_epoch 3000000;
  close_others = [];
  close_snapshot = answered;
}

abbrev cancelled_poll : PollRound
cancelled_poll = record {
  poll_others = [];
  poll_snapshot = answered;
  poll_cancelled = true;
  poll_now = since_epoch 3000000;
  closing = queue_closing;
  settle_link = answered;
  settle_now = since_epoch 4000000;
  settle_others = [];
  settle_snapshot = answered;
}

abbrev signalled : DistributedRun
signalled = record {
  now = 1000000;
  create_link = answered;
  rounds = queue_rounds;
  closing = queue_closing;
  polls = cancelled_poll ∷ [];
  written = true;
}

abbrev produced_before : Produced list_redis
produced_before =
    (enqueue list_redis codec campaign_config answered queue_rounds queue_closing
      (empty_store list_redis)).produced

produced_before_well : produced_before.error ≡ none
unfolding enqueue enqueue_from enqueue_range new_task valid_payload create acknowledge snapshot
    valid_campaign valid_id bad_range create_script any_key_exists acknowledge_script
    acknowledge_from valid_snapshot create_error decimal_from acknowledge_error snapshot_script
    decode_snapshot
produced_before_well = refl

abbrev produced_of : Option (Produced list_redis) → Produced list_redis
produced_of none = produced_before
produced_of (some p) = p

abbrev waited_for : Produced list_redis
waited_for =
    produced_of
      (wait list_redis campaign_config signalled.polls produced_before.store produced_before.result)

waited_well :
    wait list_redis campaign_config signalled.polls produced_before.store produced_before.result
    ≡ some waited_for
unfolding wait wait_closed enqueue enqueue_from enqueue_range new_task valid_payload decimal_from
    close_campaign create acknowledge close settle snapshot valid_campaign valid_id bad_range
    create_script any_key_exists acknowledge_script acknowledge_from close_script settle_script
    move_all record_all close_error settle_error create_error acknowledge_error snapshot_script
    decode_snapshot valid_close valid_snapshot is_settled settle_campaign
waited_well = refl

waited_cancelled :
    (waited_for.error ≡ some context_cancelled)
    × (waited_for.result.snapshot.completed + waited_for.result.snapshot.failed
        < 9223372036854775808)
unfolding wait wait_closed enqueue enqueue_from enqueue_range new_task valid_payload decimal_from
    close_campaign create acknowledge close settle snapshot valid_campaign valid_id bad_range
    create_script any_key_exists acknowledge_script acknowledge_from close_script settle_script
    move_all record_all close_error settle_error create_error acknowledge_error snapshot_script
    decode_snapshot valid_close valid_snapshot is_settled settle_campaign
waited_cancelled = (refl, omega arith)

producer_well : valid_producer campaign_config ≡ true
unfolding valid_producer valid_campaign valid_id decimal_from
producer_well = refl

redis_well :
    redis_config_from_environment strings.atoi environment.get_env
    ≡ some (record { address = codes "redis"; username = []; password = []; db = 0 })
unfolding redis_config_from_environment trim_space trim_left trim_right is_space rune_len byte_len
redis_well = refl

signalled-Returns :
    Returns list_redis codec strings environment dry_options signalled
      (empty_store list_redis)
      waited_for
signalled-Returns = record {
  sink_made = refl;
  redis = record { address = codes "redis"; username = []; password = []; db = 0 };
  redis_made = redis_well;
  producer_made = producer_well;
  enqueued = produced_before;
  enqueued_lem = refl;
  no_error = produced_before_well;
  waited = waited_well;
}

run_distributed-interrupted_example :
    run_distributed list_redis codec strings environment dry_options signalled
      (empty_store list_redis)
    ≡ some (silent 130)
run_distributed-interrupted_example =
    run_distributed-interrupted list_redis codec strings environment dry_options signalled
      (empty_store list_redis) waited_for signalled-Returns refl waited_cancelled.0
      waited_cancelled.1 tt refl

abbrev inbox_run : LocalRun
inbox_run = record {
  config = config;
  turns = turns;
  mode = none;
  elapsed = 7;
  peak = 8;
  response_bound = 9;
  measured = 10;
}

abbrev all_confirmed : ℕ → DeliveryStatus
all_confirmed k = delivery_confirmed

inbox_report_iff_example :
    ((d : ReportDocument) × (marshal_report
          (inbox_report inbox_run inbox_mode all_confirmed finished)
        ≡ some d))
    ↔ Agrees (tally (returned_deliveries all_confirmed finished.started)) finished
inbox_report_iff_example =
    inbox_report_iff inbox_run source all_confirmed (omega arith) (omega arith) finished_stopped

-- The one recipient is granted in the first round; the second sees the signal and then a clock behind
-- the settlement deadline. Its delivery is confirmed before the worker returns.
abbrev late_turns : List Turn
late_turns = quiet ∷ record quiet { cancelled = true; now = 1; deadline_now = 10 } ∷ quiet ∷ []

abbrev late : Loop
late = run_turns config (initial_loop (gives ada ∷ [])) late_turns

late_stopped :
    (is_running late ≡ false)
    × (late.started ≡ 1)
    × (late.counts.failed ≡ 1)
    × (late.counts.completed ≡ 0)
unfolding run_turns turn observe_cancel enforce_deadline fail_all read_input classify_record
    settle_result drain grant delete_active normalize_email valid_local valid_domain valid_label
    every_label ascii_printable local_rune label_rune byte_len trim_left trim_right trim_space
    count_rune cut has_twice split_from to_lower is_space rune_len
late_stopped = (refl, refl, refl, refl)

late_tally : (tally (returned_deliveries all_confirmed 1)).confirmed ≡ 1
unfolding tally returned_deliveries
late_tally = refl

late_refused :
    (d : ReportDocument)
    → marshal_report
        (inbox_report (record inbox_run { turns = late_turns }) inbox_mode all_confirmed late)
      ≡ some d
    → ⊥
late_refused d e =
    let g =
      (inbox_report_iff (record inbox_run { turns = late_turns }) (gives ada ∷ []) all_confirmed
          (omega arith) (omega arith) late_stopped.0).0
        (d, e) in
    absurd (omega (arith, late_tally, late_stopped.3, rw late_stopped.1 at g.0))

-- ===== src/Distributed/Producer.antt =====
-- internal/distributed/producer.go: how a campaign is created, its tasks enqueued, and its end
-- awaited. What lies outside comes with each range as a `RangeRound` and with each poll as a
-- `PollRound`: the context, the clock, the links to the ledger, what others do to the ledger
-- meanwhile, and the answers of the queue and its inspector.
pub mod Closes
pub mod Ranges
pub mod Tiles
use personalized_email_pipel.Prelude.{
  ℕ, zero, suc, ◌+◌, ◌-◌, Bool, true, false, not, ◌&&◌, ◌||◌, List, [], ◌∷◌, ◌++◌, Option, none,
  some, ltb, leb, ◌==◌, if◌then◌else◌, length,
}
use personalized_email_pipel.Prelude.Int64.{add64, sub64, lt64, is_negative}
use personalized_email_pipel.Campaign.Model.{Text}
use personalized_email_pipel.Campaign.Render.{Format, decimal_from}
use personalized_email_pipel.Campaign.Text.{codes, text_eq}
use personalized_email_pipel.Distributed.Answers.{LedgerError}
use personalized_email_pipel.Distributed.Ledger.Effects.{Operation, perform_all}
use personalized_email_pipel.Distributed.Ledger.{
  Link, answered, SnapshotResult, no_snapshot, unknown_snapshot, read_snapshot, create, acknowledge,
  close, settle, snapshot,
}
use personalized_email_pipel.Distributed.Model.{
  AttemptPolicy, retryable, one_shot_delivery, FailureReason, failure_interrupted, failure_deadline,
}
use personalized_email_pipel.Distributed.Redis.{Redis}
use personalized_email_pipel.Distributed.Requests.{
  CampaignTerms, PolicyName, policy, other_policy, Time, after, reason, valid_campaign,
  max_acknowledge_range,
}
use personalized_email_pipel.Distributed.Scripts.Store.{Store}
use personalized_email_pipel.Distributed.Snapshots.{
  Snapshot, empty_snapshot, known_terminal, known_enqueued, is_settled,
}
use personalized_email_pipel.Distributed.Task.{
  Codec, Task, TaskPayload, TaskSink, task_sink_dry_run, task_sink_test_inbox, TaskType, type_eq,
  new_task,
}

pub record ProducerConfig : Type 0 where
  pub campaign : CampaignTerms
  pub sink : TaskSink
  pub format : Format
  pub task_size : ℕ
  pub max_retry : ℕ
  pub retention : ℕ
  pub enqueue_timeout : ℕ

pub record ProducerResult : Type 0 where
  pub snapshot : Snapshot
  pub known_enqueued : ℕ
  pub unknown_count : ℕ

-- ctx.Err(), ErrUnknownState, ErrCompletionDeadline, or an error of the ledger.
pub data ProducerError : Type 0 where
  context_cancelled unknown_state completion_deadline : ProducerError
  ledger_error : LedgerError → ProducerError

abbrev pub producer_sink_matches : TaskSink → PolicyName → Bool
producer_sink_matches task_sink_dry_run (policy retryable) = true
producer_sink_matches task_sink_test_inbox (policy one_shot_delivery) = true
producer_sink_matches _ _ = false

-- The guard of NewProducer, of the fields that are numbers and the campaign.
unfoldable pub valid_producer : ProducerConfig → Bool
valid_producer c =
    if not (valid_campaign c.campaign)
      || lt64 c.task_size 1
      || lt64 max_acknowledge_range c.task_size
      || is_negative c.max_retry
      || not (lt64 0 c.retention)
      || not (lt64 0 c.enqueue_timeout)
      || not (producer_sink_matches c.sink c.campaign.policy_name)
    then false
    else true

-- TaskID; the numbers are positive, and 19 digits are enough for them.
abbrev pub task_id : Text → ℕ → ℕ → Text
task_id id first last =
    id ++ codes ":" ++ decimal_from 20 first ++ codes "-" ++ decimal_from 20 last

-- What EnqueueContext and GetTaskInfo return: an error, no info, or the info's id and queue.
pub data QueueAnswer : Type 0 where
  queue_failed no_info : QueueAnswer
  info : Text → TaskType → QueueAnswer

pub record RangeRound : Type 0 where
  pub cancelled : Bool
  pub enqueue : QueueAnswer
  pub inspector : Option QueueAnswer  -- none without an inspector
  pub others : List (Link × Operation)
  pub acknowledge_link : Link
  pub now : Time

-- What happens around a close and its snapshot.
pub record CloseRound : Type 0 where
  pub close_link : Link
  pub close_now : Time
  pub close_others : List (Link × Operation)
  pub close_snapshot : Link

pub record PollRound : Type 0 where
  pub poll_others : List (Link × Operation)
  pub poll_snapshot : Link
  pub poll_cancelled : Bool
  pub poll_now : Time
  pub closing : CloseRound
  pub settle_link : Link
  pub settle_now : Time
  pub settle_others : List (Link × Operation)
  pub settle_snapshot : Link

abbrev names : Text → TaskType → QueueAnswer → Bool
names id queue (info i q) = text_eq i id && type_eq q queue
names id queue queue_failed = false
names id queue no_info = false

-- The result of a call, for the task that has the id and goes to the queue.
abbrev confirmed_by : Text → TaskType → QueueAnswer → Option QueueAnswer → Bool
confirmed_by id queue queue_failed none = false
confirmed_by id queue queue_failed (some inspected) = names id queue inspected
confirmed_by id queue answer inspector = names id queue answer

abbrev payload_of : ProducerConfig → ℕ → ℕ → TaskPayload
payload_of c first last = record {
  version = 1;
  campaign_id = c.campaign.id;
  sink = c.sink;
  algorithm = c.campaign.algorithm;
  seed = c.campaign.seed;
  count = c.campaign.total;
  first = first;
  last = last;
  format = c.format;
}

-- The last ordinal of the range from `first`.
abbrev pub last_of : ProducerConfig → ℕ → ℕ
last_of c first =
    let last = sub64 (add64 first c.task_size) 1 in
    if lt64 last c.campaign.total then last else c.campaign.total

module _ (R : Redis) where
  -- The store, the result and the error that an operation of the producer returns.
  pub record Produced : Type 0 where
    pub store : Store R
    pub result : ProducerResult
    pub error : Option ProducerError

  -- The same, with the ranges that were handed to the queue, and whether the fuel ran out.
  pub record Enqueued : Type 0 where
    pub produced : Produced
    pub ranges : List (ℕ × ℕ)
    pub ran_out : Bool

  -- close.
  closed_snapshot : Store R → ProducerResult → Option ProducerError → SnapshotResult → Produced
  closed_snapshot s result err (read_snapshot snap none) = record {
    store = s;
    result = record result { snapshot = snap };
    error = err;
  }
  closed_snapshot s result err (read_snapshot snap (some e)) = record {
    store = s;
    result = result;
    error = some unknown_state;
  }
  closed_snapshot s result err (no_snapshot e) = record {
    store = s;
    result = result;
    error = some unknown_state;
  }
  closed_snapshot s result err (unknown_snapshot id) = record {
    store = s;
    result = result;
    error = some unknown_state;
  }

  closed_store :
      Text
      → Store R × Option LedgerError
      → ProducerResult
      → Option ProducerError
      → CloseRound
      → Produced
  closed_store id (s, some e) result err t = record {
    store = s;
    result = result;
    error = some unknown_state;
  }
  closed_store id (s, none) result err t =
      let s' = perform_all R s t.close_others in
      closed_snapshot s' result err (snapshot R t.close_snapshot s' id)

  unfoldable pub close_campaign :
      ProducerConfig
      → Store R
      → ProducerResult
      → FailureReason
      → Option ProducerError
      → CloseRound
      → Produced
  unfolding closed_store closed_snapshot
  close_campaign c s result x err t =
      closed_store c.campaign.id
        (close R t.close_link s c.campaign.id
          (record { now = t.close_now; reason_name = reason x }))
        result err t

  -- closeUnknown.
  close_unknown : ProducerConfig → Store R → ProducerResult → CloseRound → Produced
  close_unknown c s result t =
      close_campaign c s
        (record result { unknown_count = sub64 c.campaign.total result.known_enqueued })
        failure_interrupted (some unknown_state) t

  -- The end of the loop.
  final_snapshot : ProducerConfig → Store R → ProducerResult → SnapshotResult → Produced
  final_snapshot c s result (read_snapshot snap none) = record {
    store = s;
    result = record result { snapshot = snap };
    error = none;
  }
  final_snapshot c s result (read_snapshot snap (some e)) = record {
    store = s;
    result = record result { unknown_count = sub64 c.campaign.total result.known_enqueued };
    error = some (ledger_error e);
  }
  final_snapshot c s result (no_snapshot e) = record {
    store = s;
    result = record result { unknown_count = sub64 c.campaign.total result.known_enqueued };
    error = some (ledger_error e);
  }
  final_snapshot c s result (unknown_snapshot id) = record {
    store = s;
    result = record result { unknown_count = sub64 c.campaign.total result.known_enqueued };
    error = some (ledger_error LedgerError.unavailable);
  }

  abbrev add_range : ℕ × ℕ → Enqueued → Enqueued
  add_range range e = record e { ranges = range ∷ e.ranges }

  abbrev stopped : Produced → Enqueued
  stopped p = record { produced = p; ranges = []; ran_out = false }

  acknowledged_store : Store R × Option LedgerError → Store R
  acknowledged_store (s, e) = s

  -- A round of the loop behind the answer of Acknowledge.
  after_acknowledge :
      ProducerConfig
      → Store R × Option LedgerError
      → ProducerResult
      → CloseRound
      → Enqueued
      → Enqueued
  after_acknowledge c (s, some e) result closing rest = stopped (close_unknown c s result closing)
  after_acknowledge c (s, none) result closing rest = rest

module _ (R : Redis) (J : Codec) where
  -- enqueueRange: whether the task is known to be in the queue.
  confirmed_task : ProducerConfig → ℕ → ℕ → RangeRound → Option (Task J) → Bool
  confirmed_task c first last t none = false
  confirmed_task c first last t (some (queue, bytes)) =
      confirmed_by (task_id c.campaign.id first last) queue t.enqueue t.inspector

  unfoldable pub enqueue_range : ProducerConfig → ℕ → ℕ → RangeRound → Bool
  unfolding confirmed_task
  enqueue_range c first last t =
      confirmed_task c first last t (new_task J (payload_of c first last))

  -- The loop of Enqueue: `rounds` gives what lies outside by the first ordinal of a range, and
  -- `closing` what happens around a close and the last snapshot.
  unfoldable pub enqueue_from :
      ProducerConfig → (ℕ → RangeRound) → CloseRound → ℕ → Store R → ProducerResult → ℕ → Enqueued R
  unfolding after_acknowledge acknowledged_store close_unknown final_snapshot
  enqueue_from c rounds closing zero s result first = record {
    produced = record { store = s; result = result; error = none };
    ranges = [];
    ran_out = true;
  }
  enqueue_from c rounds closing (suc fuel) s result first =
      let t = rounds first in
      let last = last_of c first in
      let s' = perform_all R s t.others in
      let acknowledged =
        acknowledge R t.acknowledge_link s' c.campaign.id
          (record { start = first; end_ = last; now = t.now }) in
      let counted = record result {
        known_enqueued = add64 result.known_enqueued (add64 (sub64 last first) 1);
      } in
      let rest =
        enqueue_from c rounds closing fuel (acknowledged_store R acknowledged) counted
          (add64 first c.task_size) in
      if lt64 c.campaign.total first
      then stopped R
          (final_snapshot R c s result (snapshot R closing.close_snapshot s c.campaign.id))
      else if t.cancelled
      then stopped R
          (close_campaign R c s result failure_interrupted (some context_cancelled) closing)
      else if not (enqueue_range c first last t)
      then add_range R (first, last) (stopped R (close_unknown R c s' result closing))
      else add_range R (first, last) (after_acknowledge R c acknowledged result closing rest)

  created :
      ProducerConfig → (ℕ → RangeRound) → CloseRound → ℕ → Store R × Option LedgerError → Enqueued R
  created c rounds closing fuel (s, some e) = stopped R (record {
    store = s;
    result = record {
      snapshot = empty_snapshot;
      known_enqueued = 0;
      unknown_count = c.campaign.total;
    };
    error = some (ledger_error e);
  })
  created c rounds closing fuel (s, none) =
      enqueue_from c rounds closing fuel s
        (record { snapshot = empty_snapshot; known_enqueued = 0; unknown_count = 0 }) 1

  -- Enqueue; the loop makes one round more than there are ordinals at most.
  unfoldable pub enqueue :
      ProducerConfig → Link → (ℕ → RangeRound) → CloseRound → Store R → Enqueued R
  unfolding created
  enqueue c link rounds closing s =
      created c rounds closing (c.campaign.total + 1) (create R link s c.campaign)

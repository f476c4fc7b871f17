-- ===== src/Distributed/Worker.antt =====
-- internal/distributed/worker.go: what a worker does with a task. What lies outside it comes with
-- each record as a `Round`: the clock, the links to the ledger, what others do to the ledger
-- meanwhile, the context, and the result of the delivery. SHA-256 in hexadecimal is a parameter.
pub mod Commits
pub mod Deliveries
pub mod Tasks
use personalized_email_pipel.Prelude.{
  ℕ, zero, suc, ◌+◌, Bool, true, false, not, ◌&&◌, ◌||◌, List, [], ◌∷◌, ◌++◌, Option, none, some,
  ◌⊎◌, inl, inr, ltb, leb, ◌==◌, if◌then◌else◌, length, ◌≡◌,
}
use personalized_email_pipel.Prelude.Int64.{lt64}
use personalized_email_pipel.Campaign.Model.{Text, Recipient, fallback}
use personalized_email_pipel.Campaign.Render.{RenderedMessage, render_message}
use personalized_email_pipel.Campaign.Text.{text_eq}
use personalized_email_pipel.Distributed.Answers.{
  LedgerError, unavailable, Transition, BeginResult, granted, retry_granted, not_acknowledged,
}
use personalized_email_pipel.Distributed.Ledger.Effects.{Operation, perform_all}
use personalized_email_pipel.Distributed.Ledger.{
  Link, SnapshotResult, no_snapshot, unknown_snapshot, read_snapshot, begin, commit, snapshot,
}
use personalized_email_pipel.Distributed.Snapshots.{Snapshot, is_trusted}
use personalized_email_pipel.Distributed.Model.{
  AttemptKind, AttemptPolicy, retryable, one_shot_delivery, is_one_shot, initial, retry,
  FailureReason, failure_retry_exhausted, failure_delivery_rejected, failure_delivery_indeterminate,
  failure_delivery_transport,
}
use personalized_email_pipel.Distributed.Redis.{Redis}
use personalized_email_pipel.Distributed.Requests.{
  BeginRequest, CommitRequest, kind, Time, terminal_completed, terminal_failed, no_reason, reason,
  valid_digest,
}
use personalized_email_pipel.Distributed.Scripts.Store.{Store}
use personalized_email_pipel.Distributed.Task.{
  Codec, Task, TaskPayload, TaskSink, task_sink_dry_run, task_sink_test_inbox, decode_task,
}
use personalized_email_pipel.TestInbox.{
  DeliveryStatus, delivery_confirmed, delivery_rejected, delivery_transport, delivery_indeterminate,
  delivery_other, DeliveryResult,
}
use personalized_email_pipel.RecipientCsv.Fixture.{
  Random, Record, GeneratedSource, new_generated_source, drain,
}

-- hex.EncodeToString of a SHA-256 digest: 64 hexadecimal digits.
pub record Sha : Type 0 where
  pub hex_digest : Text → Text
  pub hex_digest-valid : (message : Text) → valid_digest (hex_digest message) ≡ true

pub record Round : Type 0 where
  pub before : List (Link × Operation)  -- others, before Begin
  pub begin_link : Link
  pub begin_now : Time
  pub context_done : Bool
  pub delivery : DeliveryResult
  pub between : List (Link × Operation)  -- others, between Begin and Commit
  pub work : ℕ
  pub commit_now : Time
  pub commit_link : Link

-- An error of the ledger, one with the ordinal of its record (recordTaskError), or the permanent
-- error, which is never retried.
pub data WorkerError : Type 0 where
  ledger_failed : LedgerError → WorkerError
  record_failed : ℕ → LedgerError → WorkerError
  permanent : WorkerError

-- deliveryFailureReason.
abbrev pub delivery_failure_reason : DeliveryStatus → FailureReason
delivery_failure_reason delivery_indeterminate = failure_delivery_indeterminate
delivery_failure_reason delivery_transport = failure_delivery_transport
delivery_failure_reason delivery_rejected = failure_delivery_rejected
delivery_failure_reason delivery_confirmed = failure_delivery_transport
delivery_failure_reason delivery_other = failure_delivery_transport

abbrev pub is_confirmed : DeliveryResult → Bool
is_confirmed d = elim d.status [ delivery_confirmed ↦ not d.failed | _ ↦ false ]

-- The commits of a rendered message, of a delivery, and of the last failed attempt.
abbrev pub dry_run_commit : ℕ → Text → Round → CommitRequest
dry_run_commit ordinal digest t = record {
  ordinal = ordinal;
  state = terminal_completed;
  reason_name = no_reason;
  digest = digest;
  work = t.work;
  now = t.commit_now;
}

abbrev pub delivery_commit : ℕ → Text → Round → CommitRequest
delivery_commit ordinal digest t =
    if is_confirmed t.delivery then dry_run_commit ordinal digest t else record {
      ordinal = ordinal;
      state = terminal_failed;
      reason_name = reason (delivery_failure_reason t.delivery.status);
      digest = [];
      work = 0;
      now = t.commit_now;
    }

abbrev pub exhausted_commit : ℕ → Time → CommitRequest
exhausted_commit ordinal now = record {
  ordinal = ordinal;
  state = terminal_failed;
  reason_name = reason failure_retry_exhausted;
  digest = [];
  work = 0;
  now = now;
}

abbrev pub recipient_of : Record → Recipient
recipient_of r = record {
  ordinal = r.ordinal;
  email = r.email;
  identity = [];
  name = r.name;
  category = fallback;
}

-- payloadMatchesSnapshot.
abbrev policy_for : TaskSink → AttemptPolicy
policy_for task_sink_test_inbox = one_shot_delivery
policy_for _ = retryable

abbrev same_policy : AttemptPolicy → AttemptPolicy → Bool
same_policy a b = if is_one_shot a then is_one_shot b else not (is_one_shot b)

unfoldable pub payload_matches_snapshot : TaskPayload → Snapshot → Bool
payload_matches_snapshot p s =
    is_trusted s.trust
    && text_eq s.algorithm p.algorithm
    && s.seed == p.seed
    && s.total == p.count
    && same_policy s.policy (policy_for p.sink)

abbrev is_test_inbox : TaskSink → Bool
is_test_inbox task_sink_test_inbox = true
is_test_inbox _ = false

abbrev is_dry_run : TaskSink → Bool
is_dry_run task_sink_dry_run = true
is_dry_run _ = false

-- The error of a commit, as processRecord wraps it.
abbrev wrapped : (LedgerError → WorkerError) → Option LedgerError → Option WorkerError
wrapped wrap none = none
wrapped wrap (some e) = some (wrap e)

abbrev pub begin_request : Record → AttemptKind → Round → BeginRequest
begin_request r k t = record { ordinal = r.ordinal; kind_name = kind k; now = t.begin_now }

module _ (R : Redis) (H : Sha) where
  -- What comes of one record: the ledger, the message that was handed to the delivery function, and
  -- the error.
  pub record Processed : Type 0 where
    pub store : Store R
    pub delivered : Option RenderedMessage
    pub error : Option WorkerError

  -- The branch of a dry run.
  process_dry_run : Store R → TaskPayload → Record → Round → Processed
  process_dry_run s p r t =
      let (message, category) = render_message (recipient_of r) p.format in
      let (s', e) =
        commit R t.commit_link (perform_all R s t.between) p.campaign_id
          (dry_run_commit r.ordinal (H.hex_digest message.body) t) in
      if t.context_done
      then record {
        store = s;
        delivered = none;
        error = some (record_failed r.ordinal unavailable);
      }
      else record { store = s'; delivered = none; error = wrapped (record_failed r.ordinal) e }

  -- The branch of a test inbox.
  process_delivery : Store R → TaskPayload → Record → Round → Processed
  process_delivery s p r t =
      let (message, category) = render_message (recipient_of r) p.format in
      let (s', e) =
        commit R t.commit_link (perform_all R s t.between) p.campaign_id
          (delivery_commit r.ordinal (H.hex_digest message.body) t) in
      record { store = s'; delivered = some message; error = wrapped ledger_failed e }

  process_granted : Store R → TaskPayload → Record → Round → Processed
  process_granted s p r t =
      if is_dry_run p.sink then process_dry_run s p r t else process_delivery s p r t

  process_result : Store R → TaskPayload → Record → Round → BeginResult → Processed
  process_result s p r t not_acknowledged = record {
    store = s;
    delivered = none;
    error = some (ledger_failed unavailable);
  }
  process_result s p r t granted = process_granted s p r t
  process_result s p r t retry_granted = process_granted s p r t
  process_result s p r t _ = record { store = s; delivered = none; error = none }

  process_begun : Store R × (LedgerError ⊎ Transition) → TaskPayload → Record → Round → Processed
  process_begun (s, inl e) p r t = record {
    store = s;
    delivered = none;
    error = some (ledger_failed e);
  }
  process_begun (s, inr tr) p r t = process_result s p r t tr.result

  -- processRecord.
  unfoldable pub process_record : Store R → TaskPayload → Record → AttemptKind → Round → Processed
  unfolding process_begun process_result process_granted process_dry_run process_delivery
  process_record s p r k t =
      process_begun
        (begin R t.begin_link (perform_all R s t.before) p.campaign_id (begin_request r k t)) p r t

  -- The loop of ProcessTask over the records of the source; the rounds are those of each ordinal.
  abbrev is_error : Option WorkerError → Bool
  is_error none = false
  is_error (some e) = true

  unfoldable pub process_records :
      Store R → TaskPayload → AttemptKind → (ℕ → Round) → List Record → Store R × Option WorkerError
  process_records s p k rounds [] = (s, none)
  process_records s p k rounds (r ∷ rs) =
      let done = process_record s p r k (rounds r.ordinal) in
      let skipped = process_records s p k rounds rs in
      let more = process_records done.store p k rounds rs in
      if lt64 p.last r.ordinal
      then (s, none)
      else if lt64 r.ordinal p.first
      then skipped
      else if is_error done.error
      then (done.store, done.error)
      else more

-- ===== src/Distributed/Ledger.antt =====
-- internal/distributed/ledger.go: the operations of the ledger on the keys of one campaign. `Link`
-- says what becomes of a script: go-redis reports an error both if it never ran and if its reply
-- was lost.
pub mod Answered
pub mod Checked
pub mod Delivery
pub mod Effects
pub mod Records
pub mod Reads
use personalized_email_pipel.Prelude.{
  ℕ, ◌+◌, Bool, true, false, not, ◌&&◌, ◌||◌, List, [], ◌∷◌, Option, none, some, ◌⊎◌, inl, inr, ltb,
  leb, ◌==◌, if◌then◌else◌, length,
}
use personalized_email_pipel.Prelude.Int64.{lt64, add64, is_negative, sign_bit, modulus}
use personalized_email_pipel.Campaign.Model.{Text}
use personalized_email_pipel.Distributed.Answers.{
  LedgerError, invalid_request, not_found, unavailable, broken, Transition, minus_one, create_error,
  acknowledge_error, begin_answer, commit_error, close_error, settle_error, map_begin_result,
  reply_code, terminal_of,
}
use personalized_email_pipel.Distributed.Model.{
  AttemptKind, AttemptPolicy, CampaignState, state_open, closed, FailureReason, Terminal, is_open,
}
use personalized_email_pipel.Distributed.Redis.{Redis}
use personalized_email_pipel.Distributed.Requests.{
  CampaignTerms, AcknowledgeRequest, BeginRequest, CommitRequest, CloseRequest, PolicyName, policy,
  other_policy, KindName, kind, other_kind, ReasonName, no_reason, reason, other_reason, valid_id,
  valid_campaign, valid_close, bad_range, is_zero, millis, max_work_duration, ledger_version,
}
use personalized_email_pipel.Distributed.Snapshots.{Snapshot, trust_full, valid_snapshot}
use personalized_email_pipel.Distributed.Scripts.Store.{Store, Reply}
use personalized_email_pipel.Distributed.Scripts.Create.{create_script}
use personalized_email_pipel.Distributed.Scripts.Acknowledge.{acknowledge_script}
use personalized_email_pipel.Distributed.Scripts.Begin.{begin_script}
use personalized_email_pipel.Distributed.Scripts.Commit.{commit_script}
use personalized_email_pipel.Distributed.Scripts.Close.{close_script, settle_script}
use personalized_email_pipel.Distributed.Scripts.Snapshot.{
  Values, SnapshotReply, no_campaign, inconsistent, values, snapshot_script,
}

pub data Link : Type 0 where
  answered reply_lost unreachable : Link

-- strconv.ParseInt of a decimal that the script returns.
abbrev pub parse_int : ℕ → ℕ
parse_int n = if ltb n sign_bit then n else minus_one

-- decodeSnapshot; `none` is ErrInvariant.
unfoldable pub decode_snapshot : Text → Values → Option Snapshot
decode_snapshot id v =
    if not (ltb v.seed modulus)
    then none
    else some (record {
      campaign_id = id;
      state = v.state;
      trust = trust_full;
      algorithm = v.algorithm;
      seed = v.seed;
      total = parse_int v.total;
      acknowledged = parse_int v.acknowledged;
      started = parse_int v.started;
      completed = parse_int v.completed;
      failed = parse_int v.failed;
      unprocessed = parse_int v.unprocessed;
      attempts = parse_int v.attempts;
      retries = parse_int v.retries;
      duplicates = parse_int v.duplicates;
      work = parse_int v.work_nanos;
      created = parse_int v.created_ms;
      deadline = parse_int v.deadline_ms;
      updated = parse_int v.updated_ms;
      policy = v.policy;
      delivery_limit = parse_int v.delivery_limit;
      delivery_reserved = parse_int v.delivery_reserved;
      delivery_rejected = parse_int v.rejected;
      delivery_unknown = parse_int v.indeterminate;
      delivery_transport = parse_int v.transport;
    })

-- What Snapshot returns: the empty snapshot with an error, the snapshot of unknown trust with
-- ErrUnavailable, or what was read, with its own error.
pub data SnapshotResult : Type 0 where
  no_snapshot : LedgerError → SnapshotResult
  unknown_snapshot : Text → SnapshotResult
  read_snapshot : Snapshot → Option LedgerError → SnapshotResult

-- The snapshot that is returned without an error.
abbrev pub good : SnapshotResult → Option Snapshot
good (read_snapshot s none) = some s
good (read_snapshot s (some e)) = none
good (no_snapshot e) = none
good (unknown_snapshot id) = none

checked_snapshot : Option Snapshot → SnapshotResult
checked_snapshot none = no_snapshot broken
checked_snapshot (some s) = read_snapshot s (if valid_snapshot s then none else some broken)

snapshot_result : Text → SnapshotReply → SnapshotResult
snapshot_result id no_campaign = no_snapshot not_found
snapshot_result id inconsistent = no_snapshot broken
snapshot_result id (values v) = checked_snapshot (decode_snapshot id v)

module _ (R : Redis) where
  -- run: the store afterwards, and the reply if there is one.
  run_script : Link → Store R → Store R × Reply → Store R × Option Reply
  run_script answered s (s', reply) = (s', some reply)
  run_script reply_lost s (s', reply) = (s', none)
  run_script unreachable s (s', reply) = (s, none)

  error_of : (Reply → Option LedgerError) → Store R × Option Reply → Store R × Option LedgerError
  error_of read (s, none) = (s, some unavailable)
  error_of read (s, some reply) = (s, read reply)

  create_named : Link → Store R → CampaignTerms → PolicyName → Store R × Option LedgerError
  create_named link s c (policy p) = error_of create_error (
      run_script link s (
        create_script R s c.version c.algorithm c.seed c.total (millis c.created)
          (millis c.deadline) p c.delivery_limit))
  create_named link s c other_policy = (s, some invalid_request)

  unfoldable pub create : Link → Store R → CampaignTerms → Store R × Option LedgerError
  unfolding create_named error_of run_script
  create link s c =
      if not (valid_campaign c)
      then (s, some invalid_request)
      else create_named link s c c.policy_name

  unfoldable pub acknowledge :
      Link → Store R → Text → AcknowledgeRequest → Store R × Option LedgerError
  unfolding error_of run_script
  acknowledge link s id r =
      if not (valid_id id) || bad_range r
      then (s, some invalid_request)
      else error_of acknowledge_error
          (run_script link s (acknowledge_script R s r.start r.end_ (millis r.now)))

  begin_reply : ℕ → Store R × Option Reply → Store R × (LedgerError ⊎ Transition)
  begin_reply ordinal (s, none) = (s, inl unavailable)
  begin_reply ordinal (s, some reply) =
      (s, begin_answer ordinal reply (map_begin_result (reply_code reply)))

  begin_named : Link → Store R → BeginRequest → KindName → Store R × (LedgerError ⊎ Transition)
  begin_named link s r (kind k) =
      begin_reply r.ordinal (run_script link s (begin_script R s r.ordinal k (millis r.now)))
  begin_named link s r other_kind = (s, inl invalid_request)

  unfoldable pub begin : Link → Store R → Text → BeginRequest → Store R × (LedgerError ⊎ Transition)
  unfolding begin_named begin_reply run_script
  begin link s id r =
      if not (valid_id id) || lt64 r.ordinal 1 || is_zero r.now
      then (s, inl invalid_request)
      else begin_named link s r r.kind_name

  commit_named : Link → Store R → CommitRequest → Option Terminal → Store R × Option LedgerError
  commit_named link s r none = (s, some invalid_request)
  commit_named link s r (some t) =
      error_of commit_error
        (run_script link s (commit_script R s r.ordinal t r.work (millis r.now)))

  unfoldable pub commit : Link → Store R → Text → CommitRequest → Store R × Option LedgerError
  unfolding commit_named error_of run_script
  commit link s id r =
      if not (valid_id id)
        || lt64 r.ordinal 1
        || is_negative r.work
        || lt64 max_work_duration r.work
        || is_zero r.now
      then (s, some invalid_request)
      else commit_named link s r (terminal_of r)

  close_named : Link → Store R → CloseRequest → ReasonName → Store R × Option LedgerError
  close_named link s r (reason x) =
      error_of close_error (run_script link s (close_script R s (millis r.now) x))
  close_named link s r no_reason = (s, some invalid_request)
  close_named link s r other_reason = (s, some invalid_request)

  unfoldable pub close : Link → Store R → Text → CloseRequest → Store R × Option LedgerError
  unfolding close_named error_of run_script
  close link s id r =
      if not (valid_id id) || not (valid_close r)
      then (s, some invalid_request)
      else close_named link s r r.reason_name

  settle_named : Link → Store R → CloseRequest → ReasonName → Store R × Option LedgerError
  settle_named link s r (reason x) =
      error_of settle_error (run_script link s (settle_script R s (millis r.now) x))
  settle_named link s r no_reason = (s, some invalid_request)
  settle_named link s r other_reason = (s, some invalid_request)

  unfoldable pub settle : Link → Store R → Text → CloseRequest → Store R × Option LedgerError
  unfolding settle_named error_of run_script
  settle link s id r =
      if not (valid_id id) || not (valid_close r)
      then (s, some invalid_request)
      else settle_named link s r r.reason_name

  -- A link that loses its reply and one that never reaches the script look the same here.
  snapshot_over : Link → Store R → Text → SnapshotResult
  snapshot_over answered s id = snapshot_result id (snapshot_script R s ledger_version)
  snapshot_over reply_lost s id = unknown_snapshot id
  snapshot_over unreachable s id = unknown_snapshot id

  unfoldable pub snapshot : Link → Store R → Text → SnapshotResult
  unfolding snapshot_over snapshot_result checked_snapshot
  snapshot link s id =
      if not (valid_id id) then no_snapshot invalid_request else snapshot_over link s id

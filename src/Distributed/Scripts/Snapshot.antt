-- ===== src/Distributed/Scripts/Snapshot.antt =====
-- internal/distributed/scripts.go: snapshotLua.
pub mod Trust
use personalized_email_pipel.Prelude.{
  ℕ, ◌+◌, Bool, true, false, not, ◌||◌, List, Option, none, some, ltb, ◌==◌, if◌then◌else◌,
}
use personalized_email_pipel.Distributed.Model.{
  CampaignState, AttemptPolicy, FailureReason, failure_delivery_rejected,
  failure_delivery_indeterminate, failure_delivery_transport,
}
use personalized_email_pipel.Distributed.Redis.{Redis, count_if}
use personalized_email_pipel.Distributed.Scripts.Store.{Meta, Store}

-- The 22 values behind the code 0.
pub record Values : Type 0 where
  pub state : CampaignState
  pub algorithm : List ℕ
  pub seed : ℕ
  pub total : ℕ
  pub created_ms : ℕ
  pub deadline_ms : ℕ
  pub acknowledged : ℕ
  pub started : ℕ
  pub completed : ℕ
  pub failed : ℕ
  pub unprocessed : ℕ
  pub attempts : ℕ
  pub retries : ℕ
  pub duplicates : ℕ
  pub work_nanos : ℕ
  pub updated_ms : ℕ
  pub policy : AttemptPolicy
  pub delivery_limit : ℕ
  pub delivery_reserved : ℕ
  pub rejected : ℕ
  pub indeterminate : ℕ
  pub transport : ℕ

-- Codes 1, 2 and 0.
pub data SnapshotReply : Type 0 where
  no_campaign inconsistent : SnapshotReply
  values : Values → SnapshotReply

abbrev pub is_rejected : FailureReason → Bool
is_rejected failure_delivery_rejected = true
is_rejected _ = false

abbrev pub is_indeterminate : FailureReason → Bool
is_indeterminate failure_delivery_indeterminate = true
is_indeterminate _ = false

abbrev pub is_transport : FailureReason → Bool
is_transport failure_delivery_transport = true
is_transport _ = false

module _ (R : Redis) where
  open R use {MemberSet, scard, sintercard, hvals}

  abbrev pub card_sum : Store R → ℕ
  card_sum s =
      scard s.acknowledged
      + scard s.started
      + scard s.completed
      + scard s.failed
      + scard s.unprocessed

  abbrev meets : MemberSet → MemberSet → Bool
  meets a b = not (sintercard a b == 0)

  -- The loops over the pairs of KEYS[2] to KEYS[6].
  any_meet : Store R → Bool
  any_meet s =
      meets s.acknowledged s.started
      || meets s.acknowledged s.completed
      || meets s.acknowledged s.failed
      || meets s.acknowledged s.unprocessed
      || meets s.started s.completed
      || meets s.started s.failed
      || meets s.started s.unprocessed
      || meets s.completed s.failed
      || meets s.completed s.unprocessed
      || meets s.failed s.unprocessed

  abbrev pub values_of : Store R → Meta → Values
  values_of s m = record {
    state = m.state;
    algorithm = m.algorithm;
    seed = m.seed;
    total = m.total;
    created_ms = m.created_ms;
    deadline_ms = m.deadline_ms;
    acknowledged = scard s.acknowledged;
    started = scard s.started;
    completed = scard s.completed;
    failed = scard s.failed;
    unprocessed = scard s.unprocessed;
    attempts = m.attempts;
    retries = m.retries;
    duplicates = m.duplicates;
    work_nanos = m.work_nanos;
    updated_ms = m.updated_ms;
    policy = m.policy;
    delivery_limit = m.delivery_limit;
    delivery_reserved = m.delivery_reserved;
    rejected = count_if is_rejected (hvals FailureReason s.reasons);
    indeterminate = count_if is_indeterminate (hvals FailureReason s.reasons);
    transport = count_if is_transport (hvals FailureReason s.reasons);
  }

  snapshot_at : Option Meta → Store R → ℕ → SnapshotReply
  snapshot_at none s version = no_campaign
  snapshot_at (some m) s version =
      if ltb m.total (card_sum s)
      then inconsistent
      else if any_meet s
      then inconsistent
      else if not (m.version == version)
      then inconsistent
      else values (values_of s m)

  unfoldable pub snapshot_script : Store R → ℕ → SnapshotReply
  unfolding snapshot_at any_meet
  snapshot_script s version = snapshot_at s.meta s version

-- ===== src/Distributed/Snapshots.antt =====
-- internal/distributed/model.go: the snapshot of a campaign and its checks.
use personalized_email_pipel.Prelude.{
  ℕ, Bool, true, false, not, ◌&&◌, ◌||◌, [], ◌==◌, if◌then◌else◌,
}
use personalized_email_pipel.Prelude.Int64.{lt64, add64, is_negative}
use personalized_email_pipel.Campaign.Model.{Text}
use personalized_email_pipel.Distributed.Model.{
  CampaignState, state_open, AttemptPolicy, retryable, is_open,
}
use personalized_email_pipel.Distributed.Requests.{valid_id}

pub data SnapshotTrust : Type 0 where
  trust_none trust_full trust_unknown : SnapshotTrust

-- A time of a snapshot is its milliseconds, as fromMillis takes them.
pub record Snapshot : Type 0 where
  pub campaign_id : Text
  pub state : CampaignState
  pub trust : SnapshotTrust
  pub algorithm : Text
  pub seed : ℕ
  pub total : ℕ
  pub acknowledged : ℕ
  pub started : ℕ
  pub completed : ℕ
  pub failed : ℕ
  pub unprocessed : ℕ
  pub attempts : ℕ
  pub retries : ℕ
  pub duplicates : ℕ
  pub work : ℕ
  pub created : ℕ
  pub deadline : ℕ
  pub updated : ℕ
  pub policy : AttemptPolicy
  pub delivery_limit : ℕ
  pub delivery_reserved : ℕ
  pub delivery_rejected : ℕ
  pub delivery_unknown : ℕ
  pub delivery_transport : ℕ

abbrev pub known_terminal : Snapshot → ℕ
known_terminal s = add64 s.completed s.failed

abbrev pub known_enqueued : Snapshot → ℕ
known_enqueued s =
    add64 (add64 (add64 (add64 s.acknowledged s.started) s.completed) s.failed) s.unprocessed

abbrev pub is_trusted : SnapshotTrust → Bool
is_trusted trust_full = true
is_trusted _ = false

abbrev pub is_unknown_trust : SnapshotTrust → Bool
is_unknown_trust trust_unknown = true
is_unknown_trust _ = false

-- Snapshot{}, with no trust; its empty state and policy are not told apart from others, and nothing
-- reads them in a snapshot without trust.
abbrev pub empty_snapshot : Snapshot
empty_snapshot = record {
  campaign_id = [];
  state = state_open;
  trust = trust_none;
  algorithm = [];
  seed = 0;
  total = 0;
  acknowledged = 0;
  started = 0;
  completed = 0;
  failed = 0;
  unprocessed = 0;
  attempts = 0;
  retries = 0;
  duplicates = 0;
  work = 0;
  created = 0;
  deadline = 0;
  updated = 0;
  policy = retryable;
  delivery_limit = 0;
  delivery_reserved = 0;
  delivery_rejected = 0;
  delivery_unknown = 0;
  delivery_transport = 0;
}

-- Snapshot.IsTerminal.
unfoldable pub is_settled : Snapshot → Bool
is_settled s =
    is_trusted s.trust
    && not (is_open s.state)
    && s.acknowledged == 0
    && s.started == 0
    && add64 (known_terminal s) s.unprocessed == s.total

-- Snapshot.Validate; a state and a policy are always ones that it knows.
unfoldable pub valid_snapshot : Snapshot → Bool
valid_snapshot s =
    if is_unknown_trust s.trust
    then true
    else if not (is_trusted s.trust)
        || not (valid_id s.campaign_id)
        || is_negative s.total
        || is_negative s.acknowledged
        || is_negative s.started
        || is_negative s.completed
        || is_negative s.failed
        || is_negative s.unprocessed
        || is_negative s.attempts
        || is_negative s.retries
        || is_negative s.duplicates
        || is_negative s.delivery_limit
        || is_negative s.delivery_reserved
        || lt64 s.delivery_limit s.delivery_reserved
        || is_negative s.delivery_rejected
        || is_negative s.delivery_unknown
        || is_negative s.delivery_transport
        || is_negative s.work
        || lt64 s.total (known_enqueued s)
    then false
    else true

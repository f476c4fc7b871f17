-- ===== src/Distributed/Requests.antt =====
-- internal/distributed/model.go: a campaign, the requests of the ledger, and their Validate methods
-- (`true` stands for a nil error). An int64 is its 64-bit pattern. A time is the zero time or at or
-- after the epoch; a string that must be one of a few words is that word or `other`.
use personalized_email_pipel.Prelude.{
  ℕ, ◌/◌, Bool, true, false, not, ◌&&◌, ◌||◌, ltb, leb, ◌==◌, if◌then◌else◌, length,
}
use personalized_email_pipel.Prelude.Int64.{lt64, add64, sub64, is_negative}
use personalized_email_pipel.Campaign.Model.{Text}
use personalized_email_pipel.Campaign.Text.{every}
use personalized_email_pipel.Distributed.Model.{
  AttemptKind, AttemptPolicy, retryable, one_shot_delivery, FailureReason,
}

pub data Time : Type 0 where
  zero_time : Time
  since_epoch : ℕ → Time  -- nanoseconds

abbrev pub is_zero : Time → Bool
is_zero zero_time = true
is_zero (since_epoch n) = false

-- millis; the zero time is refused before each call of it.
abbrev pub millis : Time → ℕ
millis zero_time = 0
millis (since_epoch n) = n / 1000000

abbrev pub after : Time → Time → Bool
after zero_time t = false
after (since_epoch n) zero_time = true
after (since_epoch n) (since_epoch k) = ltb k n

pub data PolicyName : Type 0 where
  policy : AttemptPolicy → PolicyName
  other_policy : PolicyName

pub data KindName : Type 0 where
  kind : AttemptKind → KindName
  other_kind : KindName

pub data ReasonName : Type 0 where
  no_reason other_reason : ReasonName
  reason : FailureReason → ReasonName

pub data StateName : Type 0 where
  terminal_completed terminal_failed terminal_other : StateName

abbrev pub ledger_version : ℕ
ledger_version = 1

abbrev pub max_acknowledge_range : ℕ
max_acknowledge_range = 10000

abbrev pub max_delivery_limit : ℕ
max_delivery_limit = 10

abbrev pub max_work_duration : ℕ
max_work_duration = 86400000000000

-- campaignIDPattern.
abbrev pub id_rune : ℕ → Bool
id_rune c =
    leb b'A' c && leb c b'Z'
    || leb b'a' c && leb c b'z'
    || leb b'0' c && leb c b'9'
    || c == b'_'
    || c == b'-'

unfoldable pub valid_id : Text → Bool
valid_id id = not (length id == 0) && leb (length id) 64 && every id_rune id

-- digestPattern.
abbrev hex_rune : ℕ → Bool
hex_rune c = leb b'0' c && leb c b'9' || leb b'a' c && leb c b'f'

unfoldable pub valid_digest : Text → Bool
valid_digest digest = length digest == 64 && every hex_rune digest

pub record CampaignTerms : Type 0 where
  pub id : Text
  pub algorithm : Text
  pub seed : ℕ
  pub total : ℕ
  pub deadline : Time
  pub created : Time
  pub version : ℕ
  pub policy_name : PolicyName
  pub delivery_limit : ℕ

abbrev pub valid_policy : PolicyName → ℕ → ℕ → Bool
valid_policy (policy retryable) total limit = limit == 0
valid_policy (policy one_shot_delivery) total limit =
    not (lt64 total 1) && not (lt64 limit total) && limit == max_delivery_limit
valid_policy other_policy total limit = false

-- Campaign.Validate.
unfoldable pub valid_campaign : CampaignTerms → Bool
valid_campaign c =
    if not (valid_id c.id)
      || length c.algorithm == 0
      || is_negative c.total
      || not (valid_policy c.policy_name c.total c.delivery_limit)
      || not (c.version == ledger_version)
      || is_zero c.created
      || not (after c.deadline c.created)
    then false
    else true

pub record AcknowledgeRequest : Type 0 where
  pub start : ℕ
  pub end_ : ℕ
  pub now : Time

-- What both AcknowledgeRequest.Validate and Ledger.Acknowledge refuse.
unfoldable pub bad_range : AcknowledgeRequest → Bool
bad_range r =
    lt64 r.start 1
    || lt64 r.end_ r.start
    || lt64 max_acknowledge_range (add64 (sub64 r.end_ r.start) 1)
    || is_zero r.now

pub record BeginRequest : Type 0 where
  pub ordinal : ℕ
  pub kind_name : KindName
  pub now : Time

pub record CommitRequest : Type 0 where
  pub ordinal : ℕ
  pub state : StateName
  pub reason_name : ReasonName
  pub digest : Text
  pub work : ℕ
  pub now : Time

-- CloseRequest and SettlementRequest.
pub record CloseRequest : Type 0 where
  pub now : Time
  pub reason_name : ReasonName

-- validFailureReason.
abbrev pub valid_failure_reason : ReasonName → Bool
valid_failure_reason (reason r) = true
valid_failure_reason no_reason = false
valid_failure_reason other_reason = false

-- CloseRequest.Validate and SettlementRequest.Validate.
unfoldable pub valid_close : CloseRequest → Bool
valid_close r = not (is_zero r.now || not (valid_failure_reason r.reason_name))

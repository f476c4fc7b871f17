-- ===== src/Distributed/Model.antt =====
-- internal/distributed/model.go: the states, policies, attempt kinds and reasons of the ledger.
use personalized_email_pipel.Prelude.{ℕ, Bool, true, false, List}

pub data CampaignState : Type 0 where
  state_open closed : CampaignState

pub data FailureReason : Type 0 where
  failure_interrupted failure_retry_exhausted failure_deadline : FailureReason
  failure_delivery_rejected failure_delivery_indeterminate : FailureReason
  failure_delivery_transport : FailureReason

pub data AttemptPolicy : Type 0 where
  retryable one_shot_delivery : AttemptPolicy

pub data AttemptKind : Type 0 where
  initial retry : AttemptKind

-- What a commit asks for: a completion with its digest, or a failure with its reason.
pub data Terminal : Type 0 where
  completes : List ℕ → Terminal
  fails : FailureReason → Terminal

abbrev pub is_one_shot : AttemptPolicy → Bool
is_one_shot retryable = false
is_one_shot one_shot_delivery = true

abbrev pub is_open : CampaignState → Bool
is_open state_open = true
is_open closed = false

abbrev pub is_retry : AttemptKind → Bool
is_retry initial = false
is_retry retry = true

-- ===== src/Campaign/Model.antt =====
-- internal/campaign/model.go: the vocabulary of a campaign, its counters and its outcome. A counter
-- is an int64, kept as its 64-bit pattern; the empty reason of the source is `none` of an option.
use personalized_email_pipel.Prelude.{ℕ, Bool, true, false, not, ◌||◌, List, ◌==◌, if◌then◌else◌}
use personalized_email_pipel.Prelude.Int64.{add64, is_negative, lt64}

pub data Outcome : Type 0 where
  success partial_success failure interrupted : Outcome

pub data Category : Type 0 where
  named fallback : Category

pub data Reason : Type 0 where
  blank_record field_count invalid_csv invalid_utf8 oversized_record missing_email : Reason
  invalid_email render_failed sink_rejected reason_interrupted fatal_input : Reason
  untrustworthy_accounting guard_refused delivery_rejected delivery_indeterminate : Reason
  distributed_retry_exhausted completion_deadline distributed_state_unknown : Reason

-- A text is the list of its code points.
abbrev pub Text : Type 0
Text = List ℕ

pub record Recipient : Type 0 where
  pub ordinal : ℕ
  pub email : Text
  pub identity : Text
  pub name : Text
  pub category : Category

pub record Counts : Type 0 where
  pub examined : ℕ
  pub invalid : ℕ
  pub duplicate : ℕ
  pub eligible : ℕ
  pub completed : ℕ
  pub failed : ℕ
  pub unprocessed : ℕ

-- Counts.Validate: `true` stands for a nil error.
unfoldable pub validate : Counts → Bool
validate c =
    if is_negative c.examined
      || is_negative c.invalid
      || is_negative c.duplicate
      || is_negative c.eligible
      || is_negative c.completed
      || is_negative c.failed
      || is_negative c.unprocessed
    then false
    else if not (c.examined == add64 (add64 c.invalid c.duplicate) c.eligible)
    then false
    else if not (c.eligible == add64 (add64 c.completed c.failed) c.unprocessed)
    then false
    else true

-- DeriveOutcome.
unfoldable pub derive_outcome : Counts → Bool → Bool → Outcome
derive_outcome c cancelled fatal =
    if fatal || not (validate c)
    then failure
    else if cancelled
    then interrupted
    else if c.eligible == 0
    then failure
    else if lt64 0 c.invalid || lt64 0 c.failed || lt64 0 c.unprocessed
    then partial_success
    else success

-- ===== src/Campaign/Loop.antt =====
-- internal/campaign/runner.go and runner_types.go: the variables of Run's loop, and what a round of it
-- meets outside it (`Turn`).
use personalized_email_pipel.Prelude.{ℕ, Bool, true, false, List, [], Option, none}
use personalized_email_pipel.Campaign.Metrics.{Summaries}
use personalized_email_pipel.Campaign.Model.{Category, Reason, Text, Recipient, Counts}
use personalized_email_pipel.Campaign.Samples.{Samples, no_samples}

pub record SourceRecord : Type 0 where
  pub ordinal : ℕ
  pub email : Text
  pub name : Text
  pub parser_reason : Option Reason

-- What a call of the source returns: an error, the end, or a record.
pub data Next : Type 0 where
  fails ends : Next
  gives : SourceRecord → Next

pub data Scope : Type 0 where
  full prefix_only unknown : Scope

pub record WorkerResult : Type 0 where
  pub ordinal : ℕ
  pub category : Category
  pub reason : Option Reason
  pub accepted : ℕ

-- What the blocking select takes when nothing has progressed.
pub data Wait : Type 0 where
  wait_ready wait_cancelled wait_timer : Wait
  wait_result : WorkerResult → Wait

pub record Turn : Type 0 where
  pub cancelled : Bool  -- ctx.Err() != nil
  pub now : ℕ  -- the clock when the context is checked
  pub deadline_now : ℕ  -- the clock when the deadline is checked
  pub read_now : ℕ  -- the clock behind an error of the source
  pub results : List WorkerResult  -- what the result channel holds
  pub ready : Bool  -- whether a worker is waiting for a grant
  pub wait : Wait

pub record RunConfig : Type 0 where
  pub workers : ℕ
  pub settlement : ℕ
  pub sample_text : ℕ → Category → Text  -- SyntheticSample

pub record Loop : Type 0 where
  pub source : List Next  -- what the next calls of the source return; behind them, the end
  pub counts : Counts
  pub invalid_reasons : Summaries
  pub failed_reasons : Summaries
  pub samples : Samples
  pub cancelled : Bool
  pub fatal : Bool
  pub scope : Scope
  pub started : ℕ
  pub seen : List Text
  pub queue : List Recipient
  pub active : List ℕ
  pub input_done : Bool
  pub admission_open : Bool
  pub deadline : Option ℕ

abbrev pub zero_counts : Counts
zero_counts = record {
  examined = 0;
  invalid = 0;
  duplicate = 0;
  eligible = 0;
  completed = 0;
  failed = 0;
  unprocessed = 0;
}

abbrev pub initial_loop : List Next → Loop
initial_loop source = record {
  source = source;
  counts = zero_counts;
  invalid_reasons = [];
  failed_reasons = [];
  samples = no_samples;
  cancelled = false;
  fatal = false;
  scope = full;
  started = 0;
  seen = [];
  queue = [];
  active = [];
  input_done = false;
  admission_open = true;
  deadline = none;
}

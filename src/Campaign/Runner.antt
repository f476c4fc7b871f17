-- ===== src/Campaign/Runner.antt =====
-- internal/campaign/runner.go and runner_types.go: the coordinator of a local run. Its loop is a
-- function of one round, `turn`, over the loop's variables and what the round meets outside it
-- (`Turn`): the clock, the context, and what the workers' channels hold. The source is the list of
-- what its calls return. A run is the loop over a list of rounds; the order in which workers finish
-- is whatever the rounds say.
pub mod Books
pub mod Rule
pub mod Rounds
pub mod Scopes
pub mod Whole
use personalized_email_pipel.Prelude.{
  ℕ, zero, suc, ◌+◌, ◌-◌, ◌*◌, Bool, true, false, not, ◌&&◌, ◌||◌, List, [], ◌∷◌, ◌++◌, Option,
  none, some, ltb, leb, ◌==◌, if◌then◌else◌, length,
}
use personalized_email_pipel.Prelude.Int64.{add64, inc64}
use personalized_email_pipel.Campaign.Metrics.{Summaries, add_reason, room_for_three}
use personalized_email_pipel.Campaign.Model.{
  Outcome, failure, Category, named, fallback, Reason, sink_rejected, reason_interrupted,
  invalid_email, Text, Recipient, Counts, derive_outcome,
}
use personalized_email_pipel.Campaign.Normalize.{normalize_email, usable_name}
use personalized_email_pipel.Campaign.Samples.{Sample, Samples, add_sample, no_samples}
use personalized_email_pipel.Campaign.Text.{text_eq}
use personalized_email_pipel.Campaign.Loop.{
  SourceRecord, Next, gives, fails, ends, Scope, full, prefix_only, unknown, WorkerResult, Wait,
  wait_ready, wait_cancelled, wait_timer, wait_result, Turn, RunConfig, Loop, zero_counts,
  initial_loop,
}

abbrev pub is_seen : Text → List Text → Bool
is_seen t [] = false
is_seen t (u ∷ us) = text_eq u t || is_seen t us

-- The map `active` from ordinals, as the list of its keys.
abbrev pub is_active : ℕ → List ℕ → Bool
is_active o [] = false
is_active o (x ∷ xs) = x == o || is_active o xs

abbrev pub set_active : ℕ → List ℕ → List ℕ
set_active o xs = if is_active o xs then xs else o ∷ xs

unfoldable pub delete_active : ℕ → List ℕ → List ℕ
delete_active o [] = []
delete_active o (x ∷ xs) = if x == o then xs else x ∷ delete_active o xs

-- classifyRecord: the branch of a record that the parser or the address check refuses.
abbrev classify_invalid : Loop → Reason → ℕ → Loop
classify_invalid s reason ordinal = record s {
  counts = record s.counts { examined = inc64 s.counts.examined; invalid = inc64 s.counts.invalid };
  invalid_reasons = add_reason s.invalid_reasons reason ordinal 3 room_for_three;
}

-- The branch of an address that is already seen.
abbrev classify_duplicate : Loop → Loop
classify_duplicate s = record s {
  counts = record s.counts {
    examined = inc64 s.counts.examined;
    duplicate = inc64 s.counts.duplicate;
  };
}

abbrev pub new_recipient : SourceRecord → Text → Recipient
new_recipient r identity =
    let (name, is_named) = usable_name r.name in
    record {
      ordinal = r.ordinal;
      email = r.email;
      identity = identity;
      name = name;
      category = if is_named then named else fallback;
    }

-- The branch of a new recipient.
classify_eligible : Loop → SourceRecord → Text → Loop
classify_eligible s r identity =
    let c = record s.counts {
      examined = inc64 s.counts.examined;
      eligible = inc64 s.counts.eligible;
    } in
    if not s.admission_open
    then record s {
      counts = record c { unprocessed = inc64 c.unprocessed };
      seen = identity ∷ s.seen;
    }
    else record s {
      counts = c;
      seen = identity ∷ s.seen;
      queue = s.queue ++ new_recipient r identity ∷ [];
    }

classify_address : Loop → SourceRecord → Option Text → Loop
classify_address s r none = classify_invalid s invalid_email r.ordinal
classify_address s r (some identity) =
    if is_seen identity s.seen then classify_duplicate s else classify_eligible s r identity

classify_parsed : Loop → SourceRecord → Option Reason → Loop
classify_parsed s r (some reason) = classify_invalid s reason r.ordinal
classify_parsed s r none = classify_address s r (normalize_email r.email)

unfoldable pub classify_record : Loop → SourceRecord → Loop
unfolding classify_parsed classify_address classify_eligible
classify_record s r = classify_parsed s r r.parser_reason

-- The check of the context at the top of a round.
abbrev drop_queue : Loop → Loop
drop_queue s = record s {
  counts = record s.counts { unprocessed = add64 s.counts.unprocessed (length s.queue) };
  queue = [];
}

unfoldable pub observe_cancel : RunConfig → Loop → Turn → Loop
observe_cancel cfg s t =
    if t.cancelled && not s.cancelled
    then record (drop_queue s) {
      cancelled = true;
      admission_open = false;
      deadline = some (t.now + cfg.settlement);
    }
    else s

abbrev pub after_deadline : ℕ → Option ℕ → Bool
after_deadline time none = false
after_deadline time (some d) = ltb d time

-- The loop over `active` at the deadline; a map is ranged over in any order.
unfoldable pub fail_all : Loop → List ℕ → Loop
fail_all s [] = s
fail_all s (o ∷ os) =
    fail_all
      (record s {
        counts = record s.counts { failed = inc64 s.counts.failed };
        failed_reasons = add_reason s.failed_reasons reason_interrupted o 3 room_for_three;
        active = delete_active o s.active;
      })
      os

unfoldable pub enforce_deadline : Loop → Turn → Loop
unfolding fail_all
enforce_deadline s t = if after_deadline t.deadline_now s.deadline then fail_all s s.active else s

-- The error of the source.
abbrev stop_input : RunConfig → Loop → ℕ → Loop
stop_input cfg s now = record (drop_queue s) {
  fatal = true;
  scope = prefix_only;
  input_done = true;
  admission_open = false;
  deadline = some (now + cfg.settlement);
}

read_next : RunConfig → Loop → Turn → Next → Loop
read_next cfg s t fails = stop_input cfg s t.read_now
read_next cfg s t ends = record s { input_done = true }
read_next cfg s t (gives r) = classify_record s r

read_source : RunConfig → Loop → Turn → List Next → Loop
read_source cfg s t [] = record s { input_done = true }
read_source cfg s t (x ∷ rest) = read_next cfg (record s { source = rest }) t x

abbrev pub reads_input : RunConfig → Loop → Bool
reads_input cfg s =
    not s.input_done && (ltb (length s.queue) (cfg.workers * 2) || not s.admission_open)

unfoldable pub read_input : RunConfig → Loop → Turn → Loop
unfolding read_next read_source
read_input cfg s t = if reads_input cfg s then read_source cfg s t s.source else s

abbrev is_accepted : Option Reason → Bool
is_accepted none = true
is_accepted (some reason) = false

abbrev reason_or_interrupted : Option Reason → Reason
reason_or_interrupted none = reason_interrupted
reason_or_interrupted (some reason) = reason

-- What is done with one result, in the drain and behind the blocking select alike.
unfoldable pub settle_result : RunConfig → Loop → WorkerResult → Loop
settle_result cfg s w =
    if not (is_active w.ordinal s.active)
    then s
    else if is_accepted w.reason && not (after_deadline w.accepted s.deadline)
    then record s {
      active = delete_active w.ordinal s.active;
      counts = record s.counts { completed = inc64 s.counts.completed };
      samples =
          add_sample s.samples
            (record {
              ordinal = w.ordinal;
              category = w.category;
              reason = none;
              text = cfg.sample_text w.ordinal w.category;
            })
            2;
    }
    else record s {
      active = delete_active w.ordinal s.active;
      counts = record s.counts { failed = inc64 s.counts.failed };
      failed_reasons =
          add_reason s.failed_reasons (reason_or_interrupted w.reason) w.ordinal 3 room_for_three;
    }

unfoldable pub drain : RunConfig → Loop → List WorkerResult → Loop
drain cfg s [] = s
drain cfg s (w ∷ ws) = drain cfg (settle_result cfg s w) ws

-- A grant of the job at the front of the queue.
grant_front : Loop → List Recipient → Loop
grant_front s [] = s
grant_front s (r ∷ rest) = record s {
  queue = rest;
  active = set_active r.ordinal s.active;
  started = inc64 s.started;
}

unfoldable pub grant : Loop → Bool → Loop
unfolding grant_front
grant s ready = if s.admission_open && ready then grant_front s s.queue else s

-- The loop goes on.
abbrev pub is_running : Loop → Bool
is_running s = not s.input_done || not (length s.queue == 0) || not (length s.active == 0)

abbrev pub is_empty {ℓ} : {A : Type ℓ} → List A → Bool
is_empty [] = true
is_empty (x ∷ xs) = false

block : RunConfig → Loop → Wait → Loop
block cfg s wait_ready = grant s true
block cfg s (wait_result w) = settle_result cfg s w
block cfg s wait_cancelled = s
block cfg s wait_timer = s

-- One round: `progressed` is set by a read, a result or a grant.
unfoldable pub turn : RunConfig → Loop → Turn → Loop
unfolding block
turn cfg s t =
    let checked = enforce_deadline (observe_cancel cfg s t) t in
    let read = read_input cfg checked t in
    let drained = drain cfg read t.results in
    let granted = grant drained t.ready in
    let progressed =
      reads_input cfg checked
      || not (is_empty t.results)
      || (drained.admission_open && t.ready && not (is_empty drained.queue)) in
    if not (is_running granted) || progressed then granted else block cfg granted t.wait

-- The loop, as long as rounds are given.
unfoldable pub run_turns : RunConfig → Loop → List Turn → Loop
run_turns cfg s [] = s
run_turns cfg s (t ∷ ts) =
    let rest = run_turns cfg (turn cfg s t) ts in if is_running s then rest else s

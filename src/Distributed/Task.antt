-- ===== src/Distributed/Task.antt =====
-- internal/distributed/task.go: the payload of a task. encoding/json is a parameter: `marshal`, and a
-- decoder that takes one value off the bytes and tells whether only white space is left.
use personalized_email_pipel.Prelude.{
  ℕ, ◌≡◌, refl, Bool, true, false, not, ◌||◌, [], Option, none, some, if◌then◌else◌, ◌==◌, arith,
  Bool-cases, inl, inr, subst,
}
use personalized_email_pipel.Prelude.Int64.{lt64, add64, sub64}
use personalized_email_pipel.Campaign.Model.{Text}
use personalized_email_pipel.Campaign.Render.{
  Format, text_format, html_format, parse_format, format_string,
}
use personalized_email_pipel.Campaign.Text.{codes, text_eq}
use personalized_email_pipel.Distributed.Requests.{valid_id, max_acknowledge_range}

-- A sink of any other name is `task_sink_other`.
pub data TaskSink : Type 0 where
  task_sink_dry_run task_sink_test_inbox task_sink_other : TaskSink

pub data TaskType : Type 0 where
  task_dry_run task_test_inbox task_other : TaskType

pub record TaskPayload : Type 0 where
  pub version : ℕ
  pub campaign_id : Text
  pub sink : TaskSink
  pub algorithm : Text
  pub seed : ℕ
  pub count : ℕ
  pub first : ℕ
  pub last : ℕ
  pub format : Format

-- taskPayloadJSON.
pub record Wire : Type 0 where
  pub version : ℕ
  pub campaign_id : Text
  pub sink : TaskSink
  pub algorithm : Text
  pub seed : ℕ
  pub count : ℕ
  pub first : ℕ
  pub last : ℕ
  pub format : Text

abbrev is_task_sink : TaskSink → Bool
is_task_sink task_sink_other = false
is_task_sink _ = true

-- recipientcsv.FixtureAlgorithmV1.
abbrev fixture_algorithm : Text
fixture_algorithm = codes "v1"

unfoldable pub valid_payload : TaskPayload → Bool
valid_payload p =
    if not (p.version == 1)
      || not (valid_id p.campaign_id)
      || not (is_task_sink p.sink)
      || not (text_eq p.algorithm fixture_algorithm)
      || lt64 p.count 1
      || lt64 p.first 1
      || lt64 p.last p.first
      || lt64 p.count p.last
      || lt64 max_acknowledge_range (add64 (sub64 p.last p.first) 1)
    then false
    else true

abbrev pub task_type : TaskSink → TaskType
task_type task_sink_test_inbox = task_test_inbox
task_type _ = task_dry_run

abbrev pub type_eq : TaskType → TaskType → Bool
type_eq task_dry_run task_dry_run = true
type_eq task_test_inbox task_test_inbox = true
type_eq task_other task_other = true
type_eq _ _ = false

-- TaskPayload.json.
abbrev wire_format : Format → Text
wire_format html_format = format_string html_format
wire_format text_format = []

abbrev pub to_wire : TaskPayload → Wire
to_wire p = record {
  version = p.version;
  campaign_id = p.campaign_id;
  sink = p.sink;
  algorithm = p.algorithm;
  seed = p.seed;
  count = p.count;
  first = p.first;
  last = p.last;
  format = wire_format p.format;
}

abbrev of_wire : Wire → Format → TaskPayload
of_wire w format = record {
  version = w.version;
  campaign_id = w.campaign_id;
  sink = w.sink;
  algorithm = w.algorithm;
  seed = w.seed;
  count = w.count;
  first = w.first;
  last = w.last;
  format = format;
}

-- What the code relies on of encoding/json.
pub record Codec : Type 1 where
  pub Bytes : Type 0
  pub marshal : Wire → Option Bytes
  pub decode : Bytes → Option (Wire × Bytes)
  pub at_end : Bytes → Bool
  -- What is marshalled is decoded, with nothing behind it.
  pub decode-marshal :
      (w : Wire) (b : Bytes)
      → marshal w ≡ some b
      → (rest : Bytes) × (decode b ≡ some (w, rest)) × (at_end rest ≡ true)

format_back : (f : Format) → parse_format (wire_format f) ≡ some f
unfolding parse_format
format_back text_format = refl
format_back html_format = refl

type_of_sink : (s : TaskSink) → is_task_sink s ≡ true → type_eq (task_type s) (task_type s) ≡ true
type_of_sink task_sink_dry_run h = refl
type_of_sink task_sink_test_inbox h = refl
type_of_sink task_sink_other h = ground arith

known_sink : (p : TaskPayload) → valid_payload p ≡ true → is_task_sink p.sink ≡ true
unfolding valid_payload
known_sink p h = ground arith

module _ (J : Codec) where
  open J use {Bytes, marshal, decode, at_end}

  abbrev pub Task : Type 0
  Task = TaskType × Bytes

  encoded : TaskPayload → Option Bytes → Option Task
  encoded p none = none
  encoded p (some b) = some (task_type p.sink, b)

  -- NewTask: `none` is an error.
  unfoldable pub new_task : TaskPayload → Option Task
  unfolding encoded
  new_task p = if not (valid_payload p) then none else encoded p (marshal (to_wire p))

  checked_payload : TaskType → TaskPayload → Option TaskPayload
  checked_payload t p =
      if not (valid_payload p)
      then none
      else if not (type_eq t (task_type p.sink))
      then none
      else some p

  with_format : TaskType → Wire → Option Format → Option TaskPayload
  with_format t w none = none
  with_format t w (some f) = checked_payload t (of_wire w f)

  decoded_payload : TaskType → Option (Wire × Bytes) → Option TaskPayload
  decoded_payload t none = none
  decoded_payload t (some (w, rest)) =
      if not (at_end rest) then none else with_format t w (parse_format w.format)

  -- DecodeTask; a task is not nil.
  unfoldable pub decode_task : Task → Option TaskPayload
  unfolding decoded_payload with_format checked_payload
  decode_task (t, bytes) = if type_eq t task_other then none else decoded_payload t (decode bytes)

  payload_back :
      (p : TaskPayload)
      → valid_payload p ≡ true
      → with_format (task_type p.sink) (to_wire p) (parse_format (wire_format p.format)) ≡ some p
  unfolding with_format checked_payload
  payload_back p v = rw (format_back p.format, v, type_of_sink p.sink (known_sink p v)) refl

  not_other : (s : TaskSink) → type_eq (task_type s) task_other ≡ false
  not_other task_sink_dry_run = refl
  not_other task_sink_test_inbox = refl
  not_other task_sink_other = refl

  task_back :
      (p : TaskPayload) (b : Bytes)
      → valid_payload p ≡ true
      → marshal (to_wire p) ≡ some b
      → decode_task (task_type p.sink, b) ≡ some p
  unfolding decode_task decoded_payload
  task_back p b v e =
      let (rest, d, a) = J.decode-marshal (to_wire p) b e in
      rw (not_other p.sink, d, a) (payload_back p v)

  new_task-some :
      (p : TaskPayload) (t : Task) (o : Option Bytes)
      → marshal (to_wire p) ≡ o
      → valid_payload p ≡ true
      → encoded p o ≡ some t
      → decode_task t ≡ some p
  unfolding encoded
  new_task-some p t none e v h = absurd (none-ne-some h)
    where
      none-ne-some : ◌≡◌ {A = Option Task} none (some t) → ⊥
      none-ne-some k = cc
  new_task-some p t (some b) e v h =
      subst (λ q. decode_task q ≡ some p) (some-inj h) (task_back p b v e)
    where
      some-inj :
          ◌≡◌ {A = Option Task} (some (task_type p.sink, b)) (some t) → (task_type p.sink, b) ≡ t
      some-inj k = cc

  -- A task that NewTask makes of a payload is decoded to that payload.
  pub decode_task-new_task :
      (p : TaskPayload) (t : Task) → new_task p ≡ some t → decode_task t ≡ some p
  unfolding new_task
  decode_task-new_task p t h = elim (Bool-cases (valid_payload p)) [
    | inl v ↦ new_task-some p t (marshal (to_wire p)) refl v (rw v at h)
    | inr v ↦ absurd (none-ne-some (rw v at h))
  ]
    where
      none-ne-some : ◌≡◌ {A = Option Task} none (some t) → ⊥
      none-ne-some k = cc

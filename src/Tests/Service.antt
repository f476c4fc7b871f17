-- ===== src/Tests/Service.antt =====
-- The ledger's operations, a distributed report, the web console's leases, messages and tasks at
-- concrete inputs.
use personalized_email_pipel.Prelude.{◌≤◌, ◌≡◌, refl, true, false, List, [], ◌∷◌, none, some, arith}
use personalized_email_pipel.Campaign.Model.{Recipient, named}
use personalized_email_pipel.Campaign.Render.Lines.{render_message-count_rune}
use personalized_email_pipel.Campaign.Render.{render_message, text_format, html_format}
use personalized_email_pipel.Campaign.Text.{codes, count_rune}
use personalized_email_pipel.Command.Controller.{
  Lease, Step, admits, cancels, idle, admit, steps, shutdown, admit_excludes, shutdown_refuses,
}
use personalized_email_pipel.Distributed.Producer.{ProducerResult}
use personalized_email_pipel.Distributed.Answers.{begin_answer}
use personalized_email_pipel.Distributed.Ledger.Delivery.{is_granted, begin-grants_once}
use personalized_email_pipel.Distributed.Ledger.Effects.{Operation, op_close, perform_all}
use personalized_email_pipel.Distributed.Ledger.Reads.{IsInRange, snapshot_of, snapshot-perform_all}
use personalized_email_pipel.Distributed.Ledger.{
  Link, answered, reply_lost, create, acknowledge, begin, snapshot, read_snapshot,
}
use personalized_email_pipel.Distributed.Snapshots.{
  Snapshot, trust_full, known_enqueued, is_settled, valid_snapshot,
}
use personalized_email_pipel.Distributed.Model.{
  one_shot_delivery, initial, retry, closed, failure_deadline,
}
use personalized_email_pipel.Distributed.Redis.{has}
use personalized_email_pipel.Distributed.Requests.{
  BeginRequest, since_epoch, kind, reason, valid_id, valid_campaign, bad_range,
}
use personalized_email_pipel.Distributed.Scripts.Acknowledge.{acknowledge_script, acknowledge_from}
use personalized_email_pipel.Distributed.Scripts.Begin.{begin_script}
use personalized_email_pipel.Distributed.Scripts.Create.{create_script, any_key_exists}
use personalized_email_pipel.Distributed.Scripts.Snapshot.{values_of, card_sum}
use personalized_email_pipel.Distributed.Task.{
  task_test_inbox, new_task, decode_task, to_wire, valid_payload, decode_task-new_task,
}
use personalized_email_pipel.Tests.RedisLists.{list_redis}
use personalized_email_pipel.Tests.Campaigns.{
  campaign_id, operations, prepared, prepared_meta, prepared_meta_lem, campaign_id_valid, codec,
  payload, prepared-IsWellFormed,
}

prepared_range : IsInRange (values_of list_redis prepared prepared_meta)
unfolding create acknowledge valid_campaign valid_id bad_range create_script any_key_exists
    acknowledge_script acknowledge_from
prepared_range = record {
  seed_range = omega arith;
  total_range = omega arith;
  created_range = omega arith;
  deadline_range = omega arith;
  attempts_range = omega arith;
  retries_range = omega arith;
  duplicates_range = omega arith;
  work_range = omega arith;
  updated_range = omega arith;
  limit_range = omega arith;
  rejected_range = omega arith;
  indeterminate_range = omega arith;
  transport_range = omega arith;
}

snapshot-perform_all_example :
    (snapshot list_redis answered prepared campaign_id
      ≡ read_snapshot (snapshot_of campaign_id (values_of list_redis prepared prepared_meta)) none)
    × (known_enqueued (snapshot_of campaign_id (values_of list_redis prepared prepared_meta))
        ≡ card_sum list_redis prepared)
    × (card_sum list_redis prepared ≤ 2)
snapshot-perform_all_example =
    snapshot-perform_all list_redis operations prepared_meta campaign_id prepared_meta_lem refl
      campaign_id_valid prepared_range

abbrev first_begin : BeginRequest
first_begin = record { ordinal = 1; kind_name = kind initial; now = since_epoch 6000000 }

abbrev second_begin : BeginRequest
second_begin = record { ordinal = 1; kind_name = kind retry; now = since_epoch 8000000 }

abbrev closing : List (Link × Operation)
closing =
    (
      reply_lost,
      op_close campaign_id
          (record { now = since_epoch 7000000; reason_name = reason failure_deadline }),
    )
    ∷ []

first_granted : is_granted (begin list_redis answered prepared campaign_id first_begin).1 ≡ true
unfolding create acknowledge begin valid_campaign valid_id bad_range create_script any_key_exists
    acknowledge_script acknowledge_from begin_script begin_answer
first_granted = refl

begin-grants_once_example :
    is_granted
      (begin list_redis answered
        (perform_all list_redis
          (begin list_redis answered prepared campaign_id first_begin).0
          closing)
        campaign_id
        second_begin).1
    ≡ false
begin-grants_once_example =
    begin-grants_once list_redis prepared prepared_meta campaign_id answered answered first_begin
      second_begin closing prepared-IsWellFormed prepared_meta_lem refl refl first_granted

abbrev settled : Snapshot
settled = record {
  campaign_id = campaign_id;
  state = closed;
  trust = trust_full;
  algorithm = codes "v1";
  seed = 7;
  total = 3;
  acknowledged = 0;
  started = 0;
  completed = 1;
  failed = 1;
  unprocessed = 1;
  attempts = 2;
  retries = 0;
  duplicates = 0;
  work = 5;
  created = 1;
  deadline = 100;
  updated = 50;
  policy = one_shot_delivery;
  delivery_limit = 10;
  delivery_reserved = 2;
  delivery_rejected = 1;
  delivery_unknown = 0;
  delivery_transport = 0;
}

abbrev produced : ProducerResult
produced = record { snapshot = settled; known_enqueued = 3; unknown_count = 0 }

settled_valid : valid_snapshot settled ≡ true
unfolding valid_snapshot valid_id
settled_valid = refl

settled_lem : is_settled settled ≡ true
unfolding is_settled
settled_lem = refl

abbrev first_lease : Lease
first_lease = record { address = 0; id = codes "run"; enhanced = true }

first_admitted : (admit idle true (codes "run")).1 ≡ some first_lease
unfolding admit
first_admitted = refl

abbrev busy_steps : List Step
busy_steps = cancels (codes "other") ∷ admits false [] ∷ []

admit_excludes_example :
    ((steps (admit idle true (codes "run")).0 busy_steps).active ≡ some first_lease)
    × ((admit (steps (admit idle true (codes "run")).0 busy_steps) false []).1 ≡ none)
admit_excludes_example =
    admit_excludes idle true false (codes "run") [] first_lease busy_steps first_admitted refl

shutdown_refuses_example :
    ((l : Lease)
      → (admit idle true (codes "run")).0.active ≡ some l
      → has l.address (shutdown (admit idle true (codes "run")).0).ended ≡ true)
    × ((admit (steps (shutdown (admit idle true (codes "run")).0) busy_steps) true []).1 ≡ none)
shutdown_refuses_example = shutdown_refuses (admit idle true (codes "run")).0 busy_steps true []

abbrev mallory : Recipient
mallory = record {
  ordinal = 1;
  email = codes "m@example.test";
  identity = codes "m@example.test";
  name = codes "<b>\nBcc: x";
  category = named;
}

render_message-count_rune_example :
    (count_rune 10 (render_message mallory text_format).0.body ≡ 5)
    × (count_rune b'<' (render_message mallory html_format).0.body ≡ 16)
render_message-count_rune_example = render_message-count_rune mallory

payload_encoded : new_task codec payload ≡ some (task_test_inbox, to_wire payload ∷ [])
unfolding new_task valid_payload valid_id
payload_encoded = refl

decode_task-new_task_example :
    decode_task codec (task_test_inbox, to_wire payload ∷ []) ≡ some payload
decode_task-new_task_example =
    decode_task-new_task codec payload (task_test_inbox, to_wire payload ∷ []) payload_encoded

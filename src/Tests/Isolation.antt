-- ===== src/Tests/Isolation.antt =====
-- A task of the first of two recipients.
use personalized_email_pipel.Prelude.{ℕ, ◌≡◌, refl, true, [], ◌∷◌, some}
use personalized_email_pipel.Distributed.Ledger.Records.{Stays}
use personalized_email_pipel.Distributed.Ledger.{answered, create, acknowledge}
use personalized_email_pipel.Distributed.Requests.{valid_campaign, valid_id, bad_range}
use personalized_email_pipel.Distributed.Scripts.Acknowledge.{acknowledge_script, acknowledge_from}
use personalized_email_pipel.Distributed.Scripts.Create.{create_script, any_key_exists}
use personalized_email_pipel.Distributed.Scripts.Phase.{acknowledged, IsAt}
use personalized_email_pipel.Distributed.Task.{
  Task, TaskPayload, task_test_inbox, new_task, to_wire, valid_payload, decode_task-new_task,
}
use personalized_email_pipel.Distributed.Worker.Commits.{quiet_round}
use personalized_email_pipel.Distributed.Worker.Tasks.Isolation.{process_task-Stays}
use personalized_email_pipel.Distributed.Worker.Tasks.{process_task}
use personalized_email_pipel.Distributed.Worker.{Round}
use personalized_email_pipel.Tests.Campaigns.{
  codec, payload, prepared, prepared_meta, prepared_meta_lem,
}
use personalized_email_pipel.Tests.RedisLists.{list_redis}
use personalized_email_pipel.Tests.Worker.{sha, random, confirmed}

abbrev first_payload : TaskPayload
first_payload = record payload { last = 1 }

abbrev first_task : Task codec
first_task = (task_test_inbox, to_wire first_payload ∷ [])

first_encoded : new_task codec first_payload ≡ some first_task
unfolding new_task valid_payload valid_id
first_encoded = refl

second_waits : IsAt list_redis prepared 2 acknowledged
unfolding create acknowledge valid_campaign valid_id bad_range create_script any_key_exists
    acknowledge_script acknowledge_from
second_waits = record {
  at_acknowledged = refl;
  at_started = refl;
  at_completed = refl;
  at_failed = refl;
  at_unprocessed = refl;
}

second-Stays : Stays list_redis 2 acknowledged prepared
second-Stays = record { meta = prepared_meta; present = prepared_meta_lem; phase = second_waits }

abbrev alone : ℕ → Round
alone ordinal = quiet_round 6000000 500 7000000 confirmed

process_task-Stays_example :
    Stays list_redis 2 acknowledged
      (process_task list_redis sha codec random prepared first_task answered true 0 alone).0
process_task-Stays_example =
    process_task-Stays list_redis sha codec random 2 acknowledged prepared first_task first_payload
      answered true 0 alone (decode_task-new_task codec first_payload first_task first_encoded)
      (λ x. (refl, refl)) refl second-Stays

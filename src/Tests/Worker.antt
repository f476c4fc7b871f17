-- ===== src/Tests/Worker.antt =====
-- The generated source and the worker at concrete inputs.
use personalized_email_pipel.Prelude.{
  ℕ, ◌+◌, ◌*◌, ◌%◌, ◌^◌, ◌≡◌, refl, true, false, [], none, some, arith,
}
use personalized_email_pipel.Campaign.Model.{Text}
use personalized_email_pipel.Campaign.Text.{codes}
use personalized_email_pipel.Distributed.Answers.{begin_answer}
use personalized_email_pipel.Distributed.Ledger.Effects.{perform_all}
use personalized_email_pipel.Distributed.Ledger.{reply_lost, create, acknowledge, begin, commit}
use personalized_email_pipel.Distributed.Model.{initial, retry}
use personalized_email_pipel.Distributed.Requests.{
  valid_campaign, valid_id, bad_range, valid_digest,
}
use personalized_email_pipel.Distributed.Scripts.Acknowledge.{acknowledge_script, acknowledge_from}
use personalized_email_pipel.Distributed.Scripts.Begin.{begin_script}
use personalized_email_pipel.Distributed.Scripts.Create.{create_script, any_key_exists}
use personalized_email_pipel.Distributed.Scripts.Phase.{IsAt, acknowledged}
use personalized_email_pipel.Distributed.Worker.Commits.{
  Ready, quiet_round, outcome_of, process_record-finishes,
}
use personalized_email_pipel.Distributed.Scripts.Commit.Phases.{terminal_phase}
use personalized_email_pipel.Distributed.Worker.Deliveries.{
  is_delivered, process_record-delivers_once,
}
use personalized_email_pipel.Distributed.Worker.{Sha, Round, process_record}
use personalized_email_pipel.TestInbox.{DeliveryResult, delivery_confirmed}
use personalized_email_pipel.RecipientCsv.Fixture.Totals.{Counts, drain-new_generated_source}
use personalized_email_pipel.RecipientCsv.Fixture.{
  Random, FixtureOptions, Record, GeneratedSource, source_of, new_generated_source, drain,
}
use personalized_email_pipel.Tests.Campaigns.{
  campaign_id_valid, prepared, prepared_meta, prepared_meta_lem, prepared-IsWellFormed, payload,
}
use personalized_email_pipel.Tests.RedisLists.{list_redis}

-- A linear congruential generator.
abbrev pub random : Random
random = record {
  Rng = ℕ;
  new_pcg = λ seed two. (seed + two) % 2 ^ 64;
  uint64 = λ n. (n, (n * 6364136223846793005 + 1442695040888963407) % 2 ^ 64);
}

abbrev options : FixtureOptions
options = record { algorithm = []; seed = 7; count = 3 }

abbrev source : GeneratedSource random
source = source_of random (record { algorithm = codes "v1"; seed = 7; count = 3 })

source_made : new_generated_source random options ≡ some source
unfolding new_generated_source
source_made = refl

drain-new_generated_source_example :
    ((drain random 4 source).ended ≡ true)
    × Counts random 1 3 (drain random 4 source).records
    × ((drain random 4 source).source.summary.named_count ≡ 2)
    × ((drain random 4 source).source.summary.fallback_count ≡ 1)
drain-new_generated_source_example =
    drain-new_generated_source random options source source_made (omega arith)

abbrev pub zero_digest : Text
zero_digest = codes "0000000000000000000000000000000000000000000000000000000000000000"

pub zero_digest_valid : valid_digest zero_digest ≡ true
unfolding valid_digest
zero_digest_valid = refl

abbrev pub sha : Sha
sha = record {
  hex_digest = λ message. zero_digest;
  hex_digest-valid = λ message. zero_digest_valid;
}

abbrev first_record : Record
first_record = record {
  ordinal = 1;
  email = codes "r@example.test";
  name = codes "Ada";
  reason = none;
}

abbrev pub confirmed : DeliveryResult
confirmed = record { status = delivery_confirmed; failed = false }

abbrev first_round : Round
first_round = quiet_round 6000000 500 7000000 confirmed

-- The commit's reply is lost on the way back.
abbrev lost_round : Round
lost_round = record (quiet_round 6000000 500 7000000 confirmed) { commit_link = reply_lost }

first_delivered :
    is_delivered
      (process_record list_redis sha prepared payload first_record initial lost_round).delivered
    ≡ true
unfolding process_record create acknowledge begin commit valid_campaign valid_id bad_range
    create_script any_key_exists acknowledge_script acknowledge_from begin_script begin_answer
first_delivered = refl

process_record-delivers_once_example :
    is_delivered
      (process_record list_redis sha
        (perform_all list_redis
          (process_record list_redis sha prepared payload first_record initial lost_round).store
          [])
        payload
        first_record
        retry
        first_round).delivered
    ≡ false
process_record-delivers_once_example =
    process_record-delivers_once list_redis sha prepared prepared_meta payload payload first_record
      first_record initial retry lost_round first_round [] prepared-IsWellFormed prepared_meta_lem
      refl refl refl first_delivered

first_waits : IsAt list_redis prepared 1 acknowledged
unfolding create acknowledge valid_campaign valid_id bad_range create_script any_key_exists
    acknowledge_script acknowledge_from
first_waits = record {
  at_acknowledged = refl;
  at_started = refl;
  at_completed = refl;
  at_failed = refl;
  at_unprocessed = refl;
}

first-Ready : Ready list_redis sha prepared prepared_meta 1
first-Ready = record {
  here = prepared_meta_lem;
  in_range = refl;
  waiting = first_waits;
  opened = refl;
  room = refl;
}

process_record-finishes_example :
    ((process_record list_redis sha prepared payload first_record initial first_round).error ≡ none)
    × IsAt list_redis
        (process_record list_redis sha prepared payload first_record initial first_round).store
        1
        (terminal_phase (outcome_of list_redis sha payload first_record confirmed))
process_record-finishes_example =
    process_record-finishes list_redis sha prepared prepared_meta payload first_record 6000000 500
      7000000 confirmed first-Ready campaign_id_valid (omega arith) (omega arith) (omega arith)

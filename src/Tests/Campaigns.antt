-- ===== src/Tests/Campaigns.antt =====
-- A one-shot campaign of two recipients in a store of lists, and a codec whose bytes are payloads.
use personalized_email_pipel.Prelude.{
  ◌≡◌, refl, subst, Bool, true, false, List, [], ◌∷◌, Option, none, some,
}
use personalized_email_pipel.Campaign.Model.{Text}
use personalized_email_pipel.Campaign.Render.{html_format}
use personalized_email_pipel.Campaign.Text.{codes}
use personalized_email_pipel.Distributed.Ledger.Effects.{
  Operation, op_create, op_acknowledge, perform_all, perform_all-run,
}
use personalized_email_pipel.Distributed.Ledger.{Link, answered, reply_lost, create, acknowledge}
use personalized_email_pipel.Distributed.Model.{one_shot_delivery}
use personalized_email_pipel.Distributed.Requests.{
  CampaignTerms, since_epoch, policy, valid_id, valid_campaign, bad_range,
}
use personalized_email_pipel.Distributed.Scripts.Acknowledge.{acknowledge_script, acknowledge_from}
use personalized_email_pipel.Distributed.Scripts.Create.{create_script, any_key_exists, new_meta}
use personalized_email_pipel.Distributed.Scripts.Invariant.{
  run-IsWellFormed, IsWellFormed, empty_store-IsWellFormed,
}
use personalized_email_pipel.Distributed.Scripts.Store.{Meta, Store, empty_store}
use personalized_email_pipel.Distributed.Task.{Codec, Wire, TaskPayload, task_sink_test_inbox}
use personalized_email_pipel.Tests.RedisLists.{list_redis}

abbrev pub campaign_id : Text
campaign_id = codes "c-1"

abbrev pub terms : CampaignTerms
terms = record {
  id = campaign_id;
  algorithm = codes "v1";
  seed = 7;
  total = 2;
  deadline = since_epoch 100000000;
  created = since_epoch 1000000;
  version = 1;
  policy_name = policy one_shot_delivery;
  delivery_limit = 10;
}

-- The reply of the acknowledgement is lost.
abbrev pub operations : List (Link × Operation)
operations =
    (answered, op_create terms)
    ∷ (
      reply_lost,
      op_acknowledge campaign_id (record { start = 1; end_ = 2; now = since_epoch 5000000 }),
    )
    ∷ []

abbrev pub prepared : Store list_redis
prepared = perform_all list_redis (empty_store list_redis) operations

abbrev pub prepared_meta : Meta
prepared_meta = record (new_meta 1 (codes "v1") 7 2 1 100 one_shot_delivery 10) { updated_ms = 5 }

pub prepared_meta_lem : prepared.meta ≡ some prepared_meta
unfolding create acknowledge valid_campaign valid_id bad_range create_script any_key_exists
    acknowledge_script acknowledge_from
prepared_meta_lem = refl

pub campaign_id_valid : valid_id campaign_id ≡ true
unfolding valid_id
campaign_id_valid = refl

-- Bytes as a list of payloads.
abbrev pub take_front : List Wire → Option (Wire × List Wire)
take_front [] = none
take_front (w ∷ rest) = some (w, rest)

abbrev pub is_done : List Wire → Bool
is_done [] = true
is_done (w ∷ rest) = false

pub taken :
    (w : Wire) (b : List Wire)
    → ◌≡◌ {A = Option (List Wire)} (some (w ∷ [])) (some b)
    → (rest : List Wire) × (take_front b ≡ some (w, rest)) × (is_done rest ≡ true)
taken w b e = let q : w ∷ [] ≡ b = cc in ([], subst (λ x. take_front x ≡ some (w, [])) q refl, refl)

abbrev pub codec : Codec
codec = record {
  Bytes = List Wire;
  marshal = λ w. some (w ∷ []);
  decode = take_front;
  at_end = is_done;
  decode-marshal = taken;
}

abbrev pub payload : TaskPayload
payload = record {
  version = 1;
  campaign_id = campaign_id;
  sink = task_sink_test_inbox;
  algorithm = codes "v1";
  seed = 7;
  count = 2;
  first = 1;
  last = 2;
  format = html_format;
}

pub prepared-IsWellFormed : IsWellFormed list_redis prepared
prepared-IsWellFormed =
    let (cs, e) = perform_all-run list_redis (empty_store list_redis) operations in
    rw e (
      run-IsWellFormed list_redis (empty_store list_redis) cs (empty_store-IsWellFormed list_redis))

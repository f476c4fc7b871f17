-- ===== src/Tests/Ledger.antt =====
-- The ledger at concrete calls (internal/distributed/ledger_integration_test.go has such runs).
use personalized_email_pipel.Prelude.{◌≤◌, ◌≡◌, refl, true, false, List, [], ◌∷◌, some, arith}
use personalized_email_pipel.Distributed.Model.{
  one_shot_delivery, initial, retry, completes, fails, failure_deadline,
}
use personalized_email_pipel.Distributed.Scripts.Begin.Replies.{grants}
use personalized_email_pipel.Distributed.Scripts.Begin.{begin_script}
use personalized_email_pipel.Distributed.Scripts.Calls.Delivery.{
  run-is_terminal, begin_script-grants_once,
}
use personalized_email_pipel.Distributed.Scripts.Calls.{
  Call, create, acknowledge, begin, commit, close, settle, call, call_phase, call-IsAt,
  call_phase-Move,
}
use personalized_email_pipel.Distributed.Scripts.Acknowledge.{acknowledge_script, acknowledge_from}
use personalized_email_pipel.Distributed.Scripts.Calls.Terms.{call-Continues}
use personalized_email_pipel.Distributed.Scripts.Later.{Continues}
use personalized_email_pipel.Distributed.Scripts.Commit.{commit_script}
use personalized_email_pipel.Distributed.Scripts.Create.{new_meta, create_script, any_key_exists}
use personalized_email_pipel.Distributed.Scripts.Phase.{IsAt, Move, acknowledged, completed}
use personalized_email_pipel.Distributed.Scripts.Invariant.{
  run, run-IsWellFormed, call-IsWellFormed, empty_store-IsWellFormed, IsWellFormed,
}
use personalized_email_pipel.Distributed.Scripts.Snapshot.Trust.{snapshot-run_trusted}
use personalized_email_pipel.Distributed.Scripts.Snapshot.{
  snapshot_script, values, values_of, card_sum,
}
use personalized_email_pipel.Distributed.Scripts.Store.{Meta, Store, empty_store}
use personalized_email_pipel.Tests.RedisLists.{list_redis}

-- Two recipients of a test-inbox campaign, acknowledged.
abbrev opening : List Call
opening = create 1 [] 7 2 0 100 one_shot_delivery 10 ∷ acknowledge 1 2 5 ∷ []

abbrev opened : Store list_redis
opened = run list_redis (empty_store list_redis) opening

abbrev opened_meta : Meta
opened_meta = record (new_meta 1 [] 7 2 0 100 one_shot_delivery 10) { updated_ms = 5 }

opened_meta_lem : opened.meta ≡ some opened_meta
unfolding run call create_script any_key_exists acknowledge_script acknowledge_from
opened_meta_lem = refl

opened-IsWellFormed : IsWellFormed list_redis opened
opened-IsWellFormed =
    run-IsWellFormed list_redis (empty_store list_redis) opening
      (empty_store-IsWellFormed list_redis)

call-IsWellFormed_example : IsWellFormed list_redis (call list_redis opened (begin 1 initial 6)).0
call-IsWellFormed_example =
    call-IsWellFormed list_redis opened (begin 1 initial 6) opened-IsWellFormed

snapshot-run_trusted_example :
    (snapshot_script list_redis opened 1 ≡ values (values_of list_redis opened opened_meta))
    × (card_sum list_redis opened ≤ 2)
snapshot-run_trusted_example = snapshot-run_trusted list_redis opening opened_meta opened_meta_lem

first_begin_grants : grants (begin_script list_redis opened 1 initial 6).1 ≡ true
unfolding run call create_script any_key_exists acknowledge_script acknowledge_from begin_script
first_begin_grants = refl

begin_script-grants_once_example :
    grants
      (begin_script list_redis
        (run list_redis
          (begin_script list_redis opened 1 initial 6).0
          (close 7 failure_deadline ∷ []))
        1
        retry
        8).1
    ≡ false
begin_script-grants_once_example =
    begin_script-grants_once list_redis opened opened_meta 1 initial retry 6 8
      (close 7 failure_deadline ∷ []) opened-IsWellFormed opened_meta_lem refl first_begin_grants

-- The first recipient is started, and then completed.
abbrev delivered : Store list_redis
delivered = run list_redis opened (begin 1 initial 6 ∷ commit 1 (completes (1 ∷ [])) 3 9 ∷ [])

abbrev delivered_meta : Meta
delivered_meta = record opened_meta {
  updated_ms = 9;
  attempts = 1;
  delivery_reserved = 1;
  work_nanos = 3;
}

delivered_meta_lem : delivered.meta ≡ some delivered_meta
unfolding run call create_script any_key_exists acknowledge_script acknowledge_from begin_script
    commit_script
delivered_meta_lem = refl

delivered-IsAt : IsAt list_redis delivered 1 completed
unfolding run call create_script any_key_exists acknowledge_script acknowledge_from begin_script
    commit_script
delivered-IsAt = record {
  at_acknowledged = refl;
  at_started = refl;
  at_completed = refl;
  at_failed = refl;
  at_unprocessed = refl;
}

abbrev late_calls : List Call
late_calls = commit 1 (fails failure_deadline) 0 10 ∷ close 11 failure_deadline ∷ []

run-is_terminal_example : IsAt list_redis (run list_redis delivered late_calls) 1 completed
run-is_terminal_example =
    run-is_terminal list_redis late_calls delivered delivered_meta 1 completed delivered_meta_lem
      delivered-IsAt refl

call-IsAt_example :
    IsAt list_redis (call list_redis delivered (settle 200 failure_deadline)).0 1 completed
call-IsAt_example =
    call-IsAt list_redis delivered delivered_meta (settle 200 failure_deadline) 1 completed
      (omega arith) delivered_meta_lem delivered-IsAt

call_phase-Move_example :
    Move acknowledged (call_phase opened_meta (begin 1 initial 6) 1 acknowledged)
call_phase-Move_example = call_phase-Move opened_meta (begin 1 initial 6) 1 acknowledged

call-Continues_example :
    Continues delivered_meta (call list_redis delivered (close 12 failure_deadline)).0.meta
call-Continues_example =
    call-Continues list_redis delivered delivered_meta (close 12 failure_deadline)
      delivered_meta_lem

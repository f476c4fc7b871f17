-- ===== src/Distributed/Scripts/Close.antt =====
-- internal/distributed/scripts.go: closeLua and settleLua.
pub mod Phases
use personalized_email_pipel.Prelude.{
  ℕ, List, [], ◌∷◌, Option, none, some, ltb, ◌==◌, if◌then◌else◌, length,
}
use personalized_email_pipel.Distributed.Model.{
  CampaignState, state_open, closed, FailureReason, failure_delivery_indeterminate, AttemptPolicy,
  retryable, one_shot_delivery,
}
use personalized_email_pipel.Distributed.Redis.{Redis}
use personalized_email_pipel.Distributed.Scripts.Store.{Meta, Reply, Store}

module _ (R : Redis) where
  open R use {
    MemberSet, no_members, sismember, sadd, srem, smove, scard, smembers, Hash, no_fields, hset,
  }

  -- closeLua: SMOVE of each pending ordinal from KEYS[2] to KEYS[6].
  unfoldable pub move_all : List ℕ → MemberSet → MemberSet → MemberSet × MemberSet
  move_all [] source target = (source, target)
  move_all (o ∷ rest) source target =
      let moved = smove source target o in move_all rest moved.0 moved.1

  close_open : CampaignState → Store R → Meta → ℕ → FailureReason → Store R × Reply
  close_open closed s m now reason = (s, 1 ∷ 0 ∷ [])
  close_open state_open s m now reason =
      let pending = smembers s.acknowledged in
      let moved = move_all pending s.acknowledged s.unprocessed in
      (
        record s {
          meta = some (record m { state = closed; closing = some (now, reason); updated_ms = now });
          acknowledged = moved.0;
          unprocessed = moved.1;
        },
        0 ∷ length pending ∷ [],
      )

  close_at : Option Meta → Store R → ℕ → FailureReason → Store R × Reply
  close_at none s now reason = (s, 2 ∷ [])
  close_at (some m) s now reason = close_open m.state s m now reason

  unfoldable pub close_script : Store R → ℕ → FailureReason → Store R × Reply
  unfolding close_at close_open
  close_script s now reason = close_at s.meta s now reason

  -- settleLua.
  abbrev settle_reason : AttemptPolicy → FailureReason → FailureReason
  settle_reason retryable reason = reason
  settle_reason one_shot_delivery reason = failure_delivery_indeterminate

  unfoldable pub record_all : List ℕ → FailureReason → Hash FailureReason → Hash FailureReason
  record_all [] reason reasons = reasons
  record_all (o ∷ rest) reason reasons =
      record_all rest reason (hset FailureReason reasons o reason)

  settle_closed : CampaignState → Store R → Meta → ℕ → FailureReason → Store R × Reply
  settle_closed state_open s m now reason = (s, 3 ∷ [])
  settle_closed closed s m now reason =
      let active = smembers s.started in
      let moved = move_all active s.started s.failed in
      if ltb now m.deadline_ms
      then (s, 1 ∷ [])
      else if length active == 0
      then (s, 2 ∷ 0 ∷ [])
      else (
        record s {
          meta = some (record m { updated_ms = now });
          started = moved.0;
          failed = moved.1;
          reasons = record_all active (settle_reason m.policy reason) s.reasons;
        },
        0 ∷ length active ∷ [],
      )

  settle_at : Option Meta → Store R → ℕ → FailureReason → Store R × Reply
  settle_at none s now reason = (s, 4 ∷ [])
  settle_at (some m) s now reason = settle_closed m.state s m now reason

  unfoldable pub settle_script : Store R → ℕ → FailureReason → Store R × Reply
  unfolding settle_at settle_closed
  settle_script s now reason = settle_at s.meta s now reason

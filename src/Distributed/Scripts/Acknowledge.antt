-- ===== src/Distributed/Scripts/Acknowledge.antt =====
-- internal/distributed/scripts.go: acknowledgeLua.
pub mod Phases
use personalized_email_pipel.Prelude.{
  ℕ, zero, suc, ◌+◌, ◌-◌, Bool, ◌||◌, [], ◌∷◌, Option, none, some, ltb, if◌then◌else◌,
}
use personalized_email_pipel.Distributed.Model.{CampaignState, state_open, closed}
use personalized_email_pipel.Distributed.Redis.{Redis}
use personalized_email_pipel.Distributed.Scripts.Store.{Meta, Reply, Store}

module _ (R : Redis) where
  open R use {
    MemberSet, no_members, sismember, sadd, srem, smove, scard, smembers, Hash, no_fields, hset,
  }

  -- acknowledgeLua: the inner loop over KEYS[2] to KEYS[6].
  abbrev pub seen : Store R → ℕ → Bool
  seen s o =
      sismember s.acknowledged o
      || sismember s.started o
      || sismember s.completed o
      || sismember s.failed o
      || sismember s.unprocessed o

  -- One round of its outer loop, at one ordinal. Its member is tostring(ordinal), which is the
  -- decimal text that the other scripts are passed, and so the same ordinal, below 10 ^ 14: from
  -- there Lua writes an exponent, which this definition does not follow.
  abbrev pub acknowledge_one : Store R → ℕ → Store R
  acknowledge_one s o = record s {
    acknowledged = if seen s o then s.acknowledged else sadd s.acknowledged o;
  }

  unfoldable pub acknowledge_from : Store R → ℕ → ℕ → ℕ → Store R × ℕ
  acknowledge_from s zero ordinal added = (s, added)
  acknowledge_from s (suc rounds) ordinal added =
      acknowledge_from (acknowledge_one s ordinal) rounds (ordinal + 1)
        (if seen s ordinal then added else added + 1)

  acknowledge_range : Store R → Meta → ℕ → ℕ → ℕ → Store R × Reply
  acknowledge_range s m first last now =
      if ltb first 1 || ltb last first || ltb m.total last
      then (s, 3 ∷ [])
      else let (s', added) = acknowledge_from s (last + 1 - first) first 0 in
        (
          record s' { meta = if ltb 0 added then some (record m { updated_ms = now }) else some m },
          0 ∷ added ∷ [],
        )

  acknowledge_open : CampaignState → Store R → Meta → ℕ → ℕ → ℕ → Store R × Reply
  acknowledge_open state_open s m first last now = acknowledge_range s m first last now
  acknowledge_open closed s m first last now = (s, 2 ∷ [])

  acknowledge_at : Option Meta → Store R → ℕ → ℕ → ℕ → Store R × Reply
  acknowledge_at none s first last now = (s, 1 ∷ [])
  acknowledge_at (some m) s first last now = acknowledge_open m.state s m first last now

  unfoldable pub acknowledge_script : Store R → ℕ → ℕ → ℕ → Store R × Reply
  unfolding acknowledge_at acknowledge_open acknowledge_range
  acknowledge_script s first last now = acknowledge_at s.meta s first last now

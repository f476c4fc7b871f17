-- ===== src/Distributed/Scripts/Commit.antt =====
-- internal/distributed/scripts.go: commitLua.
pub mod Phases
pub mod Terms
use personalized_email_pipel.Prelude.{
  ℕ, ◌+◌, Bool, not, ◌&&◌, ◌||◌, List, [], ◌∷◌, Option, none, some, ltb, ◌==◌, if◌then◌else◌,
}
use personalized_email_pipel.Distributed.Model.{
  closed, FailureReason, Terminal, completes, fails, is_open,
}
use personalized_email_pipel.Distributed.Redis.{Redis}
use personalized_email_pipel.Distributed.Scripts.Store.{Meta, Reply, Store}

module _ (R : Redis) where
  open R use {
    MemberSet, no_members, sismember, sadd, srem, smove, scard, smembers, Hash, no_fields, hset,
  }

  -- commitLua: the writes for the terminal state that is asked for.
  record_terminal : Store R → Meta → ℕ → Terminal → ℕ → Store R × Meta
  record_terminal s m o (completes digest) work = (
    record s { completed = sadd s.completed o; effects = hset (List ℕ) s.effects o digest },
    record m { work_nanos = m.work_nanos + work },
  )
  record_terminal s m o (fails reason) work =
      (record s { failed = sadd s.failed o; reasons = hset FailureReason s.reasons o reason }, m)

  -- The last ordinal to become terminal closes the campaign.
  closes_by_itself : Store R → Meta → Bool
  closes_by_itself s m =
      is_open m.state
      && scard s.acknowledged == 0
      && scard s.started == 0
      && scard s.completed + scard s.failed + scard s.unprocessed == m.total

  commit_started : Store R → Meta → ℕ → Terminal → ℕ → ℕ → Store R
  unfolding record_terminal closes_by_itself
  commit_started s m o terminal work now =
      let (s', m') = record_terminal (record s { started = srem s.started o }) m o terminal work in
      record s' {
        meta = some (record m' {
          state = if closes_by_itself s' m' then closed else m'.state;
          updated_ms = now;
        });
      }

  commit_at : Option Meta → Store R → ℕ → Terminal → ℕ → ℕ → Store R × Reply
  commit_at none s o terminal work now = (s, 3 ∷ [])
  commit_at (some m) s o terminal work now =
      if ltb o 1 || ltb m.total o
      then (s, 4 ∷ [])
      else if sismember s.completed o || sismember s.failed o || sismember s.unprocessed o
      then (s, 1 ∷ [])
      else if not (sismember s.started o)
      then (s, 2 ∷ [])
      else (commit_started s m o terminal work now, 0 ∷ [])

  unfoldable pub commit_script : Store R → ℕ → Terminal → ℕ → ℕ → Store R × Reply
  unfolding commit_at commit_started
  commit_script s o terminal work now = commit_at s.meta s o terminal work now

-- ===== src/Distributed/Scripts/Begin.antt =====
-- internal/distributed/scripts.go: beginLua.
pub mod Fresh
pub mod Phases
pub mod Replies
pub mod Terms
use personalized_email_pipel.Prelude.{
  ℕ, ◌+◌, not, ◌&&◌, ◌||◌, [], ◌∷◌, Option, none, some, ltb, leb, if◌then◌else◌,
}
use personalized_email_pipel.Distributed.Model.{AttemptKind, is_one_shot, is_open, is_retry}
use personalized_email_pipel.Distributed.Redis.{Redis}
use personalized_email_pipel.Distributed.Scripts.Store.{Meta, Reply, counters, Store}

module _ (R : Redis) where
  open R use {
    MemberSet, no_members, sismember, sadd, srem, smove, scard, smembers, Hash, no_fields, hset,
  }

  -- beginLua: HINCRBY of 'duplicates', and the counters after it.
  abbrev duplicate_reply : Store R → Meta → ℕ → Store R × Reply
  duplicate_reply s m code =
      let m' = record m { duplicates = m.duplicates + 1 } in
      (record s { meta = some m' }, counters m' code)

  -- The branch of a retry of a started ordinal.
  begin_retry : Store R → Meta → ℕ → Store R × Reply
  begin_retry s m now =
      if not (is_open m.state) && leb m.deadline_ms now
      then (s, counters m 6)
      else let m' = record m {
        attempts = m.attempts + 1;
        retries = m.retries + 1;
        updated_ms = now;
      } in
        (record s { meta = some m' }, counters m' 1)

  -- The branch of a first attempt at an acknowledged ordinal.
  begin_initial : Store R → Meta → ℕ → ℕ → Store R × Reply
  begin_initial s m o now =
      if not (is_open m.state)
      then (let (a, u) = smove s.acknowledged s.unprocessed o in
          duplicate_reply (record s { acknowledged = a; unprocessed = u }) m 4)
      else if is_one_shot m.policy && leb m.delivery_limit m.delivery_reserved
      then (s, counters m 8)
      else let (a, b) = smove s.acknowledged s.started o in
        let m' = record m {
          delivery_reserved =
              if is_one_shot m.policy then m.delivery_reserved + 1 else m.delivery_reserved;
          attempts = m.attempts + 1;
          updated_ms = now;
        } in
        (record s { meta = some m'; acknowledged = a; started = b }, counters m' 0)

  begin_known : Store R → Meta → ℕ → AttemptKind → ℕ → Store R × Reply
  begin_known s m o kind now =
      if sismember s.completed o
      then duplicate_reply s m 2
      else if sismember s.failed o
      then duplicate_reply s m 3
      else if sismember s.unprocessed o
      then duplicate_reply s m 4
      else if is_one_shot m.policy && sismember s.started o
      then duplicate_reply s m 7
      else if is_retry kind && sismember s.started o
      then begin_retry s m now
      else if not (is_retry kind) && sismember s.acknowledged o
      then begin_initial s m o now
      else if sismember s.started o
      then duplicate_reply s m 5
      else (s, counters m 5)

  begin_at : Option Meta → Store R → ℕ → AttemptKind → ℕ → Store R × Reply
  begin_at none s o kind now = (s, 9 ∷ [])
  begin_at (some m) s o kind now =
      if ltb o 1 || ltb m.total o then (s, 10 ∷ []) else begin_known s m o kind now

  unfoldable pub begin_script : Store R → ℕ → AttemptKind → ℕ → Store R × Reply
  unfolding begin_at begin_known begin_retry begin_initial
  begin_script s o kind now = begin_at s.meta s o kind now

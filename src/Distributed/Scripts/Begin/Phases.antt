-- ===== src/Distributed/Scripts/Begin/Phases.antt =====
-- What beginLua does to the phase of each ordinal.
use personalized_email_pipel.Prelude.{
  ℕ, ◌≡◌, true, not, ◌&&◌, Option, some, arith, leb, ◌==◌, if◌then◌else◌,
}
use personalized_email_pipel.Distributed.Model.{AttemptKind, initial, retry, is_one_shot, is_open}
use personalized_email_pipel.Distributed.Redis.{Redis}
use personalized_email_pipel.Distributed.Scripts.Begin.{
  begin_script, begin_known, begin_at, begin_initial, begin_retry,
}
use personalized_email_pipel.Distributed.Scripts.Phase.{
  in_span, Phase, acknowledged, started, unprocessed, IsAt,
}
use personalized_email_pipel.Distributed.Scripts.Store.{Meta, Store}

-- The specification: only a first attempt at an acknowledged ordinal moves it.
abbrev pub begin_phase : Meta → AttemptKind → Phase → Phase
begin_phase m initial acknowledged =
    if not (is_open m.state)
    then unprocessed
    else if is_one_shot m.policy && leb m.delivery_limit m.delivery_reserved
    then acknowledged
    else started
begin_phase m kind p = p

module _ (R : Redis) where
  begin_initial-IsAt :
      (s : Store R) (m : Meta) (o o' now : ℕ) (p : Phase)
      → IsAt R s o' p
      → R.sismember s.acknowledged o ≡ true
      → IsAt R (begin_initial R s m o now).0 o' (if o == o' then begin_phase m initial p else p)
  unfolding begin_initial
  begin_initial-IsAt s m o o' now acknowledged a h = ground (
    arith,
    R.smove_lem s.acknowledged s.unprocessed o,
    R.smove_lem s.acknowledged s.started o,
    R.sismember-srem s.acknowledged o o',
    R.sismember-sadd s.unprocessed o o',
    R.sismember-sadd s.started o o',
  )
  begin_initial-IsAt s m o o' now p a h = ground (
    arith,
    R.smove_lem s.acknowledged s.unprocessed o,
    R.smove_lem s.acknowledged s.started o,
    R.sismember-srem s.acknowledged o o',
    R.sismember-sadd s.unprocessed o o',
    R.sismember-sadd s.started o o',
  )

  begin_known-IsAt :
      (s : Store R) (m : Meta) (o o' : ℕ) (kind : AttemptKind) (now : ℕ) (p : Phase)
      → IsAt R s o' p
      → IsAt R (begin_known R s m o kind now).0 o' (if o == o' then begin_phase m kind p else p)
  unfolding begin_known
  begin_known-IsAt s m o o' retry now p a = unfold begin_retry in ground arith
  begin_known-IsAt s m o o' initial now acknowledged a =
      ground (arith, begin_initial-IsAt s m o o' now acknowledged a)
  begin_known-IsAt s m o o' initial now p a = ground (arith, begin_initial-IsAt s m o o' now p a)

  begin_at-IsAt :
      (mo : Option Meta) (s : Store R) (m : Meta) (o o' : ℕ) (kind : AttemptKind) (now : ℕ)
      (p : Phase)
      → mo ≡ some m
      → IsAt R s o' p
      → IsAt R
          (begin_at R mo s o kind now).0
          o'
          (if in_span 1 m.total o && o == o' then begin_phase m kind p else p)
  unfolding begin_at
  begin_at-IsAt mo s m o o' kind now p e a = ground (arith, begin_known-IsAt s m o o' kind now p a)

  -- What begin does to the phase of its ordinal, if that is in range, and that it moves no other.
  pub begin_script-IsAt :
      (s : Store R) (m : Meta) (o o' : ℕ) (kind : AttemptKind) (now : ℕ) (p : Phase)
      → s.meta ≡ some m
      → IsAt R s o' p
      → IsAt R
          (begin_script R s o kind now).0
          o'
          (if in_span 1 m.total o && o == o' then begin_phase m kind p else p)
  unfolding begin_script
  begin_script-IsAt s m o o' kind now p = begin_at-IsAt s.meta s m o o' kind now p

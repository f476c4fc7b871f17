-- ===== src/Distributed/Scripts/Begin/Terms.antt =====
-- beginLua keeps a campaign's terms.
use personalized_email_pipel.Prelude.{ℕ, ◌≡◌, Option, some, arith}
use personalized_email_pipel.Distributed.Model.{AttemptKind}
use personalized_email_pipel.Distributed.Redis.{Redis}
use personalized_email_pipel.Distributed.Scripts.Store.{Meta, Store}
use personalized_email_pipel.Distributed.Scripts.Later.{Continues}
use personalized_email_pipel.Distributed.Scripts.Begin.{
  begin_script, begin_at, begin_known, begin_initial, begin_retry,
}

module _ (R : Redis) where
  begin_initial-Continues :
      (s : Store R) (m : Meta) (o now : ℕ)
      → s.meta ≡ some m
      → Continues m (begin_initial R s m o now).0.meta
  unfolding begin_initial
  begin_initial-Continues s m o now e = ground arith

  begin_known-Continues :
      (s : Store R) (m : Meta) (o : ℕ) (kind : AttemptKind) (now : ℕ)
      → s.meta ≡ some m
      → Continues m (begin_known R s m o kind now).0.meta
  unfolding begin_known begin_retry
  begin_known-Continues s m o kind now e = ground (arith, begin_initial-Continues s m o now e)

  begin_at-Continues :
      (mo : Option Meta) (s : Store R) (m : Meta) (o : ℕ) (kind : AttemptKind) (now : ℕ)
      → s.meta ≡ some m
      → mo ≡ some m
      → Continues m (begin_at R mo s o kind now).0.meta
  unfolding begin_at
  begin_at-Continues mo s m o kind now e f = ground (arith, begin_known-Continues s m o kind now e)

  pub begin_script-Continues :
      (s : Store R) (m : Meta) (o : ℕ) (kind : AttemptKind) (now : ℕ)
      → s.meta ≡ some m
      → Continues m (begin_script R s o kind now).0.meta
  unfolding begin_script
  begin_script-Continues s m o kind now e = begin_at-Continues s.meta s m o kind now e e

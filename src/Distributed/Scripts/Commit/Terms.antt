-- ===== src/Distributed/Scripts/Commit/Terms.antt =====
-- commitLua keeps a campaign's terms.
use personalized_email_pipel.Prelude.{ℕ, ◌≡◌, Option, some, arith}
use personalized_email_pipel.Distributed.Model.{Terminal, completes, fails}
use personalized_email_pipel.Distributed.Redis.{Redis}
use personalized_email_pipel.Distributed.Scripts.Store.{Meta, Store}
use personalized_email_pipel.Distributed.Scripts.Later.{Continues}
use personalized_email_pipel.Distributed.Scripts.Commit.{
  commit_script, commit_at, commit_started, record_terminal,
}

module _ (R : Redis) where
  commit_at-Continues :
      (mo : Option Meta) (s : Store R) (m : Meta) (o : ℕ) (t : Terminal) (work now : ℕ)
      → s.meta ≡ some m
      → mo ≡ some m
      → Continues m (commit_at R mo s o t work now).0.meta
  unfolding commit_at commit_started record_terminal
  commit_at-Continues mo s m o (completes d) work now e f = ground arith
  commit_at-Continues mo s m o (fails r) work now e f = ground arith

  pub commit_script-Continues :
      (s : Store R) (m : Meta) (o : ℕ) (t : Terminal) (work now : ℕ)
      → s.meta ≡ some m
      → Continues m (commit_script R s o t work now).0.meta
  unfolding commit_script
  commit_script-Continues s m o t work now e = commit_at-Continues s.meta s m o t work now e e

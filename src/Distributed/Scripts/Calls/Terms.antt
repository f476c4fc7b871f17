-- ===== src/Distributed/Scripts/Calls/Terms.antt =====
-- internal/distributed/scripts.go: every script keeps a campaign's terms.
use personalized_email_pipel.Prelude.{◌≡◌, some, arith}
use personalized_email_pipel.Distributed.Redis.{Redis}
use personalized_email_pipel.Distributed.Scripts.Store.{Meta, Store}
use personalized_email_pipel.Distributed.Scripts.Later.{Continues}
use personalized_email_pipel.Distributed.Scripts.Acknowledge.{acknowledge_script}
use personalized_email_pipel.Distributed.Scripts.Begin.Terms.{begin_script-Continues}
use personalized_email_pipel.Distributed.Scripts.Calls.{
  Call, create, acknowledge, begin, commit, close, settle, call,
}
use personalized_email_pipel.Distributed.Scripts.Close.{close_script, settle_script}
use personalized_email_pipel.Distributed.Scripts.Commit.Terms.{commit_script-Continues}
use personalized_email_pipel.Distributed.Scripts.Create.{create_script-some}

module _ (R : Redis) where
  -- Whatever call is made of a campaign, the campaign is there after it, with its terms, within its
  -- delivery limit if it was so before, and closed if it was closed.
  pub call-Continues :
      (s : Store R) (m : Meta) (c : Call) → s.meta ≡ some m → Continues m (call R s c).0.meta
  unfolding call
  call-Continues s m (create v a sd t c d pl l) e =
      rw (create_script-some R s m v a sd t c d pl l e) (ground arith)
  call-Continues s m (acknowledge first last now) e = unfold acknowledge_script in ground arith
  call-Continues s m (begin x kind now) e = begin_script-Continues R s m x kind now e
  call-Continues s m (commit x t work now) e = commit_script-Continues R s m x t work now e
  call-Continues s m (close now reason) e = unfold close_script in ground arith
  call-Continues s m (settle now reason) e = unfold settle_script in ground arith

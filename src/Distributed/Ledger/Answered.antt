-- ===== src/Distributed/Ledger/Answered.antt =====
-- internal/distributed/ledger.go: Begin and Commit where the script answers.
use personalized_email_pipel.Prelude.{ℕ, ◌≡◌, refl, true, false, [], ◌∷◌, none, some, inr, ◌/◌}
use personalized_email_pipel.Prelude.Int64.{lt64, is_negative}
use personalized_email_pipel.Campaign.Model.{Text}
use personalized_email_pipel.Distributed.Answers.{
  Transition, granted, begin_answer, commit_error, terminal_of,
}
use personalized_email_pipel.Distributed.Ledger.{
  answered, begin, begin_named, begin_reply, run_script, commit, commit_named, error_of,
}
use personalized_email_pipel.Distributed.Model.{Terminal, initial}
use personalized_email_pipel.Distributed.Redis.{Redis}
use personalized_email_pipel.Distributed.Requests.{
  CommitRequest, kind, since_epoch, valid_id, max_work_duration,
}
use personalized_email_pipel.Distributed.Scripts.Begin.{begin_script}
use personalized_email_pipel.Distributed.Scripts.Commit.{commit_script}
use personalized_email_pipel.Distributed.Scripts.Store.{Store, Reply}

module _ (R : Redis) where
  -- A first attempt that the script grants, and a commit that it accepts, if the script answers.
  pub begin-answered :
      (s : Store R) (id : Text) (o now : ℕ) (rest : Reply)
      → valid_id id ≡ true
      → lt64 o 1 ≡ false
      → (begin_script R s o initial (now / 1000000)).1 ≡ 0 ∷ rest
      → (tr : Transition) × (begin R answered s id
            (record { ordinal = o; kind_name = kind initial; now = since_epoch now })
          ≡ ((begin_script R s o initial (now / 1000000)).0, inr tr))
        × (tr.result ≡ granted)
  unfolding begin begin_named begin_reply run_script begin_answer
  begin-answered s id o now rest v l e = rw (v, l, e) (_, refl, refl)

  pub commit-answered :
      (s : Store R) (id : Text) (r : CommitRequest) (t : Terminal) (n : ℕ)
      → valid_id id ≡ true
      → lt64 r.ordinal 1 ≡ false
      → is_negative r.work ≡ false
      → lt64 max_work_duration r.work ≡ false
      → r.now ≡ since_epoch n
      → terminal_of r ≡ some t
      → (commit_script R s r.ordinal t r.work (n / 1000000)).1 ≡ 0 ∷ []
      → commit R answered s id r ≡ ((commit_script R s r.ordinal t r.work (n / 1000000)).0, none)
  unfolding commit commit_named error_of run_script commit_error
  commit-answered s id r t n v l w k now te e = rw (v, l, w, k, now, te, e) refl

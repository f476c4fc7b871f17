-- ===== src/Distributed/Scripts/Commit/Phases.antt =====
-- What commitLua does to the phase of each ordinal.
use personalized_email_pipel.Prelude.{
  ℕ, ◌≤◌, ◌≡◌, ◌&&◌, true, Option, some, [], ◌∷◌, arith, ◌==◌, if◌then◌else◌,
}
use personalized_email_pipel.Distributed.Model.{Terminal, completes, fails}
use personalized_email_pipel.Distributed.Redis.{Redis}
use personalized_email_pipel.Distributed.Scripts.Commit.{
  commit_script, commit_at, commit_started, record_terminal,
}
use personalized_email_pipel.Distributed.Scripts.Phase.{
  in_span, Phase, absent, acknowledged, started, completed, failed, IsAt,
}
use personalized_email_pipel.Distributed.Scripts.Store.{Meta, Store}

abbrev pub terminal_phase : Terminal → Phase
terminal_phase (completes digest) = completed
terminal_phase (fails reason) = failed

-- The specification: only a started ordinal moves, to the terminal phase that is asked for.
abbrev pub commit_phase : Terminal → Phase → Phase
commit_phase t started = terminal_phase t
commit_phase t p = p

-- The code of the reply, by the phase of the ordinal.
abbrev pub commit_code : Phase → ℕ
commit_code absent = 2
commit_code acknowledged = 2
commit_code started = 0
commit_code _ = 1

module _ (R : Redis) where
  commit_started-IsAt :
      (s : Store R) (m : Meta) (o o' : ℕ) (t : Terminal) (work now : ℕ) (p : Phase)
      → IsAt R s o' p
      → R.sismember s.started o ≡ true
      → IsAt R (commit_started R s m o t work now) o' (if o == o' then commit_phase t p else p)
  unfolding commit_started record_terminal
  commit_started-IsAt s m o o' (completes digest) work now started a h =
      ground (arith, R.sismember-srem s.started o o', R.sismember-sadd s.completed o o')
  commit_started-IsAt s m o o' (fails reason) work now started a h =
      ground (arith, R.sismember-srem s.started o o', R.sismember-sadd s.failed o o')
  commit_started-IsAt s m o o' (completes digest) work now p a h =
      ground (arith, R.sismember-srem s.started o o', R.sismember-sadd s.completed o o')
  commit_started-IsAt s m o o' (fails reason) work now p a h =
      ground (arith, R.sismember-srem s.started o o', R.sismember-sadd s.failed o o')

  commit_at-IsAt :
      (mo : Option Meta) (s : Store R) (m : Meta) (o o' : ℕ) (t : Terminal) (work now : ℕ)
      (p : Phase)
      → mo ≡ some m
      → IsAt R s o' p
      → IsAt R
          (commit_at R mo s o t work now).0
          o'
          (if in_span 1 m.total o && o == o' then commit_phase t p else p)
  unfolding commit_at
  commit_at-IsAt mo s m o o' t work now started e a =
      ground (arith, commit_started-IsAt s m o o' t work now started a)
  commit_at-IsAt mo s m o o' t work now p e a =
      ground (arith, commit_started-IsAt s m o o' t work now p a)

  commit_at_reply :
      (mo : Option Meta) (s : Store R) (m : Meta) (o : ℕ) (t : Terminal) (work now : ℕ) (p : Phase)
      → mo ≡ some m
      → 1 ≤ o
      → o ≤ m.total
      → IsAt R s o p
      → (commit_at R mo s o t work now).1 ≡ commit_code p ∷ []
  unfolding commit_at
  commit_at_reply mo s m o t work now started e lo hi a = ground arith
  commit_at_reply mo s m o t work now p e lo hi a = ground arith

  -- What commit does to the phase of its ordinal, if that is in range, and that it moves no other.
  pub commit_script-IsAt :
      (s : Store R) (m : Meta) (o o' : ℕ) (t : Terminal) (work now : ℕ) (p : Phase)
      → s.meta ≡ some m
      → IsAt R s o' p
      → IsAt R
          (commit_script R s o t work now).0
          o'
          (if in_span 1 m.total o && o == o' then commit_phase t p else p)
  unfolding commit_script
  commit_script-IsAt s m o o' t work now p = commit_at-IsAt s.meta s m o o' t work now p

  -- The reply tells the phase that the ordinal had.
  pub commit_script_reply :
      (s : Store R) (m : Meta) (o : ℕ) (t : Terminal) (work now : ℕ) (p : Phase)
      → s.meta ≡ some m
      → 1 ≤ o
      → o ≤ m.total
      → IsAt R s o p
      → (commit_script R s o t work now).1 ≡ commit_code p ∷ []
  unfolding commit_script
  commit_script_reply s m o t work now p = commit_at_reply s.meta s m o t work now p

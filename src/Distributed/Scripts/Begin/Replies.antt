-- ===== src/Distributed/Scripts/Begin/Replies.antt =====
-- What beginLua replies, by the phase of the ordinal.
use personalized_email_pipel.Prelude.{
  ℕ, ◌≡◌, Bool, true, false, ◌||◌, [], ◌∷◌, Option, some, arith, ◌==◌,
}
use personalized_email_pipel.Distributed.Model.{one_shot_delivery, AttemptKind, initial, retry}
use personalized_email_pipel.Distributed.Redis.{Redis}
use personalized_email_pipel.Distributed.Scripts.Begin.{
  begin_script, begin_at, begin_known, begin_initial, begin_retry,
}
use personalized_email_pipel.Distributed.Scripts.Begin.Phases.{begin_phase}
use personalized_email_pipel.Distributed.Scripts.Phase.{
  in_span, Phase, acknowledged, started, completed, failed, IsAt,
}
use personalized_email_pipel.Distributed.Scripts.Store.{Meta, Reply, Store}

-- The ordinal has been started at some time.
abbrev pub has_passed : Phase → Bool
has_passed started = true
has_passed completed = true
has_passed failed = true
has_passed _ = false

-- Codes 0 and 1: the worker may go on to deliver.
abbrev pub grants : Reply → Bool
grants [] = false
grants (code ∷ rest) = code == 0 || code == 1

module _ (R : Redis) where
  begin_known_passed :
      (s : Store R) (m : Meta) (o : ℕ) (kind : AttemptKind) (now : ℕ) (p : Phase)
      → m.policy ≡ one_shot_delivery
      → IsAt R s o p
      → has_passed p ≡ true
      → grants (begin_known R s m o kind now).1 ≡ false
  unfolding begin_known
  begin_known_passed s m o kind now started e a h = ground arith
  begin_known_passed s m o kind now p e a h = ground arith

  begin_at_passed :
      (mo : Option Meta) (s : Store R) (m : Meta) (o : ℕ) (kind : AttemptKind) (now : ℕ) (p : Phase)
      → mo ≡ some m
      → m.policy ≡ one_shot_delivery
      → IsAt R s o p
      → has_passed p ≡ true
      → grants (begin_at R mo s o kind now).1 ≡ false
  unfolding begin_at
  begin_at_passed mo s m o kind now p f e a h =
      ground (arith, begin_known_passed s m o kind now p e a h)

  pub begin_script_passed :
      (s : Store R) (m : Meta) (o : ℕ) (kind : AttemptKind) (now : ℕ) (p : Phase)
      → s.meta ≡ some m
      → m.policy ≡ one_shot_delivery
      → IsAt R s o p
      → has_passed p ≡ true
      → grants (begin_script R s o kind now).1 ≡ false
  unfolding begin_script
  begin_script_passed s m o kind now p = begin_at_passed s.meta s m o kind now p

  begin_initial_granted :
      (s : Store R) (m : Meta) (o now : ℕ)
      → grants (begin_initial R s m o now).1 ≡ true
      → has_passed (begin_phase m initial acknowledged) ≡ true
  unfolding begin_initial
  begin_initial_granted s m o now h = ground arith

  begin_known_granted :
      (s : Store R) (m : Meta) (o : ℕ) (kind : AttemptKind) (now : ℕ) (p : Phase)
      → IsAt R s o p
      → grants (begin_known R s m o kind now).1 ≡ true
      → has_passed (begin_phase m kind p) ≡ true
  unfolding begin_known begin_retry
  begin_known_granted s m o retry now p a h = ground arith
  begin_known_granted s m o initial now acknowledged a h =
      ground (arith, begin_initial_granted s m o now)
  begin_known_granted s m o initial now p a h = ground arith

  begin_at_granted :
      (mo : Option Meta) (s : Store R) (m : Meta) (o : ℕ) (kind : AttemptKind) (now : ℕ) (p : Phase)
      → mo ≡ some m
      → IsAt R s o p
      → grants (begin_at R mo s o kind now).1 ≡ true
      → (in_span 1 m.total o ≡ true) × (has_passed (begin_phase m kind p) ≡ true)
  unfolding begin_at
  begin_at_granted mo s m o kind now p f a h =
      ground (arith, begin_known_granted s m o kind now p a)

  -- After a grant the ordinal has been started.
  pub begin_script_granted :
      (s : Store R) (m : Meta) (o : ℕ) (kind : AttemptKind) (now : ℕ) (p : Phase)
      → s.meta ≡ some m
      → IsAt R s o p
      → grants (begin_script R s o kind now).1 ≡ true
      → (in_span 1 m.total o ≡ true) × (has_passed (begin_phase m kind p) ≡ true)
  unfolding begin_script
  begin_script_granted s m o kind now p = begin_at_granted s.meta s m o kind now p

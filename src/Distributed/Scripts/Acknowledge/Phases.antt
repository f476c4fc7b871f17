-- ===== src/Distributed/Scripts/Acknowledge/Phases.antt =====
-- What acknowledgeLua does to the phase of each ordinal.
use personalized_email_pipel.Prelude.{
  ℕ, zero, suc, ◌+◌, ◌-◌, ◌≤◌, ◌≡◌, Bool, true, false, ◌&&◌, ◌||◌, Option, some, arith, ltb, leb,
  ◌==◌, if◌then◌else◌,
}
use personalized_email_pipel.Distributed.Model.{is_open}
use personalized_email_pipel.Distributed.Redis.{Redis}
use personalized_email_pipel.Distributed.Scripts.Acknowledge.{
  seen, acknowledge_one, acknowledge_from, acknowledge_range, acknowledge_open, acknowledge_at,
  acknowledge_script,
}
use personalized_email_pipel.Distributed.Scripts.Phase.{in_span, Phase, absent, acknowledged, IsAt}
use personalized_email_pipel.Distributed.Scripts.Store.{Meta, Store}

-- The specification: an open campaign acknowledges the ordinals of a range within its total that
-- it has not seen.
abbrev pub acknowledge_phase : Bool → Phase → Phase
acknowledge_phase true absent = acknowledged
acknowledge_phase due p = p

abbrev pub acknowledge_due : Meta → ℕ → ℕ → ℕ → Bool
acknowledge_due m first last o =
    is_open m.state && leb 1 first && leb last m.total && in_span first last o

module _ (R : Redis) where
  acknowledge_one-IsAt :
      (s : Store R) (o o' : ℕ) (p : Phase)
      → IsAt R s o' p
      → IsAt R (acknowledge_one R s o) o' (acknowledge_phase (o == o') p)
  acknowledge_one-IsAt s o o' absent a = ground (arith, R.sismember-sadd s.acknowledged o o')
  acknowledge_one-IsAt s o o' p a = ground (arith, R.sismember-sadd s.acknowledged o o')

  acknowledge_phase_twice :
      (b c : Bool) (p : Phase)
      → acknowledge_phase c (acknowledge_phase b p) ≡ acknowledge_phase (b || c) p
  acknowledge_phase_twice b c p = ground arith

  span_zero : (first o : ℕ) → (leb first o && ltb o (first + 0)) ≡ false
  span_zero first o = ground arith

  span_suc :
      (first rounds o : ℕ)
      → ((first == o) || (leb (first + 1) o && ltb o (first + 1 + rounds)))
        ≡ (leb first o && ltb o (first + suc rounds))
  span_suc first rounds o = ground arith

  acknowledge_from-IsAt :
      (rounds first added : ℕ) (s : Store R) (o : ℕ) (p : Phase)
      → IsAt R s o p
      → IsAt R
          (acknowledge_from R s rounds first added).0
          o
          (acknowledge_phase (leb first o && ltb o (first + rounds)) p)
  unfolding acknowledge_from
  acknowledge_from-IsAt zero first added s o p a = rw (span_zero first o) a
  acknowledge_from-IsAt (suc rounds) first added s o p a =
      rw
        (
          ← span_suc first rounds o,
          ← acknowledge_phase_twice (first == o) (leb (first + 1) o && ltb o (first + 1 + rounds))
              p,
        )
        (acknowledge_from-IsAt rounds (first + 1) (if seen R s first then added else added + 1)
          (acknowledge_one R s first) o (acknowledge_phase (first == o) p)
          (acknowledge_one-IsAt s first o p a))

  span_end :
      (first last o : ℕ)
      → first ≤ last
      → (leb first o && ltb o (first + (last + 1 - first))) ≡ in_span first last o
  span_end first last o h = ground arith

  acknowledge_range-IsAt :
      (s : Store R) (m : Meta) (first last now o : ℕ) (p : Phase)
      → IsAt R s o p
      → IsAt R
          (acknowledge_range R s m first last now).0
          o
          (acknowledge_phase (leb 1 first && leb last m.total && in_span first last o) p)
  unfolding acknowledge_range
  acknowledge_range-IsAt s m first last now o p a =
      ground
        (arith, span_end first last o, acknowledge_from-IsAt (last + 1 - first) first 0 s o p a)

  acknowledge_at-IsAt :
      (mo : Option Meta) (s : Store R) (m : Meta) (first last now o : ℕ) (p : Phase)
      → mo ≡ some m
      → IsAt R s o p
      → IsAt R
          (acknowledge_at R mo s first last now).0
          o
          (acknowledge_phase (acknowledge_due m first last o) p)
  unfolding acknowledge_at acknowledge_open
  acknowledge_at-IsAt mo s m first last now o p e a =
      ground (arith, acknowledge_range-IsAt s m first last now o p a)

  -- An open campaign acknowledges exactly the unseen ordinals of a range within its total, and no
  -- acknowledgement moves any other ordinal.
  pub acknowledge_script-IsAt :
      (s : Store R) (m : Meta) (first last now o : ℕ) (p : Phase)
      → s.meta ≡ some m
      → IsAt R s o p
      → IsAt R
          (acknowledge_script R s first last now).0
          o
          (acknowledge_phase (acknowledge_due m first last o) p)
  unfolding acknowledge_script
  acknowledge_script-IsAt s m first last now o p = acknowledge_at-IsAt s.meta s m first last now o p

-- ===== src/Distributed/Scripts/Close/Phases.antt =====
-- What closeLua and settleLua do to the phase of each ordinal.
use personalized_email_pipel.Prelude.{
  ℕ, ◌≡◌, true, false, ◌&&◌, List, [], ◌∷◌, Option, some, arith, leb, if◌then◌else◌,
}
use personalized_email_pipel.Distributed.Model.{CampaignState, state_open, FailureReason, is_open}
use personalized_email_pipel.Distributed.Redis.{Redis, has, length_of_has}
use personalized_email_pipel.Distributed.Scripts.Close.{
  move_all, close_script, close_at, close_open, settle_script, settle_at, settle_closed,
}
use personalized_email_pipel.Distributed.Scripts.Phase.{
  Phase, acknowledged, started, failed, unprocessed, IsAt,
}
use personalized_email_pipel.Distributed.Scripts.Store.{Meta, Store}

-- The specification of a close of an open campaign.
abbrev pub close_phase : CampaignState → Phase → Phase
close_phase state_open acknowledged = unprocessed
close_phase st p = p

-- That of a settlement at or after the deadline of a closed one.
abbrev pub settle_phase : Meta → ℕ → Phase → Phase
settle_phase m now started =
    if is_open m.state then started else if leb m.deadline_ms now then failed else started
settle_phase m now p = p

module _ (R : Redis) where
  open R use {MemberSet, sismember}

  move_all-source :
      (os : List ℕ) (s t : MemberSet) (x : ℕ)
      → sismember (move_all R os s t).0 x ≡ (if has x os then false else sismember s x)
  unfolding move_all
  move_all-source [] s t x = ground arith
  move_all-source (o ∷ os) s t x = ground (
    arith,
    R.smove_lem s t o,
    R.sismember-srem s o x,
    move_all-source os (R.smove s t o).0 (R.smove s t o).1 x,
  )

  move_all-target :
      (os : List ℕ) (s t : MemberSet) (x : ℕ)
      → sismember (move_all R os s t).1 x
        ≡ (if has x os && sismember s x then true else sismember t x)
  unfolding move_all
  move_all-target [] s t x = ground arith
  move_all-target (o ∷ os) s t x = ground (
    arith,
    R.smove_lem s t o,
    R.sismember-srem s o x,
    R.sismember-sadd t o x,
    move_all-target os (R.smove s t o).0 (R.smove s t o).1 x,
  )

  close_at-IsAt :
      (mo : Option Meta) (s : Store R) (m : Meta) (now : ℕ) (reason : FailureReason) (o : ℕ)
      (p : Phase)
      → mo ≡ some m
      → IsAt R s o p
      → IsAt R (close_at R mo s now reason).0 o (close_phase m.state p)
  unfolding close_at close_open
  close_at-IsAt mo s m now reason o acknowledged e a = ground (
    arith,
    move_all-source (R.smembers s.acknowledged) s.acknowledged s.unprocessed o,
    move_all-target (R.smembers s.acknowledged) s.acknowledged s.unprocessed o,
    R.has-smembers s.acknowledged o,
  )
  close_at-IsAt mo s m now reason o p e a = ground (
    arith,
    move_all-source (R.smembers s.acknowledged) s.acknowledged s.unprocessed o,
    move_all-target (R.smembers s.acknowledged) s.acknowledged s.unprocessed o,
    R.has-smembers s.acknowledged o,
  )

  settle_at-IsAt :
      (mo : Option Meta) (s : Store R) (m : Meta) (now : ℕ) (reason : FailureReason) (o : ℕ)
      (p : Phase)
      → mo ≡ some m
      → IsAt R s o p
      → IsAt R (settle_at R mo s now reason).0 o (settle_phase m now p)
  unfolding settle_at settle_closed
  settle_at-IsAt mo s m now reason o started e a = ground (
    arith,
    move_all-source (R.smembers s.started) s.started s.failed o,
    move_all-target (R.smembers s.started) s.started s.failed o,
    R.has-smembers s.started o,
    length_of_has o (R.smembers s.started),
  )
  settle_at-IsAt mo s m now reason o p e a = ground (
    arith,
    move_all-source (R.smembers s.started) s.started s.failed o,
    move_all-target (R.smembers s.started) s.started s.failed o,
    R.has-smembers s.started o,
    length_of_has o (R.smembers s.started),
  )

  -- A close of an open campaign drops exactly the acknowledged ordinals; of a closed one, none.
  pub close_script-IsAt :
      (s : Store R) (m : Meta) (now : ℕ) (reason : FailureReason) (o : ℕ) (p : Phase)
      → s.meta ≡ some m
      → IsAt R s o p
      → IsAt R (close_script R s now reason).0 o (close_phase m.state p)
  unfolding close_script
  close_script-IsAt s m now reason o p = close_at-IsAt s.meta s m now reason o p

  -- A settlement that is due fails exactly the started ordinals; any other leaves all phases.
  pub settle_script-IsAt :
      (s : Store R) (m : Meta) (now : ℕ) (reason : FailureReason) (o : ℕ) (p : Phase)
      → s.meta ≡ some m
      → IsAt R s o p
      → IsAt R (settle_script R s now reason).0 o (settle_phase m now p)
  unfolding settle_script
  settle_script-IsAt s m now reason o p = settle_at-IsAt s.meta s m now reason o p

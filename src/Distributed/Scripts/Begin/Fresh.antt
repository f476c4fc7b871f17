-- ===== src/Distributed/Scripts/Begin/Fresh.antt =====
-- When beginLua grants a first attempt.
use personalized_email_pipel.Prelude.{
  ℕ, ◌≡◌, refl, true, false, ◌&&◌, ◌∷◌, Option, some, arith, leb, Bool-cases, inl, inr,
}
use personalized_email_pipel.Distributed.Model.{initial, is_one_shot, is_open}
use personalized_email_pipel.Distributed.Redis.{Redis}
use personalized_email_pipel.Distributed.Scripts.Begin.{
  begin_script, begin_at, begin_known, begin_initial,
}
use personalized_email_pipel.Distributed.Scripts.Phase.{in_span, acknowledged, IsAt}
use personalized_email_pipel.Distributed.Scripts.Store.{Meta, Reply, Store}

module _ (R : Redis) where
  begin_initial_fresh :
      (s : Store R) (m : Meta) (o now : ℕ)
      → is_open m.state ≡ true
      → (is_one_shot m.policy && leb m.delivery_limit m.delivery_reserved) ≡ false
      → (rest : Reply) × ((begin_initial R s m o now).1 ≡ 0 ∷ rest)
  unfolding begin_initial
  begin_initial_fresh s m o now op room = rw (op, room) (_, refl)

  begin_known_fresh :
      (s : Store R) (m : Meta) (o now : ℕ)
      → IsAt R s o acknowledged
      → begin_known R s m o initial now ≡ begin_initial R s m o now
  unfolding begin_known
  begin_known_fresh s m o now a = elim (Bool-cases (is_one_shot m.policy)) [
    | inl e ↦
        rw (a.at_completed, a.at_failed, a.at_unprocessed, e, a.at_started, a.at_acknowledged) refl
    | inr e ↦
        rw (a.at_completed, a.at_failed, a.at_unprocessed, e, a.at_started, a.at_acknowledged) refl
  ]

  begin_at_fresh :
      (mo : Option Meta) (s : Store R) (m : Meta) (o now : ℕ)
      → mo ≡ some m
      → in_span 1 m.total o ≡ true
      → begin_at R mo s o initial now ≡ begin_known R s m o initial now
  unfolding begin_at
  begin_at_fresh mo s m o now e i = ground arith

  -- A first attempt at an acknowledged ordinal of an open campaign with room for it is granted.
  pub begin_script_fresh :
      (s : Store R) (m : Meta) (o now : ℕ)
      → s.meta ≡ some m
      → in_span 1 m.total o ≡ true
      → IsAt R s o acknowledged
      → is_open m.state ≡ true
      → (is_one_shot m.policy && leb m.delivery_limit m.delivery_reserved) ≡ false
      → (rest : Reply) × ((begin_script R s o initial now).1 ≡ 0 ∷ rest)
  unfolding begin_script
  begin_script_fresh s m o now e i a op room =
      rw (begin_at_fresh s.meta s m o now e i, begin_known_fresh s m o now a)
        (begin_initial_fresh s m o now op room)

-- ===== src/Distributed/Scripts/Snapshot/Trust.antt =====
-- snapshotLua on a well-formed ledger.
use personalized_email_pipel.Prelude.{
  ℕ, ◌≤◌, ◌≡◌, refl, true, false, ◌&&◌, List, [], ◌∷◌, Option, some, arith, ap, ◌∙◌,
}
use personalized_email_pipel.Distributed.Members.{union, AreDisjoint, sum_lengths-le, has-append}
use personalized_email_pipel.Distributed.Redis.{Redis, has}
use personalized_email_pipel.Distributed.Scripts.Calls.{Call}
use personalized_email_pipel.Distributed.Scripts.Invariant.{
  is_absent, total_of, IsWellFormed, run, run-IsWellFormed, empty_store-IsWellFormed,
}
use personalized_email_pipel.Distributed.Scripts.Phase.{
  in_acknowledged, in_started, in_completed, in_failed, in_unprocessed, Phase, IsAt,
}
use personalized_email_pipel.Distributed.Scripts.Snapshot.{
  values, values_of, card_sum, any_meet, snapshot_at, snapshot_script,
}
use personalized_email_pipel.Distributed.Scripts.Store.{Meta, Store, empty_store}

module _ (R : Redis) (s : Store R) where
  abbrev lists : List (List ℕ)
  lists =
      R.smembers s.acknowledged
      ∷ R.smembers s.started
      ∷ R.smembers s.completed
      ∷ R.smembers s.failed
      ∷ R.smembers s.unprocessed
      ∷ []

  -- Membership in the lists, read off the phase.
  record Lists (x : ℕ) (p : Phase) : Type 0 where
    l1 : has x (R.smembers s.acknowledged) ≡ in_acknowledged p
    l2 : has x (R.smembers s.started) ≡ in_started p
    l3 : has x (R.smembers s.completed) ≡ in_completed p
    l4 : has x (R.smembers s.failed) ≡ in_failed p
    l5 : has x (R.smembers s.unprocessed) ≡ in_unprocessed p

  sizes_at : (x : ℕ) (p : Phase) → IsAt R s x p → Lists x p
  sizes_at x p a = record {
    l1 = R.has-smembers s.acknowledged x ∙ a.at_acknowledged;
    l2 = R.has-smembers s.started x ∙ a.at_started;
    l3 = R.has-smembers s.completed x ∙ a.at_completed;
    l4 = R.has-smembers s.failed x ∙ a.at_failed;
    l5 = R.has-smembers s.unprocessed x ∙ a.at_unprocessed;
  }

  sizes_apart :
      (x : ℕ) (p : Phase)
      → Lists x p
      → (has x (R.smembers s.acknowledged) ≡ true
          → has x (
              union (
                R.smembers s.started
                ∷ R.smembers s.completed
                ∷ R.smembers s.failed
                ∷ R.smembers s.unprocessed
                ∷ []))
            ≡ false)
        × (has x (R.smembers s.started) ≡ true
            → has x (
                union
                  (R.smembers s.completed ∷ R.smembers s.failed ∷ R.smembers s.unprocessed ∷ []))
              ≡ false)
        × (has x (R.smembers s.completed) ≡ true
            → has x (union (R.smembers s.failed ∷ R.smembers s.unprocessed ∷ [])) ≡ false)
        × (has x (R.smembers s.failed) ≡ true
            → has x (union (R.smembers s.unprocessed ∷ [])) ≡ false)
        × (has x (R.smembers s.unprocessed) ≡ true → has x [] ≡ false)
  sizes_apart x p l = (
    λ h. simp has-append (ground arith),
    λ h. simp has-append (ground arith),
    λ h. simp has-append (ground arith),
    λ h. simp has-append (ground arith),
    λ h. refl,
  )

  lists_absent : (x : ℕ) (p : Phase) → Lists x p → has x (union lists) ≡ true → is_absent p ≡ false
  lists_absent x p l h = let k = simp has-append at h in ground arith

  -- No ordinal is in two of the sets.
  abbrev Apart : ℕ → Type 0
  Apart x =
      ((R.sismember s.acknowledged x && R.sismember s.started x) ≡ false)
      × ((R.sismember s.acknowledged x && R.sismember s.completed x) ≡ false)
      × ((R.sismember s.acknowledged x && R.sismember s.failed x) ≡ false)
      × ((R.sismember s.acknowledged x && R.sismember s.unprocessed x) ≡ false)
      × ((R.sismember s.started x && R.sismember s.completed x) ≡ false)
      × ((R.sismember s.started x && R.sismember s.failed x) ≡ false)
      × ((R.sismember s.started x && R.sismember s.unprocessed x) ≡ false)
      × ((R.sismember s.completed x && R.sismember s.failed x) ≡ false)
      × ((R.sismember s.completed x && R.sismember s.unprocessed x) ≡ false)
      × ((R.sismember s.failed x && R.sismember s.unprocessed x) ≡ false)

  apart : (x : ℕ) (p : Phase) → IsAt R s x p → Apart x
  apart x p a = ground arith

module _ (R : Redis) (s : Store R) (w : IsWellFormed R s) where
  members_at : (x : ℕ) → Lists R s x (w.placed x).phase
  members_at x = sizes_at R s x (w.placed x).phase (w.placed x).at_phase

  lists-AreDisjoint : AreDisjoint (lists R s)
  lists-AreDisjoint = (
    R.smembers-IsDistinct s.acknowledged,
    λ x. (sizes_apart R s x _ (members_at x)).0,
    (
      R.smembers-IsDistinct s.started,
      λ x. (sizes_apart R s x _ (members_at x)).1,
      (
        R.smembers-IsDistinct s.completed,
        λ x. (sizes_apart R s x _ (members_at x)).2,
        (
          R.smembers-IsDistinct s.failed,
          λ x. (sizes_apart R s x _ (members_at x)).3,
          (R.smembers-IsDistinct s.unprocessed, λ x. (sizes_apart R s x _ (members_at x)).4, tt),
        ),
      ),
    ),
  )

  lists_in_range : (x : ℕ) → has x (union (lists R s)) ≡ true → (1 ≤ x) × (x ≤ total_of s.meta)
  lists_in_range x h =
      let r = (w.placed x).in_range (lists_absent R s x _ (members_at x) h) in ground arith

  -- The five sets hold no more ordinals between them than the total.
  pub card_sum-le : card_sum R s ≤ total_of s.meta
  card_sum-le = omega (
    arith,
    sum_lengths-le (total_of s.meta) (lists R s) lists-AreDisjoint lists_in_range,
    R.scard-smembers s.acknowledged,
    R.scard-smembers s.started,
    R.scard-smembers s.completed,
    R.scard-smembers s.failed,
    R.scard-smembers s.unprocessed,
  )

  Apart-at : (x : ℕ) → Apart R s x
  Apart-at x = apart R s x (w.placed x).phase (w.placed x).at_phase

  any_meet-false : any_meet R s ≡ false
  unfolding any_meet
  any_meet-false = ground (
    arith,
    R.sintercard_zero s.acknowledged s.started (λ x. (Apart-at x).0),
    R.sintercard_zero s.acknowledged s.completed (λ x. (Apart-at x).1),
    R.sintercard_zero s.acknowledged s.failed (λ x. (Apart-at x).2),
    R.sintercard_zero s.acknowledged s.unprocessed (λ x. (Apart-at x).3),
    R.sintercard_zero s.started s.completed (λ x. (Apart-at x).4),
    R.sintercard_zero s.started s.failed (λ x. (Apart-at x).5),
    R.sintercard_zero s.started s.unprocessed (λ x. (Apart-at x).6),
    R.sintercard_zero s.completed s.failed (λ x. (Apart-at x).7),
    R.sintercard_zero s.completed s.unprocessed (λ x. (Apart-at x).8),
    R.sintercard_zero s.failed s.unprocessed (λ x. (Apart-at x).9),
  )

  snapshot_at-some :
      (mo : Option Meta) (m : Meta)
      → mo ≡ some m
      → card_sum R s ≤ total_of mo
      → any_meet R s ≡ false
      → snapshot_at R mo s m.version ≡ values (values_of R s m)
  unfolding snapshot_at
  snapshot_at-some mo m e c a = ground arith

  pub snapshot_of_IsWellFormed :
      (m : Meta) → s.meta ≡ some m → snapshot_script R s m.version ≡ values (values_of R s m)
  unfolding snapshot_script
  snapshot_of_IsWellFormed m e = snapshot_at-some s.meta m e card_sum-le any_meet-false

-- After any sequence of calls of the scripts, with any arguments and in any order, a snapshot of an
-- existing campaign that asks for its version is never refused as inconsistent: it reports the
-- sizes of the five sets, and they add up to no more than the total.
pub snapshot-run_trusted :
    (R : Redis) (cs : List Call) (m : Meta)
    → (run R (empty_store R) cs).meta ≡ some m
    → (snapshot_script R (run R (empty_store R) cs) m.version
        ≡ values (values_of R (run R (empty_store R) cs) m))
      × (card_sum R (run R (empty_store R) cs) ≤ m.total)
snapshot-run_trusted R cs m e =
    let w = run-IsWellFormed R (empty_store R) cs (empty_store-IsWellFormed R) in
    (snapshot_of_IsWellFormed R _ w m e, rw (ap total_of e) at (card_sum-le R _ w))

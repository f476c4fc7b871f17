-- ===== src/Distributed/Scripts/Invariant.antt =====
-- The invariant of the ledger of internal/distributed/scripts.go.
use personalized_email_pipel.Prelude.{
  ℕ, ◌≤◌, ◌≡◌, refl, ◌⊎◌, inl, inr, Bool, true, false, List, [], ◌∷◌, Option, none, some, arith,
  Option-cases,
}
use personalized_email_pipel.Distributed.Model.{initial, retry}
use personalized_email_pipel.Distributed.Redis.{Redis}
use personalized_email_pipel.Distributed.Scripts.Acknowledge.{acknowledge_script}
use personalized_email_pipel.Distributed.Scripts.Begin.{begin_script}
use personalized_email_pipel.Distributed.Scripts.Calls.Terms.{call-Continues}
use personalized_email_pipel.Distributed.Scripts.Calls.{
  Call, create, acknowledge, begin, commit, close, settle, call, call_phase, call-IsAt_any,
}
use personalized_email_pipel.Distributed.Scripts.Close.{close_script, settle_script}
use personalized_email_pipel.Distributed.Scripts.Commit.{commit_script}
use personalized_email_pipel.Distributed.Scripts.Create.{create_script_none, new_meta}
use personalized_email_pipel.Distributed.Scripts.Later.{Continues}
use personalized_email_pipel.Distributed.Scripts.Phase.{in_span, Phase, absent, IsAt}
use personalized_email_pipel.Distributed.Scripts.Store.{Meta, Store, empty_store}

abbrev pub total_of : Option Meta → ℕ
total_of none = 0
total_of (some m) = m.total

-- The campaign is absent, or within its delivery limit.
abbrev pub IsWithinLimit : Option Meta → Type 0
IsWithinLimit none = Unit {0}
IsWithinLimit (some m) = m.delivery_reserved ≤ m.delivery_limit

abbrev pub is_absent : Phase → Bool
is_absent absent = true
is_absent _ = false

module _ (R : Redis) where
  -- An ordinal has one phase, and a phase other than absent only from 1 to the total.
  pub record IsPlaced (s : Store R) (o : ℕ) : Type 0 where
    pub phase : Phase
    pub at_phase : IsAt R s o phase
    pub in_range : is_absent phase ≡ false → in_span 1 (total_of s.meta) o ≡ true

  pub record IsWellFormed (s : Store R) : Type 0 where
    pub placed : (o : ℕ) → IsPlaced s o
    pub within_limit : IsWithinLimit s.meta

  pub empty_store-IsWellFormed : IsWellFormed (empty_store R)
  empty_store-IsWellFormed = record {
    placed = λ o. record {
      phase = absent;
      at_phase = record {
        at_acknowledged = R.sismember-no_members o;
        at_started = R.sismember-no_members o;
        at_completed = R.sismember-no_members o;
        at_failed = R.sismember-no_members o;
        at_unprocessed = R.sismember-no_members o;
      };
      in_range = λ h. cc;
    };
    within_limit = tt;
  }

  -- Before the campaign exists, only `create` has an effect.
  call-none :
      (s : Store R) (c : Call)
      → s.meta ≡ none
      → ((call R s c).0 ≡ s)
        ⊎ ((m : Meta) × ((call R s c).0 ≡ record s { meta = some m }) × (m.delivery_reserved ≡ 0))
  unfolding call
  call-none s (create v a sd t c d pl l) e = elim (create_script_none R s v a sd t c d pl l) [
    | inl h ↦ inl h
    | inr h ↦ inr (new_meta v a sd t c d pl l, h, refl)
  ]
  call-none s (acknowledge first last now) e = inl (unfold acknowledge_script in ground arith)
  call-none s (begin x kind now) e = inl (unfold begin_script in ground arith)
  call-none s (commit x t work now) e = inl (unfold commit_script in ground arith)
  call-none s (close now reason) e = inl (unfold close_script in ground arith)
  call-none s (settle now reason) e = inl (unfold settle_script in ground arith)

  call_phase_in_range :
      (m : Meta) (c : Call) (o : ℕ) (p : Phase)
      → (is_absent p ≡ false → in_span 1 m.total o ≡ true)
      → is_absent (call_phase m c o p) ≡ false
      → in_span 1 m.total o ≡ true
  call_phase_in_range m (create v a sd t c d pl l) o p h n = h n
  call_phase_in_range m (acknowledge first last now) o absent h n = ground arith
  call_phase_in_range m (begin x initial now) o absent h n = ground arith
  call_phase_in_range m (begin x retry now) o absent h n = ground arith
  call_phase_in_range m (commit x t work now) o absent h n = ground arith
  call_phase_in_range m (close now reason) o absent h n = ground arith
  call_phase_in_range m (settle now reason) o absent h n = cc
  call_phase_in_range m c o p h n = h refl

  total_of-Continues : (m : Meta) (mo : Option Meta) → Continues m mo → total_of mo ≡ m.total
  total_of-Continues m (some m') c = c.same_total
  total_of-Continues m none c = absurd c

  IsWithinLimit-Continues :
      (m : Meta) (mo : Option Meta)
      → Continues m mo
      → m.delivery_reserved ≤ m.delivery_limit
      → IsWithinLimit mo
  IsWithinLimit-Continues m (some m') c h = omega (arith, c.same_limit, c.reserved_bounded h)
  IsWithinLimit-Continues m none c h = absurd c

  call-some-IsPlaced :
      (s : Store R) (m : Meta) (c : Call) (o : ℕ)
      → s.meta ≡ some m
      → IsPlaced s o
      → IsPlaced (call R s c).0 o
  call-some-IsPlaced s m c o e p = record {
    phase = call_phase m c o p.phase;
    at_phase = call-IsAt_any R s m c o p.phase e p.at_phase;
    in_range =
        rw (total_of-Continues m (call R s c).0.meta (call-Continues R s m c e))
          (call_phase_in_range m c o p.phase (rw e at p.in_range));
  }

  absent_before_create : (s : Store R) (o : ℕ) → s.meta ≡ none → IsPlaced s o → IsAt R s o absent
  absent_before_create s o e p = at_absent p.phase p.at_phase (rw e at p.in_range)
    where
      at_absent :
          (q : Phase)
          → IsAt R s o q
          → (is_absent q ≡ false → in_span 1 0 o ≡ true)
          → IsAt R s o absent
      at_absent absent a h = a
      at_absent q a h = absurd (let r = h refl in ground arith)

  create_IsPlaced :
      (s : Store R) (m : Meta) (o : ℕ)
      → s.meta ≡ none
      → IsPlaced s o
      → IsPlaced (record s { meta = some m }) o
  create_IsPlaced s m o e p = record {
    phase = absent;
    at_phase = let a = absent_before_create s o e p in ground arith;
    in_range = λ h. cc;
  }

  call-none-IsWellFormed :
      (s : Store R) (c : Call) → s.meta ≡ none → IsWellFormed s → IsWellFormed (call R s c).0
  call-none-IsWellFormed s c e w = elim (call-none s c e) [
    | inl h ↦ rw h w
    | inr (m, h, z) ↦
        rw h (record {
          placed = λ o. create_IsPlaced s m o e (w.placed o);
          within_limit = omega arith;
        })
  ]

  call-some-IsWellFormed :
      (s : Store R) (m : Meta) (c : Call)
      → s.meta ≡ some m
      → IsWellFormed s
      → IsWellFormed (call R s c).0
  call-some-IsWellFormed s m c e w = record {
    placed = λ o. call-some-IsPlaced s m c o e (w.placed o);
    within_limit =
        IsWithinLimit-Continues m (call R s c).0.meta (call-Continues R s m c e)
          (rw e at w.within_limit);
  }

  -- Every call of a script, with any arguments and in any state, keeps the ledger well formed: each
  -- ordinal is in one set at most and within the total, and no more deliveries are reserved than
  -- the limit allows.
  pub call-IsWellFormed : (s : Store R) (c : Call) → IsWellFormed s → IsWellFormed (call R s c).0
  call-IsWellFormed s c w = elim (Option-cases s.meta) [
    | inl e ↦ call-none-IsWellFormed s c e w
    | inr (m, e) ↦ call-some-IsWellFormed s m c e w
  ]

  -- The store after a sequence of calls.
  unfoldable pub run : Store R → List Call → Store R
  run s [] = s
  run s (c ∷ cs) = run (call R s c).0 cs

  pub run-IsWellFormed : (s : Store R) (cs : List Call) → IsWellFormed s → IsWellFormed (run s cs)
  unfolding run
  run-IsWellFormed s [] w = w
  run-IsWellFormed s (c ∷ cs) w = run-IsWellFormed (call R s c).0 cs (call-IsWellFormed s c w)

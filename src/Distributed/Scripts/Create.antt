-- ===== src/Distributed/Scripts/Create.antt =====
-- internal/distributed/scripts.go: createLua.
use personalized_email_pipel.Prelude.{
  ◌≡◌, refl, ◌⊎◌, inl, inr, Bool, true, false, arith, Bool-cases, ℕ, Bool, true, false, not, ◌||◌,
  List, [], ◌∷◌, Option, none, some, ◌==◌, if◌then◌else◌, length,
}
use personalized_email_pipel.Distributed.Model.{state_open, FailureReason, AttemptPolicy}
use personalized_email_pipel.Distributed.Redis.{Redis}
use personalized_email_pipel.Distributed.Scripts.Store.{Meta, Reply, Store}

-- The hash that HSET writes.
abbrev pub new_meta : ℕ → List ℕ → ℕ → ℕ → ℕ → ℕ → AttemptPolicy → ℕ → Meta
new_meta version algorithm seed total created_ms deadline_ms policy delivery_limit = record {
  version = version;
  state = state_open;
  algorithm = algorithm;
  seed = seed;
  total = total;
  created_ms = created_ms;
  deadline_ms = deadline_ms;
  attempts = 0;
  retries = 0;
  duplicates = 0;
  work_nanos = 0;
  updated_ms = created_ms;
  policy = policy;
  delivery_limit = delivery_limit;
  delivery_reserved = 0;
  closing = none;
}

abbrev exists : Option Meta → Bool
exists none = false
exists (some m) = true

module _ (R : Redis) where
  open R use {scard, hvals}

  -- A key exists if its set or hash is not empty.
  unfoldable pub any_key_exists : Store R → Bool
  any_key_exists s =
      exists s.meta
      || not (scard s.acknowledged == 0)
      || not (scard s.started == 0)
      || not (scard s.completed == 0)
      || not (scard s.failed == 0)
      || not (scard s.unprocessed == 0)
      || not (length (hvals (List ℕ) s.effects) == 0)
      || not (length (hvals FailureReason s.reasons) == 0)

  unfoldable pub create_script :
      Store R → ℕ → List ℕ → ℕ → ℕ → ℕ → ℕ → AttemptPolicy → ℕ → Store R × Reply
  create_script s version algorithm seed total created_ms deadline_ms policy delivery_limit =
      if any_key_exists s then (s, 1 ∷ []) else (
        record s {
          meta =
              some (
                new_meta version algorithm seed total created_ms deadline_ms policy delivery_limit);
        },
        0 ∷ [],
      )

  -- A campaign is not created twice.
  pub create_script-some :
      (s : Store R) (m : Meta) (v : ℕ) (a : List ℕ) (sd t c d : ℕ) (p : AttemptPolicy) (l : ℕ)
      → s.meta ≡ some m
      → create_script s v a sd t c d p l ≡ (s, 1 ∷ [])
  unfolding create_script any_key_exists
  create_script-some s m v a sd t c d p l e = ground arith

  pub create_script_none :
      (s : Store R) (v : ℕ) (a : List ℕ) (sd t c d : ℕ) (p : AttemptPolicy) (l : ℕ)
      → ((create_script s v a sd t c d p l).0 ≡ s)
        ⊎ ((create_script s v a sd t c d p l).0
            ≡ record s { meta = some (new_meta v a sd t c d p l) })
  unfolding create_script
  create_script_none s v a sd t c d p l = elim (Bool-cases (any_key_exists s)) [
    | inl e ↦ inl (rw e refl)
    | inr e ↦ inr (rw e refl)
  ]

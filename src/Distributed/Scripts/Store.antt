-- ===== src/Distributed/Scripts/Store.antt =====
-- internal/distributed/scripts.go: the eight keys of one campaign, and what a script replies.
-- The hash of KEYS[1] is `Meta`, absent before the campaign is created; HINCRBY is an addition, with
-- no bound (Redis refuses to pass 2 ^ 63).
use personalized_email_pipel.Prelude.{ℕ, List, [], ◌∷◌, Option, none}
use personalized_email_pipel.Distributed.Model.{CampaignState, FailureReason, AttemptPolicy}
use personalized_email_pipel.Distributed.Redis.{Redis}

-- The fields of KEYS[1].
pub record Meta : Type 0 where
  pub version : ℕ
  pub state : CampaignState
  pub algorithm : List ℕ
  pub seed : ℕ
  pub total : ℕ
  pub created_ms : ℕ
  pub deadline_ms : ℕ
  pub attempts : ℕ
  pub retries : ℕ
  pub duplicates : ℕ
  pub work_nanos : ℕ
  pub updated_ms : ℕ
  pub policy : AttemptPolicy
  pub delivery_limit : ℕ
  pub delivery_reserved : ℕ
  pub closing : Option (ℕ × FailureReason)  -- closed_ms and close_reason

-- The reply of a script: a list of integers, its code first.
abbrev pub Reply : Type 0
Reply = List ℕ

-- `counters(code)` of the begin script.
abbrev pub counters : Meta → ℕ → Reply
counters m code = code ∷ m.attempts ∷ m.retries ∷ m.duplicates ∷ []

module _ (R : Redis) where
  open R use {
    MemberSet, no_members, sismember, sadd, srem, smove, scard, smembers, Hash, no_fields, hset,
  }

  -- KEYS[1] to KEYS[8].
  pub record Store : Type 0 where
    pub meta : Option Meta
    pub acknowledged : MemberSet
    pub started : MemberSet
    pub completed : MemberSet
    pub failed : MemberSet
    pub unprocessed : MemberSet
    pub effects : Hash (List ℕ)
    pub reasons : Hash FailureReason

  abbrev pub empty_store : Store
  empty_store = record {
    meta = none;
    acknowledged = no_members;
    started = no_members;
    completed = no_members;
    failed = no_members;
    unprocessed = no_members;
    effects = no_fields (List ℕ);
    reasons = no_fields FailureReason;
  }

-- ===== src/Distributed/Scripts/Phase.antt =====
-- An ordinal's place in the ledger of internal/distributed/scripts.go: the phase that the five sets
-- KEYS[2] to KEYS[6] stand for, and the moves that a script may make.
use personalized_email_pipel.Prelude.{ℕ, ◌≡◌, Bool, true, false, leb, ◌&&◌}
use personalized_email_pipel.Distributed.Redis.{Redis}
use personalized_email_pipel.Distributed.Scripts.Store.{Store}

pub data Phase : Type 0 where
  absent acknowledged started completed failed unprocessed : Phase

abbrev pub in_acknowledged : Phase → Bool
in_acknowledged acknowledged = true
in_acknowledged _ = false

abbrev pub in_started : Phase → Bool
in_started started = true
in_started _ = false

abbrev pub in_completed : Phase → Bool
in_completed completed = true
in_completed _ = false

abbrev pub in_failed : Phase → Bool
in_failed failed = true
in_failed _ = false

abbrev pub in_unprocessed : Phase → Bool
in_unprocessed unprocessed = true
in_unprocessed _ = false

abbrev pub is_terminal : Phase → Bool
is_terminal completed = true
is_terminal failed = true
is_terminal unprocessed = true
is_terminal _ = false

abbrev pub in_span : ℕ → ℕ → ℕ → Bool
in_span first last o = leb first o && leb o last

-- The one move that a single script may make with an ordinal.
pub data Move : Phase → Phase → Type 0 where
  stay : {p : Phase} → Move p p
  acknowledges : Move absent acknowledged
  begins : Move acknowledged started
  completes : Move started completed
  fails : Move started failed
  drops : Move acknowledged unprocessed

pub ruleset moves = (stay, acknowledges, begins, completes, fails, drops)

module _ (R : Redis) where
  open R use {sismember}

  -- The ordinal is in the set of its phase, and in no other.
  pub record IsAt (s : Store R) (o : ℕ) (p : Phase) : Type 0 where
    pub at_acknowledged : sismember s.acknowledged o ≡ in_acknowledged p
    pub at_started : sismember s.started o ≡ in_started p
    pub at_completed : sismember s.completed o ≡ in_completed p
    pub at_failed : sismember s.failed o ≡ in_failed p
    pub at_unprocessed : sismember s.unprocessed o ≡ in_unprocessed p

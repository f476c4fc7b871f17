-- ===== src/Campaign/Accounting.antt =====
-- What the counters' check accepts, and what each outcome says of them (internal/campaign/model.go).
use personalized_email_pipel.Prelude.{ℕ, ◌+◌, ◌<◌, ◌≡◌, ◌↔◌, Bool, true, false, arith}
use personalized_email_pipel.Prelude.Int64.{IsNat64, add64, lt64}
use personalized_email_pipel.Campaign.Model.{Counts, success, interrupted, validate, derive_outcome}

-- Every examined record is invalid, a duplicate or eligible, and every eligible one is completed,
-- failed or unprocessed; no counter has wrapped.
pub record IsBalanced (c : Counts) : Type 0 where
  pub examined_split : c.examined ≡ c.invalid + c.duplicate + c.eligible
  pub eligible_split : c.eligible ≡ c.completed + c.failed + c.unprocessed
  pub in_range : IsNat64 c.examined

pub validate_of_IsBalanced : (c : Counts) → IsBalanced c → validate c ≡ true
unfolding validate
validate_of_IsBalanced c b = ground arith

-- Fewer than 2 ^ 61 records of each kind.
pub record IsSmall (c : Counts) : Type 0 where
  pub small_invalid : c.invalid < 2305843009213693952
  pub small_duplicate : c.duplicate < 2305843009213693952
  pub small_eligible : c.eligible < 2305843009213693952
  pub small_completed : c.completed < 2305843009213693952
  pub small_failed : c.failed < 2305843009213693952
  pub small_unprocessed : c.unprocessed < 2305843009213693952

-- Of counts with fewer than 2 ^ 61 records of each kind, the check accepts the balanced ones.
pub validate_iff : (c : Counts) → IsSmall c → (validate c ≡ true) ↔ IsBalanced c
unfolding validate
validate_iff c s = (λ h. ground arith, λ b. validate_of_IsBalanced c b)

-- With as many completions as recipients, and no other records than those and duplicates, nothing is
-- left for the other counters.
rest_of_validate :
    (c : Counts)
    → validate c ≡ true
    → c.completed ≡ c.eligible
    → c.examined ≡ c.duplicate + c.completed
    → (c.invalid ≡ 0) × (c.failed ≡ 0) × (c.unprocessed ≡ 0)
unfolding validate
rest_of_validate c v p q = ground arith

success_of_rest :
    (c : Counts)
    → validate c ≡ true
    → 0 < c.eligible
    → (c.invalid ≡ 0) × (c.failed ≡ 0) × (c.unprocessed ≡ 0)
    → derive_outcome c false false ≡ success
unfolding derive_outcome
success_of_rest c v e r = ground arith

flags_of_success :
    (c : Counts) (cancelled fatal : Bool)
    → derive_outcome c cancelled fatal ≡ success
    → (fatal ≡ false)
      × (cancelled ≡ false)
      × (validate c ≡ true)
      × (0 < c.eligible)
      × (lt64 0 c.invalid ≡ false)
      × (lt64 0 c.failed ≡ false)
      × (lt64 0 c.unprocessed ≡ false)
unfolding derive_outcome
flags_of_success c cancelled fatal h = ground arith

ranges_of_validate :
    (c : Counts)
    → validate c ≡ true
    → IsNat64 c.invalid
      × IsNat64 c.duplicate
      × IsNat64 c.eligible
      × IsNat64 c.completed
      × IsNat64 c.failed
      × IsNat64 c.unprocessed
unfolding validate
ranges_of_validate c h = ground arith

sums_of_validate :
    (c : Counts)
    → validate c ≡ true
    → (c.examined ≡ add64 (add64 c.invalid c.duplicate) c.eligible)
      × (c.eligible ≡ add64 (add64 c.completed c.failed) c.unprocessed)
unfolding validate
sums_of_validate c h = ground arith

zero_of_lt64 : (x : ℕ) → IsNat64 x → lt64 0 x ≡ false → x ≡ 0
zero_of_lt64 x r h = ground arith

success_needs :
    (c : Counts) (cancelled fatal : Bool)
    → derive_outcome c cancelled fatal ≡ success
    → (fatal ≡ false)
      × (cancelled ≡ false)
      × (validate c ≡ true)
      × (0 < c.completed)
      × (c.completed ≡ c.eligible)
      × (c.examined ≡ c.duplicate + c.completed)
success_needs c cancelled fatal h =
    let f = flags_of_success c cancelled fatal h in
    let r = ranges_of_validate c f.2 in
    let s = sums_of_validate c f.2 in
    let i = zero_of_lt64 c.invalid r.0 f.4 in
    let d = zero_of_lt64 c.failed r.4 f.5 in
    let u = zero_of_lt64 c.unprocessed r.5 f.6 in
    (f.0, f.1, f.2, omega arith, omega arith, omega arith)

-- A campaign is a success exactly if its accounts are valid, it was neither cancelled nor fatal, it
-- had a recipient, and every record was a duplicate or a completed recipient.
pub derive_outcome-success_iff :
    (c : Counts) (cancelled fatal : Bool)
    → (derive_outcome c cancelled fatal ≡ success) ↔ (
        (fatal ≡ false)
        × (cancelled ≡ false)
        × (validate c ≡ true)
        × (0 < c.completed)
        × (c.completed ≡ c.eligible)
        × (c.examined ≡ c.duplicate + c.completed))
derive_outcome-success_iff c cancelled fatal = (
  success_needs c cancelled fatal,
  λ h. rw (h.0, h.1) (success_of_rest c h.2 (omega arith) (rest_of_validate c h.2 h.4 h.5)),
)

-- Only a run with valid accounts that was not fatal is reported as interrupted.
pub derive_outcome-interrupted_iff :
    (c : Counts) (cancelled fatal : Bool)
    → (derive_outcome c cancelled fatal ≡ interrupted)
      ↔ ((fatal ≡ false) × (cancelled ≡ true) × (validate c ≡ true))
unfolding derive_outcome
derive_outcome-interrupted_iff c cancelled fatal = (λ h. ground arith, λ h. ground arith)

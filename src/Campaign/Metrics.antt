-- ===== src/Campaign/Metrics.antt =====
-- internal/campaign/metrics.go: the summary of each reason. A summary is a ReasonSummary of
-- runner_types.go; the map from reasons is an association list, in which an absent reason reads as
-- the zero summary. An ordinal is positive, so its signed order is that of its number. An index out
-- of the range of a slice, which panics in Go, is `none`: the summary of a reason without room for
-- any ordinal (a limit of 0) panics, and addReason takes a limit that is positive, as all its callers
-- do.
pub mod Totals
use personalized_email_pipel.Prelude.{
  ℕ, zero, suc, ◌+◌, ◌<◌, ◌≤◌, ◌≡◌, refl, ◌∙◌, arith, Bool-cases, inl, inr, List, [], ◌∷◌, ◌++◌,
  Option, none, some, ◌>>=◌, IsSome, value_of, ltb, if◌then◌else◌, length,
}
use personalized_email_pipel.Prelude.Int64.{inc64}
use personalized_email_pipel.Campaign.Model.{Reason}
use mathlib.Core.Logic.{ite}

pub Reason-discrete : Discrete Reason
Reason-discrete = hlevel

pub record ReasonSummary : Type 0 where
  pub count : ℕ
  pub ordinals : List ℕ
  pub omitted : ℕ

abbrev pub zero_summary : ReasonSummary
zero_summary = record { count = 0; ordinals = []; omitted = 0 }

abbrev pub Summaries : Type 0
Summaries = List (Reason × ReasonSummary)

-- The entry at an index of a slice.
abbrev get_elem? : List ℕ → ℕ → Option ℕ
get_elem? [] i = none
get_elem? (x ∷ xs) zero = some x
get_elem? (x ∷ xs) (suc i) = get_elem? xs i

abbrev set : List ℕ → ℕ → ℕ → List ℕ
set [] i v = []
set (x ∷ xs) zero v = v ∷ xs
set (x ∷ xs) (suc i) v = x ∷ set xs i v

-- The loop that finds the index of the largest kept ordinal; the last argument is what is left of
-- the range.
unfoldable pub largest_from : List ℕ → ℕ → ℕ → List ℕ → Option ℕ
largest_from os i largest [] = some largest
largest_from os i largest (x ∷ rest) = do
  top ← get_elem? os largest
  largest_from os (i + 1) (if ltb top x then i else largest) rest

unfoldable pub replace_largest : List ℕ → ℕ → Option (List ℕ)
replace_largest os ordinal = do
  largest ← largest_from os 0 0 os
  top ← get_elem? os largest
  some (if ltb ordinal top then set os largest ordinal else os)

unfoldable pub add_to_summary : ReasonSummary → ℕ → ℕ → Option ReasonSummary
add_to_summary summary ordinal limit =
    if ltb (length summary.ordinals) limit
    then some (record summary {
      count = inc64 summary.count;
      ordinals = summary.ordinals ++ ordinal ∷ [];
    })
    else do
      ordinals ← replace_largest summary.ordinals ordinal
      some (record {
        count = inc64 summary.count;
        ordinals = ordinals;
        omitted = inc64 summary.omitted;
      })

get_elem?-some : (os : List ℕ) (i : ℕ) → i < length os → (x : ℕ) × (get_elem? os i ≡ some x)
get_elem?-some [] i h = absurd (omega (arith, h))
get_elem?-some (x ∷ os) zero h = (x, refl)
get_elem?-some (x ∷ os) (suc i) h = get_elem?-some os i (omega (arith, h))

-- The loop reads in range only, and so ends with an index in range.
largest_from-some :
    (os : List ℕ) (i largest : ℕ) (rest : List ℕ)
    → i + length rest ≡ length os
    → largest < length os
    → (k : ℕ) × (k < length os) × (largest_from os i largest rest ≡ some k)
unfolding largest_from
largest_from-some os i largest [] e h = (largest, h, refl)
largest_from-some os i largest (x ∷ rest) e h =
    let (top, t) = get_elem?-some os largest h in
    rw t (
      largest_from-some os (i + 1) (if ltb top x then i else largest) rest (omega (arith, e))
        (ground (arith, e, h)))

length-set : (xs : List ℕ) (i v : ℕ) → length (set xs i v) ≡ length xs
length-set [] i v = refl
length-set (x ∷ xs) zero v = refl
length-set (x ∷ xs) (suc i) v = omega (arith, length-set xs i v)

pub replace_largest-some :
    (os : List ℕ) (ordinal : ℕ)
    → 0 < length os
    → (ys : List ℕ) × (length ys ≡ length os) × (replace_largest os ordinal ≡ some ys)
unfolding replace_largest
replace_largest-some os ordinal h =
    let (k, lt, e) = largest_from-some os 0 0 os (omega arith) h in
    let (top, t) = get_elem?-some os k lt in
    rw (e, t) (_, ground (arith, length-set os k ordinal), refl)

-- With room for an ordinal, no index is out of range.
pub add_to_summary-some :
    (summary : ReasonSummary) (ordinal limit : ℕ)
    → 0 < limit
    → (s : ReasonSummary) × (add_to_summary summary ordinal limit ≡ some s)
unfolding add_to_summary
add_to_summary-some summary ordinal limit h =
    elim (Bool-cases (ltb (length summary.ordinals) limit)) [
      | inl t ↦ rw t (_, refl)
      | inr t ↦
          let (ys, same, e) =
            replace_largest-some summary.ordinals ordinal (ground (arith, h, t)) in
          rw (t, e) (_, refl)
    ]

abbrev added : ReasonSummary → ℕ → (limit : ℕ) → 0 < limit → ReasonSummary
added summary ordinal limit h =
    value_of (add_to_summary summary ordinal limit)
      (let (s, e) = add_to_summary-some summary ordinal limit h in rw e tt)

-- The limit of each call of addReason in runner.go is positive.
pub room_for_three : 0 < 3
room_for_three = omega arith

-- addReason.
unfoldable pub add_reason : Summaries → Reason → ℕ → (limit : ℕ) → 0 < limit → Summaries
add_reason [] reason ordinal limit h = (reason, added zero_summary ordinal limit h) ∷ []
add_reason ((r, summary) ∷ rest) reason ordinal limit h =
    ite (Reason-discrete r reason) ((r, added summary ordinal limit h) ∷ rest)
      ((r, summary) ∷ add_reason rest reason ordinal limit h)

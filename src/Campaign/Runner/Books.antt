-- ===== src/Campaign/Runner/Books.antt =====
-- The coordinator's accounts in every round of internal/campaign/runner.go.
use personalized_email_pipel.Prelude.{
  ℕ, ◌+◌, ◌≤◌, ◌<◌, ◌≡◌, refl, true, false, List, [], ◌∷◌, ◌++◌, arith, length, All,
}
use personalized_email_pipel.Prelude.Int64.{sign_bit}
use personalized_email_pipel.Campaign.Model.{Recipient, Counts}
use personalized_email_pipel.Campaign.Runner.{is_active, delete_active}
use personalized_email_pipel.Campaign.Loop.{gives, fails, ends, Loop, Next}

-- The counts add up to the records examined, with the jobs that are queued or active counted as
-- eligible; nothing has wrapped.
pub record AddsUp (c : Counts) (started queued active : ℕ) : Type 0 where
  pub examined_split : c.examined ≡ c.invalid + c.duplicate + c.eligible
  pub eligible_split : c.eligible ≡ c.completed + c.failed + c.unprocessed + queued + active
  pub started_split : started ≡ c.completed + c.failed + active
  pub in_range : c.examined < sign_bit

-- Ascending ordinals from `lo`, all below `hi`.
abbrev pub Ascends : ℕ → List Recipient → ℕ → Type 0
Ascends lo [] hi = lo ≤ hi
Ascends lo (r ∷ rs) hi = (lo ≤ r.ordinal) × Ascends (r.ordinal + 1) rs hi

pub Ascends-snoc :
    (lo : ℕ) (rs : List Recipient) (hi : ℕ) (r : Recipient)
    → Ascends lo rs hi
    → hi ≤ r.ordinal
    → Ascends lo (rs ++ r ∷ []) (r.ordinal + 1)
Ascends-snoc lo [] hi r a h = (omega arith, omega arith)
Ascends-snoc lo (x ∷ xs) hi r a h = (a.0, Ascends-snoc (x.ordinal + 1) xs hi r a.1 h)

pub Ascends-le : (lo : ℕ) (rs : List Recipient) (hi : ℕ) → Ascends lo rs hi → lo ≤ hi
Ascends-le lo [] hi a = a
Ascends-le lo (x ∷ xs) hi a = omega (arith, Ascends-le (x.ordinal + 1) xs hi a.1, a.0)

pub Ascends-mono :
    (lo : ℕ) (rs : List Recipient) (hi hi' : ℕ) → Ascends lo rs hi → hi ≤ hi' → Ascends lo rs hi'
Ascends-mono lo [] hi hi' a h = omega arith
Ascends-mono lo (x ∷ xs) hi hi' a h = (a.0, Ascends-mono (x.ordinal + 1) xs hi hi' a.1 h)

-- Every active ordinal is below `lo`.
abbrev pub Below : ℕ → List ℕ → Type 0
Below lo = All (λ x. x < lo)

pub Below-mono : (lo lo' : ℕ) (xs : List ℕ) → Below lo xs → lo ≤ lo' → Below lo' xs
Below-mono lo lo' [] b h = tt
Below-mono lo lo' (x ∷ xs) b h = (omega arith, Below-mono lo lo' xs b.1 h)

pub not_is_active : (lo o : ℕ) (xs : List ℕ) → Below lo xs → lo ≤ o → is_active o xs ≡ false
not_is_active lo o [] b h = refl
not_is_active lo o (x ∷ xs) b h = ground (arith, not_is_active lo o xs b.1 h)

pub length-delete_active :
    (o : ℕ) (xs : List ℕ) → is_active o xs ≡ true → length (delete_active o xs) + 1 ≡ length xs
unfolding delete_active
length-delete_active o [] h = cc
length-delete_active o (x ∷ xs) h = ground (arith, length-delete_active o xs)

pub delete_active-Below : (lo o : ℕ) (xs : List ℕ) → Below lo xs → Below lo (delete_active o xs)
unfolding delete_active
delete_active-Below lo o [] b = tt
delete_active-Below lo o (x ∷ xs) b = ground (arith, delete_active-Below lo o xs b.1)

-- The ordinals that the source will give ascend from `hi`.
abbrev pub SourceAscends : ℕ → List Next → Type 0
SourceAscends hi [] = Unit {0}
SourceAscends hi (Next.gives r ∷ rest) = (hi ≤ r.ordinal) × SourceAscends (r.ordinal + 1) rest
SourceAscends hi (Next.fails ∷ rest) = SourceAscends hi rest
SourceAscends hi (Next.ends ∷ rest) = SourceAscends hi rest

pub SourceAscends-mono :
    (lo hi : ℕ) (xs : List Next) → lo ≤ hi → SourceAscends hi xs → SourceAscends lo xs
SourceAscends-mono lo hi [] h a = tt
SourceAscends-mono lo hi (gives r ∷ rest) h a = (omega (arith, a.0), a.1)
SourceAscends-mono lo hi (fails ∷ rest) h a = SourceAscends-mono lo hi rest h a
SourceAscends-mono lo hi (ends ∷ rest) h a = SourceAscends-mono lo hi rest h a

-- The invariant of the loop: the accounts add up; the active ordinals are below `lo`, the queued
-- ones ascend from `lo` to below `hi`, and those still to come from `hi`; and the counters have room
-- for the records to come.
pub record Inv (lo hi : ℕ) (s : Loop) : Type 0 where
  pub adds_up : AddsUp s.counts s.started (length s.queue) (length s.active)
  pub below : Below lo s.active
  pub ascends : Ascends lo s.queue hi
  pub source_ascends : SourceAscends hi s.source
  pub room : s.counts.examined + length s.source < sign_bit

-- ===== src/Distributed/Producer/Tiles.antt =====
-- internal/distributed/producer.go: the arithmetic of the ranges of ordinals.
use personalized_email_pipel.Prelude.{
  ℕ, ◌+◌, ◌≤◌, ◌<◌, ◌≡◌, subst, List, [], ◌∷◌, arith, ◌⊎◌, inl, inr,
}
use personalized_email_pipel.Prelude.Int64.{sign_bit, add64, sub64}
use personalized_email_pipel.Distributed.Producer.{ProducerConfig, last_of}

-- The ranges follow on each other from `first` to the total, and none is longer than a task.
abbrev pub Tiles : ℕ → ℕ → ℕ → List (ℕ × ℕ) → Type 0
Tiles size first total [] = total < first
Tiles size first total ((a, b) ∷ rest) =
    (a ≡ first) × (a ≤ b) × (b ≤ total) × (b < a + size) × Tiles size (b + 1) total rest

-- The sizes are those of int64 counters that do not overflow.
pub record Fits (c : ProducerConfig) : Type 0 where
  pub positive : 1 ≤ c.task_size
  pub room : c.campaign.total + c.task_size < sign_bit

pub last_of_exact :
    (c : ProducerConfig) (first : ℕ)
    → Fits c
    → 1 ≤ first
    → first ≤ c.campaign.total
    → (first ≤ last_of c first)
      × (last_of c first ≤ c.campaign.total)
      × (last_of c first < first + c.task_size)
      × ((last_of c first + 1 ≡ first + c.task_size) ⊎ (last_of c first ≡ c.campaign.total))
last_of_exact c first h lo hi = ground (arith, h.positive, h.room)

-- Every recipient before `first` is counted, and none behind the total.
abbrev pub Counted : ProducerConfig → ℕ → ℕ → Type 0
Counted c known first =
    (known ≤ c.campaign.total)
    × ((known + 1 ≡ first) ⊎ ((c.campaign.total < first) × (known ≡ c.campaign.total)))

pub Counted-next :
    (c : ProducerConfig) (known first last : ℕ)
    → Fits c
    → 1 ≤ first
    → first ≤ c.campaign.total
    → first ≤ last
    → last ≤ c.campaign.total
    → last < first + c.task_size
    → (last + 1 ≡ first + c.task_size) ⊎ (last ≡ c.campaign.total)
    → Counted c known first
    → Counted c (add64 known (add64 (sub64 last first) 1)) (add64 first c.task_size)
Counted-next c known first last f lo hi a b d (inl e) (k, inl q) =
    (ground (arith, f.room), inl (ground (arith, f.room)))
Counted-next c known first last f lo hi a b d (inr e) (k, inl q) =
    (ground (arith, f.room), inr (ground (arith, f.room), ground (arith, f.room)))
Counted-next c known first last f lo hi a b d e (k, inr (q, x)) = absurd (omega arith)

pub Tiles-move :
    (size from from' total : ℕ) (rs : List (ℕ × ℕ))
    → (from ≡ from') ⊎ ((total < from) × (total < from'))
    → Tiles size from total rs
    → Tiles size from' total rs
Tiles-move size from from' total rs (inl e) t = subst (λ k. Tiles size k total rs) e t
Tiles-move size from from' total [] (inr (h, k)) t = k
Tiles-move size from from' total ((a, b) ∷ rs) (inr (h, k)) t =
    absurd (omega (arith, t.0, t.1, t.2))

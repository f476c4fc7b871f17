-- ===== src/Campaign/Samples/Order.antt =====
-- internal/campaign/model.go: the order and the number of a category's samples.
use personalized_email_pipel.Prelude.{
  ℕ, zero, suc, ◌≤◌, List, [], ◌∷◌, ◌++◌, ltb, leb, ◌==◌, length, take, arith, All, All-mono,
  length-take-le, inl, inr, Bool-cases,
}
use personalized_email_pipel.Campaign.Model.{Category, named, fallback}
use personalized_email_pipel.Campaign.Samples.{
  Sample, Samples, no_samples, for_category, put_category, insert_sorted, sort_func, truncate,
  add_sample,
}

abbrev pub IsSorted : List Sample → Type 0
IsSorted [] = Unit {0}
IsSorted (x ∷ xs) = All (λ y. x.ordinal ≤ y.ordinal) xs × IsSorted xs

All-insert_sorted :
    (n : ℕ) (x : Sample) (ys : List Sample)
    → n ≤ x.ordinal
    → All (λ y. n ≤ y.ordinal) ys
    → All (λ y. n ≤ y.ordinal) (insert_sorted x ys)
unfolding insert_sorted
All-insert_sorted n x [] h a = (h, tt)
All-insert_sorted n x (y ∷ ys) h (b, a) = elim (Bool-cases (leb x.ordinal y.ordinal)) [
  | inl e ↦ rw e (h, (b, a))
  | inr e ↦ rw e (b, All-insert_sorted n x ys h a)
]

insert_sorted-IsSorted :
    (x : Sample) (ys : List Sample) → IsSorted ys → IsSorted (insert_sorted x ys)
unfolding insert_sorted
insert_sorted-IsSorted x [] s = (tt, tt)
insert_sorted-IsSorted x (y ∷ ys) (a, s) = elim (Bool-cases (leb x.ordinal y.ordinal)) [
  | inl e ↦
      let le : x.ordinal ≤ y.ordinal = ground arith in
      rw e (
        (
          le,
          All-mono (λ z. y.ordinal ≤ z.ordinal) (λ z. x.ordinal ≤ z.ordinal) ys
              (λ z q. omega (arith, le, q)) a,
        ),
        (a, s),
      )
  | inr e ↦
      let ge : y.ordinal ≤ x.ordinal = ground arith in
      rw e (All-insert_sorted y.ordinal x ys ge a, insert_sorted-IsSorted x ys s)
]

sort_func-IsSorted : (xs : List Sample) → IsSorted (sort_func xs)
unfolding sort_func
sort_func-IsSorted [] = tt
sort_func-IsSorted (x ∷ xs) = insert_sorted-IsSorted x (sort_func xs) (sort_func-IsSorted xs)

All-take : (P : Sample → Type 0) (n : ℕ) (xs : List Sample) → All P xs → All P (take n xs)
All-take P zero xs a = tt
All-take P (suc n) [] a = tt
All-take P (suc n) (x ∷ xs) (p, a) = (p, All-take P n xs a)

take-IsSorted : (n : ℕ) (xs : List Sample) → IsSorted xs → IsSorted (take n xs)
take-IsSorted zero xs s = tt
take-IsSorted (suc n) [] s = tt
take-IsSorted (suc n) (x ∷ xs) (a, s) =
    (All-take (λ y. x.ordinal ≤ y.ordinal) n xs a, take-IsSorted n xs s)

-- Sorted, and within the limit.
pub record IsKept (limit : ℕ) (xs : List Sample) : Type 0 where
  pub sorted : IsSorted xs
  pub bounded : length xs ≤ limit

truncate-IsKept : (xs : List Sample) (limit : ℕ) → IsSorted xs → IsKept limit (truncate xs limit)
truncate-IsKept xs limit s = elim (Bool-cases (ltb limit (length xs))) [
  | inl e ↦ rw e (record { sorted = take-IsSorted limit xs s; bounded = length-take-le limit xs })
  | inr e ↦ rw e (record { sorted = s; bounded = ground arith })
]

put-IsKept :
    (limit : ℕ) (c d : Category) (s : Samples) (items : List Sample)
    → IsKept limit (for_category d s)
    → IsKept limit items
    → IsKept limit (for_category d (put_category c s items))
put-IsKept limit named named s items k i = i
put-IsKept limit fallback fallback s items k i = i
put-IsKept limit named fallback s items k i = k
put-IsKept limit fallback named s items k i = k

abbrev pub add_samples : Samples → List Sample → ℕ → Samples
add_samples s [] limit = s
add_samples s (x ∷ xs) limit = add_samples (add_sample s x limit) xs limit

add_sample-IsKept :
    (s : Samples) (x : Sample) (limit : ℕ) (c : Category)
    → IsKept limit (for_category c s)
    → IsKept limit (for_category c (add_sample s x limit))
unfolding add_sample
add_sample-IsKept s x limit c k = elim (Bool-cases (limit == 0)) [
  | inl e ↦ rw e k
  | inr e ↦ rw e (
      put-IsKept limit x.category c s _ k (
        truncate-IsKept (sort_func (for_category x.category s ++ x ∷ [])) limit
          (sort_func-IsSorted (for_category x.category s ++ x ∷ []))))
]

add_samples-IsKept_from :
    (s : Samples) (xs : List Sample) (limit : ℕ) (c : Category)
    → IsKept limit (for_category c s)
    → IsKept limit (for_category c (add_samples s xs limit))
add_samples-IsKept_from s [] limit c k = k
add_samples-IsKept_from s (x ∷ xs) limit c k =
    add_samples-IsKept_from (add_sample s x limit) xs limit c (add_sample-IsKept s x limit c k)

no_samples-IsKept : (limit : ℕ) (c : Category) → IsKept limit (for_category c no_samples)
no_samples-IsKept limit named = record { sorted = tt; bounded = omega arith }
no_samples-IsKept limit fallback = record { sorted = tt; bounded = omega arith }

-- Whatever samples are added, those of each category are sorted by ordinal and no more than the
-- limit.
pub add_samples-IsKept :
    (xs : List Sample) (limit : ℕ) (c : Category)
    → IsKept limit (for_category c (add_samples no_samples xs limit))
add_samples-IsKept xs limit c =
    add_samples-IsKept_from no_samples xs limit c (no_samples-IsKept limit c)

-- ===== src/Distributed/Members.antt =====
-- Counting the members of disjoint sets of ordinals, for the sums that the snapshot script of
-- internal/distributed/scripts.go compares with the total.
use personalized_email_pipel.Prelude.{
  ℕ, zero, suc, ◌+◌, ◌≤◌, ◌≡◌, refl, true, false, ◌||◌, List, [], ◌∷◌, ◌++◌, arith, ◌==◌,
  if◌then◌else◌, length, length-append,
}
use personalized_email_pipel.Distributed.Redis.{has, IsDistinct}

erase : ℕ → List ℕ → List ℕ
erase x [] = []
erase x (y ∷ ys) = if y == x then ys else y ∷ erase x ys

has-erase : (x y : ℕ) (xs : List ℕ) → has y (erase x xs) ≡ true → has y xs ≡ true
unfolding erase
has-erase x y [] h = h
has-erase x y (z ∷ zs) h = ground (arith, has-erase x y zs)

has-erase_self : (x : ℕ) (xs : List ℕ) → IsDistinct xs → has x (erase x xs) ≡ false
unfolding erase
has-erase_self x [] d = refl
has-erase_self x (z ∷ zs) d = ground (arith, has-erase_self x zs d.1)

has-erase-false : (x y : ℕ) (xs : List ℕ) → has y xs ≡ false → has y (erase x xs) ≡ false
unfolding erase
has-erase-false x y [] h = h
has-erase-false x y (z ∷ zs) h = ground (arith, has-erase-false x y zs)

erase-IsDistinct : (x : ℕ) (xs : List ℕ) → IsDistinct xs → IsDistinct (erase x xs)
unfolding erase
erase-IsDistinct x [] d = d
erase-IsDistinct x (z ∷ zs) d =
    ground (arith, erase-IsDistinct x zs d.1, has-erase-false x z zs d.0)

length-erase : (x : ℕ) (xs : List ℕ) → length xs ≤ length (erase x xs) + 1
unfolding erase
length-erase x [] = omega arith
length-erase x (z ∷ zs) = ground (arith, length-erase x zs)

-- Distinct numbers from 1 to n are n at most.
pub length-le_of_span :
    (n : ℕ) (xs : List ℕ)
    → IsDistinct xs
    → ((x : ℕ) → has x xs ≡ true → (1 ≤ x) × (x ≤ n))
    → length xs ≤ n
length-le_of_span zero [] d h = omega arith
length-le_of_span zero (x ∷ xs) d h = absurd (let r = h x (ground arith) in omega arith)
length-le_of_span (suc n) xs d h = omega (
  arith,
  length-erase (suc n) xs,
  length-le_of_span n (erase (suc n) xs) (erase-IsDistinct (suc n) xs d) (λ x e.
      let r = h x (has-erase (suc n) x xs e) in
      let off = has-erase_self (suc n) xs d in ground arith),
)

pub has-append : (x : ℕ) (xs ys : List ℕ) → has x (xs ++ ys) ≡ (has x xs || has x ys)
has-append x [] ys = refl
has-append x (z ∷ zs) ys = ground (arith, has-append x zs ys)

append-IsDistinct :
    (xs ys : List ℕ)
    → IsDistinct xs
    → IsDistinct ys
    → ((x : ℕ) → has x xs ≡ true → has x ys ≡ false)
    → IsDistinct (xs ++ ys)
append-IsDistinct [] ys d e h = e
append-IsDistinct (z ∷ zs) ys d e h = (
  ground (arith, has-append z zs ys, h z),
  append-IsDistinct zs ys d.1 e (λ x m. h x (ground arith)),
)

abbrev pub union : List (List ℕ) → List ℕ
union [] = []
union (xs ∷ xss) = xs ++ union xss

-- No number is in two of the lists.
abbrev pub AreDisjoint : List (List ℕ) → Type 0
AreDisjoint [] = Unit
AreDisjoint (xs ∷ xss) =
    IsDistinct xs × ((x : ℕ) → has x xs ≡ true → has x (union xss) ≡ false) × AreDisjoint xss

abbrev pub sum_lengths : List (List ℕ) → ℕ
sum_lengths [] = 0
sum_lengths (xs ∷ xss) = length xs + sum_lengths xss

union-IsDistinct : (xss : List (List ℕ)) → AreDisjoint xss → IsDistinct (union xss)
union-IsDistinct [] d = tt
union-IsDistinct (xs ∷ xss) d = append-IsDistinct xs (union xss) d.0 (union-IsDistinct xss d.2) d.1

length-union : (xss : List (List ℕ)) → length (union xss) ≡ sum_lengths xss
length-union [] = refl
length-union (xs ∷ xss) = omega (arith, length-append xs (union xss), length-union xss)

-- Disjoint lists of numbers from 1 to n have n entries at most between them.
pub sum_lengths-le :
    (n : ℕ) (xss : List (List ℕ))
    → AreDisjoint xss
    → ((x : ℕ) → has x (union xss) ≡ true → (1 ≤ x) × (x ≤ n))
    → sum_lengths xss ≤ n
sum_lengths-le n xss d h =
    omega (arith, length-union xss, length-le_of_span n (union xss) (union-IsDistinct xss d) h)

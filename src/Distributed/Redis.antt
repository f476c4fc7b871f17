-- ===== src/Distributed/Redis.antt =====
-- What internal/distributed/scripts.go relies on in Redis, which is a service: its set and hash
-- values with the documented behaviour of SISMEMBER, SADD, SREM, SMOVE, SCARD, SMEMBERS,
-- SINTERCARD, HSET and HVALS. A member or a hash field is an ordinal, given as its number: below
-- 10 ^ 14 the Lua spelling of a number and Go's are the same text.
use personalized_email_pipel.Prelude.{
  ◌<◌, arith, ℕ, ◌+◌, ◌≡◌, Bool, true, false, ◌&&◌, ◌||◌, List, [], ◌∷◌, Option, none, some, ◌==◌,
  if◌then◌else◌, length,
}

abbrev pub has : ℕ → List ℕ → Bool
has x [] = false
has x (y ∷ ys) = (y == x) || has x ys

abbrev pub IsDistinct : List ℕ → Type 0
IsDistinct [] = Unit
IsDistinct (x ∷ xs) = (has x xs ≡ false) × IsDistinct xs

pub length_of_has : (x : ℕ) (xs : List ℕ) → has x xs ≡ true → 0 < length xs
length_of_has x [] h = cc
length_of_has x (y ∷ ys) h = omega arith

-- How many entries pass a test.
abbrev pub count_if {ℓ} : {A : Type ℓ} → (A → Bool) → List A → ℕ
count_if p [] = 0
count_if p (x ∷ xs) = (if p x then 1 else 0) + count_if p xs

pub record Redis : Type 1 where
  pub MemberSet : Type 0
  pub no_members : MemberSet
  pub sismember : MemberSet → ℕ → Bool
  pub sadd : MemberSet → ℕ → MemberSet
  pub srem : MemberSet → ℕ → MemberSet
  pub smove : MemberSet → MemberSet → ℕ → MemberSet × MemberSet
  pub scard : MemberSet → ℕ
  pub smembers : MemberSet → List ℕ
  pub sintercard : MemberSet → MemberSet → ℕ
  pub Hash : Type 0 → Type 0
  pub no_fields : (V : Type 0) → Hash V
  pub hget : (V : Type 0) → Hash V → ℕ → Option V
  pub hset : (V : Type 0) → Hash V → ℕ → V → Hash V
  pub hvals : (V : Type 0) → Hash V → List V
  -- A key that does not exist reads as an empty value.
  pub sismember-no_members : (x : ℕ) → sismember no_members x ≡ false
  pub sismember-sadd :
      (s : MemberSet) (x y : ℕ) → sismember (sadd s x) y ≡ (if x == y then true else sismember s y)
  pub sismember-srem :
      (s : MemberSet) (x y : ℕ) → sismember (srem s x) y ≡ (if x == y then false else sismember s y)
  -- SMOVE does nothing if the member is not in the source.
  pub smove_lem :
      (s t : MemberSet) (x : ℕ)
      → smove s t x ≡ (if sismember s x then (srem s x, sadd t x) else (s, t))
  pub has-smembers : (s : MemberSet) (x : ℕ) → has x (smembers s) ≡ sismember s x
  pub smembers-IsDistinct : (s : MemberSet) → IsDistinct (smembers s)
  pub scard-smembers : (s : MemberSet) → scard s ≡ length (smembers s)
  -- SINTERCARD with LIMIT 1 counts 0 exactly if no member is shared.
  pub sintercard_zero :
      (s t : MemberSet) → ((x : ℕ) → (sismember s x && sismember t x) ≡ false) → sintercard s t ≡ 0
  pub sintercard_shared :
      (s t : MemberSet) (x : ℕ) → sismember s x ≡ true → sismember t x ≡ true → sintercard s t ≡ 1
  pub hget-no_fields : (V : Type 0) (k : ℕ) → hget V (no_fields V) k ≡ none
  pub hget-hset :
      (V : Type 0) (h : Hash V) (k j : ℕ) (v : V)
      → hget V (hset V h k v) j ≡ (if k == j then some v else hget V h j)
  pub hvals-no_fields : (V : Type 0) → hvals V (no_fields V) ≡ []
  -- A new field adds one value.
  pub hvals-hset :
      (V : Type 0) (h : Hash V) (k : ℕ) (v : V) (p : V → Bool)
      → hget V h k ≡ none
      → count_if p (hvals V (hset V h k v)) ≡ (if p v then 1 else 0) + count_if p (hvals V h)

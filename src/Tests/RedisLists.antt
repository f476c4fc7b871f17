-- ===== src/Tests/RedisLists.antt =====
-- Redis's sets and hashes over lists: a value that meets the laws of `Redis`, for the tests.
use personalized_email_pipel.Prelude.{
  ℕ, ◌+◌, ◌≡◌, refl, ap, Bool, true, false, ◌&&◌, ◌||◌, List, [], ◌∷◌, Option, none, some, arith,
  ◌==◌, if◌then◌else◌, length,
}
use personalized_email_pipel.Distributed.Redis.{Redis, has, IsDistinct, count_if}

-- A set is a list of its members, some of them more than once.
abbrev without : ℕ → List ℕ → List ℕ
without x [] = []
without x (y ∷ ys) = if y == x then without x ys else y ∷ without x ys

abbrev dedup : List ℕ → List ℕ
dedup [] = []
dedup (x ∷ xs) = if has x xs then dedup xs else x ∷ dedup xs

abbrev meets : List ℕ → List ℕ → Bool
meets [] t = false
meets (x ∷ xs) t = has x t || meets xs t

pub has-cons : (s : List ℕ) (x y : ℕ) → has y (x ∷ s) ≡ (if x == y then true else has y s)
has-cons s x y = ground arith

pub has-without : (s : List ℕ) (x y : ℕ) → has y (without x s) ≡ (if x == y then false else has y s)
has-without [] x y = ground arith
has-without (z ∷ s) x y = ground (arith, has-without s x y)

pub has-dedup : (s : List ℕ) (x : ℕ) → has x (dedup s) ≡ has x s
has-dedup [] x = refl
has-dedup (z ∷ s) x = ground (arith, has-dedup s x)

pub dedup-IsDistinct : (s : List ℕ) → IsDistinct (dedup s)
dedup-IsDistinct [] = tt
dedup-IsDistinct (z ∷ s) = ground (arith, dedup-IsDistinct s, has-dedup s z)

pub meets_none : (s t : List ℕ) → ((x : ℕ) → (has x s && has x t) ≡ false) → meets s t ≡ false
meets_none [] t h = refl
meets_none (z ∷ s) t h = ground (arith, h z, meets_none s t (λ x. let k = h x in ground arith))

pub meets_some : (s t : List ℕ) (x : ℕ) → has x s ≡ true → has x t ≡ true → meets s t ≡ true
meets_some [] t x h k = cc
meets_some (z ∷ s) t x h k = ground (arith, meets_some s t x)

module _ (V : Type 0) where
  abbrev hget : List (ℕ × V) → ℕ → Option V
  hget [] k = none
  hget ((j, v) ∷ h) k = if j == k then some v else hget h k

  abbrev hremove : ℕ → List (ℕ × V) → List (ℕ × V)
  hremove k [] = []
  hremove k ((j, v) ∷ h) = if j == k then hremove k h else (j, v) ∷ hremove k h

  abbrev hset : List (ℕ × V) → ℕ → V → List (ℕ × V)
  hset h k v = (k, v) ∷ hremove k h

  abbrev hvals : List (ℕ × V) → List V
  hvals [] = []
  hvals ((j, v) ∷ h) = v ∷ hvals h

  hget-hremove :
      (h : List (ℕ × V)) (k j : ℕ) → hget (hremove k h) j ≡ (if k == j then none else hget h j)
  hget-hremove [] k j = ground arith
  hget-hremove ((i, v) ∷ h) k j = ground (arith, hget-hremove h k j)

  pub hget-hset :
      (h : List (ℕ × V)) (k j : ℕ) (v : V)
      → hget (hset h k v) j ≡ (if k == j then some v else hget h j)
  hget-hset h k j v = ground (arith, hget-hremove h k j)

  hremove_absent : (h : List (ℕ × V)) (k : ℕ) → hget h k ≡ none → hremove k h ≡ h
  hremove_absent [] k e = refl
  hremove_absent ((i, v) ∷ h) k e = ground (arith, hremove_absent h k)

  pub hvals-hset :
      (h : List (ℕ × V)) (k : ℕ) (v : V) (p : V → Bool)
      → hget h k ≡ none
      → count_if p (hvals (hset h k v)) ≡ (if p v then 1 else 0) + count_if p (hvals h)
  hvals-hset h k v p e =
      ap (λ t. (if p v then 1 else 0) + count_if p (hvals t)) (hremove_absent h k e)

abbrev pub list_redis : Redis
list_redis = record {
  MemberSet = List ℕ;
  no_members = [];
  sismember = λ s x. has x s;
  sadd = λ s x. x ∷ s;
  srem = λ s x. without x s;
  smove = λ s t x. if has x s then (without x s, x ∷ t) else (s, t);
  scard = λ s. length (dedup s);
  smembers = dedup;
  sintercard = λ s t. if meets s t then 1 else 0;
  Hash = λ V. List (ℕ × V);
  no_fields = λ V. [];
  hget = hget;
  hset = hset;
  hvals = hvals;
  sismember-no_members = λ x. refl;
  sismember-sadd = has-cons;
  sismember-srem = has-without;
  smove_lem = λ s t x. refl;
  has-smembers = has-dedup;
  smembers-IsDistinct = dedup-IsDistinct;
  scard-smembers = λ s. refl;
  sintercard_zero = λ s t h. ap (λ b. if b then 1 else 0) (meets_none s t h);
  sintercard_shared = λ s t x h k. ap (λ b. if b then 1 else 0) (meets_some s t x h k);
  hget-no_fields = λ V k. refl;
  hget-hset = hget-hset;
  hvals-no_fields = λ V. refl;
  hvals-hset = hvals-hset;
}

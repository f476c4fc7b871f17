-- ===== src/Campaign/Metrics/Totals.antt =====
-- internal/campaign/metrics.go: what a summary says of the ordinals that were added to it.
use personalized_email_pipel.Prelude.{
  ℕ, ◌+◌, ◌≤◌, ◌<◌, ◌≡◌, refl, subst, List, [], ◌∷◌, ◌++◌, ltb, length, arith, ◌⊎◌, inl, inr,
  Bool-cases, Option, some, ◌>>=◌,
}
use personalized_email_pipel.Prelude.Int64.{sign_bit}
use personalized_email_pipel.Campaign.Metrics.{
  ReasonSummary, zero_summary, add_to_summary, replace_largest-some,
}

-- The summary of one reason, after a list of ordinals: `none` if a call panics.
abbrev pub add_all : ReasonSummary → List ℕ → ℕ → Option ReasonSummary
add_all s [] limit = some s
add_all s (o ∷ os) limit = add_to_summary s o limit >>= λ s'. add_all s' os limit

-- `n` ordinals have been added.
pub record IsExact (s : ReasonSummary) (n limit : ℕ) : Type 0 where
  pub counted : s.count ≡ n
  pub split : length s.ordinals + s.omitted ≡ n
  pub kept : length s.ordinals ≤ limit
  pub filled : (s.omitted ≡ 0) ⊎ (length s.ordinals ≡ limit)

length-snoc : (os : List ℕ) (o : ℕ) → length (os ++ o ∷ []) ≡ length os + 1
length-snoc [] o = refl
length-snoc (x ∷ os) o = omega (arith, length-snoc os o)

add_to_summary-IsExact :
    (s : ReasonSummary) (o n limit : ℕ)
    → 0 < limit
    → n < sign_bit
    → IsExact s n limit
    → (s' : ReasonSummary) × (add_to_summary s o limit ≡ some s') × IsExact s' (n + 1) limit
unfolding add_to_summary
add_to_summary-IsExact s o n limit room h e = elim (Bool-cases (ltb (length s.ordinals) limit)) [
  | inl t ↦ rw t (
    _,
    refl,
    record {
      counted = ground (arith, e.counted);
      split = ground (arith, e.split, length-snoc s.ordinals o);
      kept = ground (arith, length-snoc s.ordinals o);
      filled = inl (ground (arith, e.filled));
    },
  )
  | inr t ↦
      let (ys, same, k) = replace_largest-some s.ordinals o (ground (arith, room, t)) in
      rw (t, k)
        (
          _,
          refl,
          record {
            counted = ground (arith, e.counted);
            split = ground (arith, e.split, same);
            kept = ground (arith, e.kept, same);
            filled = inr (ground (arith, e.kept, same));
          },
        )
]

add_all-IsExact_from :
    (s : ReasonSummary) (os : List ℕ) (n limit : ℕ)
    → 0 < limit
    → n + length os < sign_bit
    → IsExact s n limit
    → (s' : ReasonSummary) × (add_all s os limit ≡ some s') × IsExact s' (n + length os) limit
add_all-IsExact_from s [] n limit room h e =
    (s, refl, subst (λ k. IsExact s k limit) (omega arith) e)
add_all-IsExact_from s (o ∷ os) n limit room h e =
    let (s1, e1, x1) = add_to_summary-IsExact s o n limit room (omega (arith, h)) e in
    let (s2, e2, x2) = add_all-IsExact_from s1 os (n + 1) limit room (omega (arith, h)) x1 in
    (s2, rw e1 e2, subst (λ k. IsExact s2 k limit) (omega arith) x2)

-- Adding fewer than 2 ^ 63 ordinals to the zero summary under a positive limit never panics, and
-- afterwards the summary's count is their number, the kept and the omitted ones make up that number,
-- no more than the limit are kept, and none is omitted before the limit is reached.
pub add_all-IsExact :
    (os : List ℕ) (limit : ℕ)
    → 0 < limit
    → length os < sign_bit
    → (s : ReasonSummary) × (add_all zero_summary os limit ≡ some s) × IsExact s (length os) limit
add_all-IsExact os limit room h =
    let (s, e, x) =
      add_all-IsExact_from zero_summary os 0 limit room (omega (arith, h))
        (record { counted = refl; split = refl; kept = omega arith; filled = inl refl }) in
    (s, e, subst (λ k. IsExact s k limit) (omega arith) x)

-- ===== src/RecipientCsv/Fixture/Totals.antt =====
-- internal/recipientcsv/fixture.go: how many records a generated source gives, and which.
use personalized_email_pipel.Prelude.{
  ℕ, zero, suc, ◌+◌, ◌/◌, ◌≤◌, ◌<◌, ◌≡◌, refl, ◌∙◌, subst, true, List, [], ◌∷◌, none, some, arith,
  Bool-cases, inl, inr,
}
use personalized_email_pipel.Prelude.Int64.{sign_bit, lt64_exact}
use personalized_email_pipel.RecipientCsv.Fixture.{
  Random, FixtureOptions, Record, GeneratedSource, next, advance, drain, drain_step, Drained,
  is_odd, source_of, with_algorithm, new_generated_source,
}

module _ (M : Random) where
  -- The records of ordinals from `o`, `n` of them: each is the one that `advance` makes.
  abbrev pub Counts : ℕ → ℕ → List Record → Type 0
  Counts o zero [] = Unit {0}
  Counts o zero (r ∷ rs) = ⊥
  Counts o (suc n) [] = ⊥
  Counts o (suc n) (r ∷ rs) = (r.ordinal ≡ o) × (r.reason ≡ none) × Counts (o + 1) n rs

  -- The source stands before its `n` last records.
  record Stands (s : GeneratedSource M) (n : ℕ) : Type 0 where
    room : s.summary.count + 1 < sign_bit
    left : s.next_ordinal + n ≡ s.summary.count + 1
    begun : 1 ≤ s.next_ordinal
    halves : s.summary.named_count ≡ s.next_ordinal / 2
    total : s.summary.named_count + s.summary.fallback_count + 1 ≡ s.next_ordinal

  next_end : (s : GeneratedSource M) → Stands s 0 → next M s ≡ (s, none)
  unfolding next
  next_end s h =
      rw
        (lt64_exact s.summary.count s.next_ordinal (omega (arith, h.room))
          (omega (arith, h.room, h.left)))
        (ground (arith, h.left))

  next_more :
      (s : GeneratedSource M) (n : ℕ)
      → Stands s (suc n)
      → next M s ≡ ((advance M s).0, some (advance M s).1)
  unfolding next
  next_more s n h =
      rw
        (lt64_exact s.summary.count s.next_ordinal (omega (arith, h.room))
          (omega (arith, h.room, h.left)))
        (ground (arith, h.left))

  advance-Stands : (s : GeneratedSource M) (n : ℕ) → Stands s (suc n) → Stands (advance M s).0 n
  advance-Stands s n h = elim (Bool-cases (is_odd s.next_ordinal)) [
    | inl e ↦ rw e (record {
      room = h.room;
      left = omega (arith, h.left, h.room);
      begun = omega (arith, h.left, h.room);
      halves = ground (arith, h.left, h.room, h.halves, e);
      total = omega (arith, h.left, h.room, h.total);
    })
    | inr e ↦ rw e (record {
      room = h.room;
      left = omega (arith, h.left, h.room);
      begun = omega (arith, h.left, h.room);
      halves = ground (arith, h.left, h.room, h.halves, e);
      total = omega (arith, h.left, h.room, h.total);
    })
  ]

  -- The loop has ended at the end of the source, with `n` records behind it.
  record IsDrained (s : GeneratedSource M) (n : ℕ) (d : Drained M) : Type 0 where
    at_end : d.ended ≡ true
    listed : Counts s.next_ordinal n d.records
    stands : Stands d.source 0
    same_count : d.source.summary.count ≡ s.summary.count

  advance_count : (s : GeneratedSource M) → (advance M s).0.summary.count ≡ s.summary.count
  advance_count s = elim (Bool-cases (is_odd s.next_ordinal)) [
    | inl e ↦ rw e refl
    | inr e ↦ rw e refl
  ]

  advance_next :
      (s : GeneratedSource M) (n : ℕ)
      → Stands s (suc n)
      → (advance M s).0.next_ordinal ≡ s.next_ordinal + 1
  advance_next s n h = omega (arith, h.left, h.room)

  drain-IsDrained : (n : ℕ) (s : GeneratedSource M) → Stands s n → IsDrained s n (drain M (suc n) s)
  unfolding drain drain_step
  drain-IsDrained zero s h =
      rw (next_end s h) (record { at_end = refl; listed = tt; stands = h; same_count = refl })
  drain-IsDrained (suc n) s h =
      let d = drain-IsDrained n (advance M s).0 (advance-Stands s n h) in
      rw (next_more s n h) (record {
        at_end = d.at_end;
        listed = (
          refl,
          refl,
          subst (λ o. Counts o n (drain M (suc n) (advance M s).0).records) (advance_next s n h)
              d.listed,
        );
        stands = d.stands;
        same_count = d.same_count ∙ advance_count s;
      })

  source_of-IsDrained :
      (opts : FixtureOptions)
      → opts.count + 1 < sign_bit
      → let d = drain M (opts.count + 1) (source_of M opts) in
        (d.ended ≡ true)
        × Counts 1 opts.count d.records
        × (d.source.summary.named_count ≡ (opts.count + 1) / 2)
        × (d.source.summary.fallback_count ≡ opts.count / 2)
  source_of-IsDrained opts h =
      let s = source_of M opts in
      let d = drain-IsDrained opts.count s (record {
        room = h;
        left = omega arith;
        begun = omega arith;
        halves = refl;
        total = refl;
      }) in
      (
        subst (λ k. (drain M k s).ended ≡ true) (omega arith) d.at_end,
        subst (λ k. Counts 1 opts.count (drain M k s).records) (omega arith) d.listed,
        subst (λ k. (drain M k s).source.summary.named_count ≡ (opts.count + 1) / 2) (omega arith)
            (named_half (drain M (suc opts.count) s) opts d.stands d.same_count),
        subst (λ k. (drain M k s).source.summary.fallback_count ≡ opts.count / 2) (omega arith)
            (fallback_half (drain M (suc opts.count) s) opts d.stands d.same_count),
      )
    where
      named_half :
          (d : Drained M) (opts : FixtureOptions)
          → Stands d.source 0
          → d.source.summary.count ≡ opts.count
          → d.source.summary.named_count ≡ (opts.count + 1) / 2
      named_half d opts st e = omega (arith, st.left, st.halves)

      fallback_half :
          (d : Drained M) (opts : FixtureOptions)
          → Stands d.source 0
          → d.source.summary.count ≡ opts.count
          → d.source.summary.fallback_count ≡ opts.count / 2
      fallback_half d opts st e = omega (arith, st.left, st.halves, st.total)

  source_shape :
      (opts : FixtureOptions) (s : GeneratedSource M)
      → new_generated_source M opts ≡ some s
      → s ≡ source_of M (with_algorithm M opts)
  unfolding new_generated_source
  source_shape opts s h = ground arith

  -- A source that NewGeneratedSource makes gives one record for each number from 1 to the count, in
  -- that order and without a reason; one round more than the count is enough for the loop over it;
  -- and the summary then counts the odd records as named and the even ones as not, if the count is
  -- below 2 ^ 63 - 1.
  pub drain-new_generated_source :
      (opts : FixtureOptions) (s : GeneratedSource M)
      → new_generated_source M opts ≡ some s
      → opts.count + 1 < sign_bit
      → let d = drain M (opts.count + 1) s in
        (d.ended ≡ true)
        × Counts 1 opts.count d.records
        × (d.source.summary.named_count ≡ (opts.count + 1) / 2)
        × (d.source.summary.fallback_count ≡ opts.count / 2)
  drain-new_generated_source opts s e h =
      rw (source_shape opts s e) (source_of-IsDrained (with_algorithm M opts) h)

-- ===== src/RecipientCsv/Fixture/Written.antt =====
-- internal/recipientcsv/fixture.go: what Generate has written when it returns no error.
use personalized_email_pipel.Prelude.{
  ◌+◌, ◌/◌, ◌<◌, ◌≡◌, refl, ap, ◌∙◌, List, Option, none, some, arith,
}
use personalized_email_pipel.Prelude.Int64.{sign_bit}
use personalized_email_pipel.RecipientCsv.Fixture.Totals.{Counts, drain-new_generated_source}
use personalized_email_pipel.RecipientCsv.Fixture.{
  Random, CsvWriter, FixtureOptions, FixtureSummary, Record, GeneratedSource, new_generated_source,
  drain, write_rows, header, rows_of, flushed, with_summary, generate_from, generate,
}

module _ (M : Random) (W : CsvWriter) where
  -- The output holds the header and one row for each of the numbers from 1 to the count, all written and
  -- flushed without an error, and the summary counts the odd and the even ones.
  pub record IsFixture (opts : FixtureOptions) (start out : W.Output) (summary : FixtureSummary)
      : Type 0 where
    pub records : List Record
    pub numbered : Counts M 1 opts.count records
    pub before_flush : W.Output
    pub written :
        write_rows M W (W.write start (header M W)) (rows_of M W records) ≡ some before_flush
    pub complete : W.flush before_flush ≡ some out
    pub named : summary.named_count ≡ (opts.count + 1) / 2
    pub unnamed : summary.fallback_count ≡ opts.count / 2

  summary-some :
      (f : Option W.Output) (summary given : FixtureSummary) (out : W.Output)
      → with_summary M W given f ≡ some (summary, out)
      → (summary ≡ given) × (f ≡ some out)
  unfolding with_summary
  summary-some none summary given out h = ground (arith, h)
  summary-some (some o) summary given out h = (cc, cc)

  flushed-some :
      (rows : Option W.Output) (summary given : FixtureSummary) (out : W.Output)
      → flushed M W rows given ≡ some (summary, out)
      → (summary ≡ given) × (o : W.Output) × (rows ≡ some o) × (W.flush o ≡ some out)
  unfolding flushed
  flushed-some none summary given out h = ground (arith, h)
  flushed-some (some o) summary given out h =
      let (same, complete) = summary-some (W.flush o) summary given out h in
      (same, o, refl, complete)

  generate_from-IsFixture :
      (opts : FixtureOptions) (start out : W.Output) (summary : FixtureSummary)
      (o : Option (GeneratedSource M))
      → new_generated_source M opts ≡ o
      → opts.count + 1 < sign_bit
      → generate_from M W start o (opts.count + 1) ≡ some (summary, out)
      → IsFixture opts start out summary
  unfolding generate_from
  generate_from-IsFixture opts start out summary none made short h = ground (arith, h)
  generate_from-IsFixture opts start out summary (some s) made short h =
      let d = drain M (opts.count + 1) s in
      let (ended, listed, named, unnamed) = drain-new_generated_source M opts s made short in
      let (same, o, written, complete) =
        flushed-some (write_rows M W (W.write start (header M W)) (rows_of M W d.records)) summary
          d.source.summary out h in
      record {
        records = d.records;
        numbered = listed;
        before_flush = o;
        written = written;
        complete = complete;
        named = ap (λ (x : FixtureSummary). x.named_count) same ∙ named;
        unnamed = ap (λ (x : FixtureSummary). x.fallback_count) same ∙ unnamed;
      }

  pub generate-IsFixture :
      (opts : FixtureOptions) (start out : W.Output) (summary : FixtureSummary)
      → opts.count + 1 < sign_bit
      → generate M W start opts ≡ some (summary, out)
      → IsFixture opts start out summary
  unfolding generate
  generate-IsFixture opts start out summary short h =
      generate_from-IsFixture opts start out summary (new_generated_source M opts) refl short h

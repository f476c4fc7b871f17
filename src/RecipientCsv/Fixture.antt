-- ===== src/RecipientCsv/Fixture.antt =====
-- internal/recipientcsv/fixture.go: the generated source and the generator of fixture files. The
-- random numbers of math/rand/v2 and the writer of encoding/csv are parameters.
pub mod Totals
pub mod Written
use personalized_email_pipel.Prelude.{
  ℕ, zero, suc, ◌+◌, ◌-◌, ◌/◌, ◌%◌, Bool, true, false, not, ◌||◌, List, [], ◌∷◌, ◌++◌, Option, none,
  some, ltb, leb, ◌==◌, if◌then◌else◌, length,
}
use personalized_email_pipel.Prelude.Int64.{inc64, lt64, is_negative}
use personalized_email_pipel.Campaign.Model.{Text, Reason}
use personalized_email_pipel.Campaign.Text.{codes, text_eq}

abbrev pub fixture_algorithm_v1 : Text
fixture_algorithm_v1 = codes "v1"

abbrev pub fixture_state_two : ℕ
fixture_state_two = 0x9e3779b97f4a7c15

-- rand.NewPCG with rand.New, and Uint64.
pub record Random : Type 1 where
  pub Rng : Type 0
  pub new_pcg : ℕ → ℕ → Rng
  pub uint64 : Rng → ℕ × Rng

pub record FixtureOptions : Type 0 where
  pub algorithm : Text
  pub seed : ℕ
  pub count : ℕ

pub record FixtureSummary : Type 0 where
  pub algorithm : Text
  pub seed : ℕ
  pub count : ℕ
  pub named_count : ℕ
  pub fallback_count : ℕ

-- Record of reader.go.
pub record Record : Type 0 where
  pub ordinal : ℕ
  pub email : Text
  pub name : Text
  pub reason : Option Reason

-- The verbs %0<width>d and %0<width>x of fmt, for a number that is not negative: 20 digits are
-- enough for 64 bits.
abbrev digit : ℕ → ℕ
digit d = if ltb d 10 then b'0' + d else b'a' + (d - 10)

unfoldable pub digits_from : ℕ → ℕ → ℕ → Text
digits_from base zero n = []
digits_from base (suc fuel) n =
    let rest = digits_from base fuel (n / base) in
    if ltb n base then digit n ∷ [] else rest ++ digit (n % base) ∷ []

unfoldable pub zeros : ℕ → Text
zeros zero = []
zeros (suc n) = b'0' ∷ zeros n

unfoldable pub padded : ℕ → ℕ → ℕ → Text
unfolding digits_from zeros
padded width base n = let s = digits_from base 20 n in zeros (width - length s) ++ s

unfoldable pub name_of : ℕ → Text
name_of ordinal = codes "Customer " ++ padded 6 10 ordinal

unfoldable pub email_of : ℕ → ℕ → Text
email_of ordinal random =
    codes "recipient-"
    ++ padded 6 10 ordinal
    ++ codes "-"
    ++ padded 16 16 random
    ++ codes "@example.test"

abbrev is_odd : ℕ → Bool
is_odd n = n % 2 == 1

module _ (M : Random) where
  pub record GeneratedSource : Type 0 where
    pub rng : M.Rng
    pub summary : FixtureSummary
    pub next_ordinal : ℕ

  abbrev pub source_of : FixtureOptions → GeneratedSource
  source_of opts = record {
    rng = M.new_pcg opts.seed fixture_state_two;
    summary = record {
      algorithm = opts.algorithm;
      seed = opts.seed;
      count = opts.count;
      named_count = 0;
      fallback_count = 0;
    };
    next_ordinal = 1;
  }

  abbrev pub with_algorithm : FixtureOptions → FixtureOptions
  with_algorithm opts = record opts {
    algorithm = if length opts.algorithm == 0 then fixture_algorithm_v1 else opts.algorithm;
  }

  -- NewGeneratedSource.
  unfoldable pub new_generated_source : FixtureOptions → Option GeneratedSource
  new_generated_source given =
      let opts = with_algorithm given in
      if not (text_eq opts.algorithm fixture_algorithm_v1) || is_negative opts.count
      then none
      else some (source_of opts)

  -- The source and the record of one call of Next that is not at the end.
  abbrev pub advance : GeneratedSource → GeneratedSource × Record
  advance s =
      let ordinal = s.next_ordinal in
      let (random, rng) = M.uint64 s.rng in
      (
        record {
          rng = rng;
          summary =
              if is_odd ordinal
              then record s.summary { named_count = inc64 s.summary.named_count }
              else record s.summary { fallback_count = inc64 s.summary.fallback_count };
          next_ordinal = inc64 ordinal;
        },
        record {
          ordinal = ordinal;
          email = email_of ordinal random;
          name = if is_odd ordinal then name_of ordinal else [];
          reason = none;
        },
      )

  -- GeneratedSource.Next.
  unfoldable pub next : GeneratedSource → GeneratedSource × Option Record
  next s =
      let (s', r) = advance s in
      if lt64 s.summary.count s.next_ordinal then (s, none) else (s', some r)

  -- The loop `for record, ok := source.Next(); ok; …`, over at most `fuel` records, with `false` if
  -- the fuel ran out before the source ended.
  pub record Drained : Type 0 where
    pub records : List Record
    pub source : GeneratedSource
    pub ended : Bool

  abbrev add_front : Record → Drained → Drained
  add_front r d = record d { records = r ∷ d.records }

  drain_step : GeneratedSource → Option Record → Drained → Drained
  drain_step s none rest = record { records = []; source = s; ended = true }
  drain_step s (some r) rest = add_front r rest

  unfoldable pub drain : ℕ → GeneratedSource → Drained
  unfolding drain_step
  drain zero s = record { records = []; source = s; ended = false }
  drain (suc fuel) s = let (s', r) = next s in let rest = drain fuel s' in drain_step s' r rest

-- What Generate uses of csv.NewWriter: a write may fail, and so may the flush.
pub record CsvWriter : Type 1 where
  pub Output : Type 0
  pub write : Output → List Text → Option Output
  pub flush : Output → Option Output

module _ (M : Random) (W : CsvWriter) where
  open W use {Output, write, flush}

  -- The rows, one after another: `none` once a write has failed.
  unfoldable pub write_rows : Option Output → List (List Text) → Option Output
  write_rows none rows = none
  write_rows (some out) [] = some out
  write_rows (some out) (row ∷ rows) = write_rows (write out row) rows

  abbrev pub row_of : Record → List Text
  row_of r = r.email ∷ r.name ∷ []

  abbrev pub rows_of : List Record → List (List Text)
  rows_of [] = []
  rows_of (r ∷ rs) = row_of r ∷ rows_of rs

  abbrev pub header : List Text
  header = codes "email" ∷ codes "name" ∷ []

  with_summary : FixtureSummary → Option Output → Option (FixtureSummary × Output)
  with_summary summary none = none
  with_summary summary (some out) = some (summary, out)

  flushed : Option Output → FixtureSummary → Option (FixtureSummary × Output)
  flushed none summary = none
  flushed (some out) summary = with_summary summary (flush out)

  generate_from : Output → Option (GeneratedSource M) → ℕ → Option (FixtureSummary × Output)
  generate_from out none fuel = none
  generate_from out (some source) fuel =
      let d = drain M fuel source in
      flushed (write_rows (write out header) (rows_of d.records)) d.source.summary

  -- Generate, whose loop makes one round for each record and one more: `none` is an error.
  unfoldable pub generate : Output → FixtureOptions → Option (FixtureSummary × Output)
  unfolding generate_from flushed with_summary
  generate out opts = generate_from out (new_generated_source M opts) (opts.count + 1)

-- ===== src/Command/LocalFile/Reports.antt =====
-- cmd/email-pipeline: the report of a local run over any file.
use personalized_email_pipel.Prelude.{
  ℕ, zero, suc, ◌+◌, ◌≤◌, ◌<◌, ◌≡◌, refl, subst, sym, ◌∙◌, Bool, true, false, List, [], ◌∷◌, Option,
  none, some, if◌then◌else◌, length, arith,
}
use personalized_email_pipel.Prelude.Int64.{sign_bit, inc64_exact}
use personalized_email_pipel.Campaign.Model.{validate, derive_outcome}
use personalized_email_pipel.Campaign.Report.Runs.{marshal_report-run}
use personalized_email_pipel.Campaign.Report.{
  RunReport, IsLocalMode, document_of, marshal_report, report_of, report_holds,
  valid_optional_evidence,
}
use personalized_email_pipel.Campaign.Runner.Books.{SourceAscends, SourceAscends-mono}
use personalized_email_pipel.Campaign.Runner.{run_turns, is_running}
use personalized_email_pipel.Campaign.Loop.{Next, gives, fails, ends, initial_loop}
use personalized_email_pipel.Command.LocalFile.{
  LocalRun, header_report, source_record, after_next, source_from, finished_report, run_source,
  run_reader, run_local_file,
}
use personalized_email_pipel.RecipientCsv.Reader.Numbering.{
  Numbers, next_of-Numbers, new_reader_starts,
}
use personalized_email_pipel.RecipientCsv.Reader.{
  Slice, Csv, Reader, NextAnswer, next_failed, next_end, next_panics, next_record, next_of,
  new_reader,
}

header_marshalled : marshal_report header_report ≡ some (document_of header_report)
unfolding marshal_report report_holds valid_optional_evidence validate derive_outcome
header_marshalled = refl

-- A report that is accepted, or none because Run goes on.
abbrev pub Reports : LocalRun → Option (List Next) → Option RunReport → Type 0
Reports run source none =
    (xs : List Next) × (source ≡ some xs)
    × (is_running (run_turns run.config (initial_loop xs) run.turns) ≡ true)
Reports run source (some r) = marshal_report r ≡ some (document_of r)

finished_report-Reports :
    (run : LocalRun) (xs : List Next)
    → SourceAscends 0 xs
    → length xs < sign_bit
    → IsLocalMode run.mode
    → Reports run (some xs) (finished_report run (run_turns run.config (initial_loop xs) run.turns))
finished_report-Reports run xs a short l =
    told (is_running (run_turns run.config (initial_loop xs) run.turns)) refl
  where
    told :
        (b : Bool)
        → is_running (run_turns run.config (initial_loop xs) run.turns) ≡ b
        → Reports run (some xs) (
            if b
            then none
            else some
                (record (report_of run.config
                  (run_turns run.config (initial_loop xs) run.turns)
                  run.elapsed
                  run.peak
                  run.response_bound
                  run.measured) { mode = run.mode }))
    told true e = (xs, refl, e)
    told false e =
        marshal_report-run run.config xs run.turns run.mode run.elapsed run.peak run.response_bound
          run.measured a short e l

run_source-Reports :
    (run : LocalRun) (source : Option (List Next)) (xs : List Next)
    → source ≡ some xs
    → SourceAscends 0 xs
    → length xs < sign_bit
    → IsLocalMode run.mode
    → Reports run source (run_source run source)
unfolding run_source
run_source-Reports run (some ys) xs e a short l =
    let q : xs ≡ ys = cc in
    finished_report-Reports run ys (subst (SourceAscends 0) q a)
      (subst (λ z. length z < sign_bit) q short) l
run_source-Reports run none xs e a short l = ground arith

module _ (C : Csv) where
  -- The source is known, its ordinals ascend from behind `o`, and it has `fuel` answers at most.
  abbrev IsKnown : ℕ → ℕ → Option (List Next) → Type 0
  IsKnown o fuel s =
      (xs : List Next) × (s ≡ some xs) × SourceAscends (o + 1) xs × (length xs ≤ fuel)

  after_next-IsKnown :
      (o n fuel : ℕ) (a : Reader × NextAnswer)
      → Numbers o n a
      → n ≤ fuel
      → o + suc fuel < sign_bit
      → ((r : Reader)
          → length r.input + 1 ≤ fuel
          → r.ordinal + fuel < sign_bit
          → IsKnown r.ordinal fuel (source_from C fuel r))
      → IsKnown o (suc fuel) (after_next C a.1 (source_from C fuel a.0))
  after_next-IsKnown o n fuel (r, next_failed) k h small later = (fails ∷ [], refl, tt, omega arith)
  after_next-IsKnown o n fuel (r, next_end) k h small later = (ends ∷ [], refl, tt, omega arith)
  after_next-IsKnown o n fuel (r, next_panics) k h small later = absurd k
  after_next-IsKnown o n fuel (r, next_record x) (e, q, shorter) h small later =
      let up = inc64_exact o (omega arith) in
      let (xs, known, ascends, short) = later r (omega (arith, shorter)) (omega (arith, q, up)) in
      (
        gives (source_record x) ∷ xs,
        rw known refl,
        (omega (arith, e, up), subst (λ k. SourceAscends (k + 1) xs) (q ∙ sym e) ascends),
        omega (arith, short),
      )

  source_from-IsKnown :
      (fuel : ℕ) (r : Reader)
      → length r.input + 1 ≤ fuel
      → r.ordinal + fuel < sign_bit
      → IsKnown r.ordinal fuel (source_from C fuel r)
  unfolding source_from
  source_from-IsKnown zero r h small = absurd (omega arith)
  source_from-IsKnown (suc fuel) r h small =
      after_next-IsKnown r.ordinal (length r.input) fuel (next_of C r) (next_of-Numbers C r)
        (omega arith) small (source_from-IsKnown fuel)

  -- What the report is about: the answers of a reader, or nothing without one.
  abbrev pub source_of_reader : Option Reader → Option (List Next)
  source_of_reader none = none
  source_of_reader (some r) = source_from C (length r.input + 1) r

  run_reader-Reports :
      (run : LocalRun) (o : Option Reader) (n : ℕ)
      → ((r : Reader) → o ≡ some r → (r.ordinal ≡ 0) × (length r.input ≤ n))
      → n + 1 < sign_bit
      → IsLocalMode run.mode
      → Reports run (source_of_reader o) (run_reader C run o)
  unfolding run_reader
  run_reader-Reports run none n starts small l = header_marshalled
  run_reader-Reports run (some r) n starts small l =
      let (zeroth, fits) = starts r refl in
      let (xs, known, ascends, short) =
        source_from-IsKnown (length r.input + 1) r (omega arith) (omega (arith, zeroth, fits)) in
      run_source-Reports run (source_from C (length r.input + 1) r) xs known
        (SourceAscends-mono 0 (r.ordinal + 1) xs (omega arith) ascends) (omega (arith, short, fits))
        l

  -- The report of a local dry run over a file is never refused, whatever bytes the file holds, in
  -- whatever fragments they come and wherever reading fails, whatever the workers and the signals do,
  -- the header included: either there is a report, and MarshalReport accepts it, or Run still goes on
  -- behind the given rounds, over a source that is known: no call of Next panics. The file comes in
  -- fewer than 2 ^ 63 - 1 fragments.
  pub run_local_file-Reports :
      (run : LocalRun) (input : List Slice)
      → length input + 1 < sign_bit
      → IsLocalMode run.mode
      → Reports run (source_of_reader (new_reader C input)) (run_local_file C run input)
  unfolding run_local_file
  run_local_file-Reports run input small l =
      run_reader-Reports run (new_reader C input) (length input)
        (λ r e. new_reader_starts C input r e) small l

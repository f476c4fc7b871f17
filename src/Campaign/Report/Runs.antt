-- ===== src/Campaign/Report/Runs.antt =====
-- The reports of the runs of internal/campaign/runner.go.
use personalized_email_pipel.Prelude.{
  ℕ, ◌<◌, ◌≡◌, refl, true, false, List, Option, none, some, arith, length,
}
use personalized_email_pipel.Prelude.Int64.{sign_bit}
use personalized_email_pipel.Campaign.Report.Refusals.{marshal_report-some}
use personalized_email_pipel.Campaign.Report.{
  report_of, ModeEvidence, IsLocalMode, valid_optional_evidence, document_of, marshal_report,
  scope_fits,
}
use personalized_email_pipel.Campaign.Runner.Books.{SourceAscends}
use personalized_email_pipel.Campaign.Runner.Rounds.{run_turns-IsBalanced}
use personalized_email_pipel.Campaign.Runner.Scopes.{FitsScope, run_turns-FitsScope}
use personalized_email_pipel.Campaign.Runner.{is_running, run_turns}
use personalized_email_pipel.Campaign.Loop.{Loop, Next, Turn, RunConfig, initial_loop}

local_evidence :
    (cfg : RunConfig) (s : Loop) (mode : Option ModeEvidence) (e p b m : ℕ)
    → IsLocalMode mode
    → FitsScope s
    → (valid_optional_evidence (record (report_of cfg s e p b m) { mode = mode }) ≡ true)
      × (scope_fits s.fatal s.scope ≡ true)
unfolding valid_optional_evidence report_of
local_evidence cfg s none e p b m h f = ground arith
local_evidence cfg s (some mode) e p b m h f = ground arith

-- The report of a finished local run, over a source whose ordinals ascend and with fewer than 2 ^ 63
-- records, is never refused, with no mode or with the mode of a local dry run: a run that was
-- cancelled or whose source failed, and any order of results, included.
pub marshal_report-run :
    (cfg : RunConfig) (source : List Next) (ts : List Turn) (mode : Option ModeEvidence)
    (elapsed peak bound measured : ℕ)
    → SourceAscends 0 source
    → length source < sign_bit
    → is_running (run_turns cfg (initial_loop source) ts) ≡ false
    → IsLocalMode mode
    → let r =
        record (report_of cfg
          (run_turns cfg (initial_loop source) ts)
          elapsed
          peak
          bound
          measured) { mode = mode } in
      marshal_report r ≡ some (document_of r)
marshal_report-run cfg source ts mode elapsed peak bound measured a h e l =
    let s = run_turns cfg (initial_loop source) ts in
    let (b, v, st) = run_turns-IsBalanced cfg source ts a h e in
    let (ev, sc) =
      local_evidence cfg s mode elapsed peak bound measured l (run_turns-FitsScope cfg source ts) in
    marshal_report-some _ (
      unfold report_of in
      record {
        evidence = ev;
        valid_counts = v;
        started_split = ground (arith, b);
        outcome_derived = refl;
        scope_fitting = sc;
      })

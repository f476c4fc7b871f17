-- ===== src/Command/Run/Inbox.antt =====
-- cmd/email-pipeline/run_command.go: the report of a local run with the test inbox.
use personalized_email_pipel.Prelude.{
  ℕ, zero, suc, ◌+◌, ◌<◌, ◌≡◌, ◌↔◌, refl, ◌∙◌, true, false, List, [], ◌∷◌, some, arith, length,
}
use personalized_email_pipel.Prelude.Int64.{sign_bit}
use personalized_email_pipel.Campaign.Accounting.{IsBalanced}
use personalized_email_pipel.Campaign.Loop.{Loop, Next, initial_loop}
use personalized_email_pipel.Campaign.Report.Refusals.{marshal_report_iff, marshal_report-some}
use personalized_email_pipel.Campaign.Report.{
  ReportDocument, TestDeliveryEvidence, ModeEvidence, backend_local, sink_test_inbox,
  delivery_agrees, valid_optional_evidence, scope_fits, marshal_report, document_of, report_of,
}
use personalized_email_pipel.Campaign.Runner.Books.{SourceAscends}
use personalized_email_pipel.Campaign.Runner.Rounds.{run_turns-IsBalanced}
use personalized_email_pipel.Campaign.Runner.Scopes.{FitsScope, run_turns-FitsScope}
use personalized_email_pipel.Campaign.Runner.{run_turns, is_running}
use personalized_email_pipel.Command.LocalFile.{LocalRun}
use personalized_email_pipel.Command.Run.{tally, returned_deliveries, inbox_report}
use personalized_email_pipel.TestInbox.{
  DeliveryStatus, delivery_confirmed, delivery_rejected, delivery_transport, delivery_indeterminate,
  delivery_other,
}

-- The four counters of deliveries, together.
abbrev sum_of : TestDeliveryEvidence → ℕ
sum_of e = e.confirmed + e.rejected + e.transport + e.indeterminate

sum_of-one :
    (s : DeliveryStatus) (ss : List DeliveryStatus)
    → length ss + 1 < sign_bit
    → sum_of (tally ss) ≡ length ss
    → sum_of (tally (s ∷ ss)) ≡ length ss + 1
unfolding tally
sum_of-one delivery_confirmed ss h e = omega (arith, h, e)
sum_of-one delivery_rejected ss h e = omega (arith, h, e)
sum_of-one delivery_transport ss h e = omega (arith, h, e)
sum_of-one delivery_indeterminate ss h e = omega (arith, h, e)
sum_of-one delivery_other ss h e = omega (arith, h, e)

sum_of-tally : (ss : List DeliveryStatus) → length ss < sign_bit → sum_of (tally ss) ≡ length ss
unfolding tally
sum_of-tally [] h = omega arith
sum_of-tally (s ∷ ss) h =
    sum_of-one s ss (omega (arith, h)) (sum_of-tally ss (omega (arith, h))) ∙ omega arith

length-returned_deliveries :
    (deliveries : ℕ → DeliveryStatus) (n : ℕ) → length (returned_deliveries deliveries n) ≡ n
unfolding returned_deliveries
length-returned_deliveries deliveries zero = refl
length-returned_deliveries deliveries (suc n) =
    omega (arith, length-returned_deliveries deliveries n)

started_few :
    (s : Loop)
    → IsBalanced s.counts
    → s.started ≡ s.counts.completed + s.counts.failed
    → s.started < sign_bit
started_few s b e = ground (arith, b, e)

abbrev pub inbox_mode : ModeEvidence
inbox_mode = record { backend = backend_local; sink = sink_test_inbox }

agreeing :
    (run : LocalRun) (deliveries : ℕ → DeliveryStatus) (s : Loop)
    → valid_optional_evidence (inbox_report run inbox_mode deliveries s) ≡ true
    → delivery_agrees (tally (returned_deliveries deliveries s.started)) s.counts ≡ true
unfolding valid_optional_evidence report_of
agreeing run deliveries s h = ground (arith, h)

-- The evidence counts a confirmed delivery for each completed recipient, and one that is not confirmed
-- for each failed one.
abbrev pub Agrees : TestDeliveryEvidence → Loop → Type 0
Agrees e s =
    (e.confirmed ≡ s.counts.completed)
    × (e.rejected + e.transport + e.indeterminate ≡ s.counts.failed)

Agrees-iff :
    (e : TestDeliveryEvidence) (s : Loop)
    → sum_of e < sign_bit
    → (delivery_agrees e s.counts ≡ true) ↔ Agrees e s
unfolding delivery_agrees
Agrees-iff e s h = (λ k. ground (arith, h, k), λ k. ground (arith, h, k.0, k.1))

evidence_iff :
    (run : LocalRun) (deliveries : ℕ → DeliveryStatus) (s : Loop)
    → FitsScope s
    → delivery_agrees (tally (returned_deliveries deliveries s.started)) s.counts ≡ true
    → (valid_optional_evidence (inbox_report run inbox_mode deliveries s) ≡ true)
      × (scope_fits s.fatal s.scope ≡ true)
unfolding valid_optional_evidence report_of
evidence_iff run deliveries s f h = ground (arith, f, h)

-- The report of a finished local run with the test inbox is accepted exactly if its deliveries, one
-- for each recipient that was granted, agree with the accounts: a confirmed one for each completed
-- recipient, and one that is not for each failed one. The source's ordinals ascend, and there are
-- fewer than 2 ^ 63 records.
pub inbox_report_iff :
    (run : LocalRun) (source : List Next) (deliveries : ℕ → DeliveryStatus)
    → SourceAscends 0 source
    → length source < sign_bit
    → is_running (run_turns run.config (initial_loop source) run.turns) ≡ false
    → let s = run_turns run.config (initial_loop source) run.turns in
      ((d : ReportDocument) × (marshal_report (inbox_report run inbox_mode deliveries s) ≡ some d))
      ↔ Agrees (tally (returned_deliveries deliveries s.started)) s
inbox_report_iff run source deliveries a h e =
    let s = run_turns run.config (initial_loop source) run.turns in
    let r = inbox_report run inbox_mode deliveries s in
    let ss = returned_deliveries deliveries s.started in
    let (b, v, st) = run_turns-IsBalanced run.config source run.turns a h e in
    let k : length ss < sign_bit =
      omega (arith, length-returned_deliveries deliveries s.started, started_few s b st) in
    let few : sum_of (tally ss) < sign_bit = omega (arith, k, sum_of-tally ss k) in
    (
      λ m.
          (Agrees-iff (tally ss) s few).0
            (agreeing run deliveries s ((marshal_report_iff r).0 m).evidence),
      λ g. (
        document_of r,
        (let (ev, sc) =
              evidence_iff run deliveries s (run_turns-FitsScope run.config source run.turns)
                ((Agrees-iff (tally ss) s few).1 g) in
            marshal_report-some r (
              unfold report_of in
              record {
                evidence = ev;
                valid_counts = v;
                started_split = ground (arith, b);
                outcome_derived = refl;
                scope_fitting = sc;
              })),
      ),
    )

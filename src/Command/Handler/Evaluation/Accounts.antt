-- ===== src/Command/Handler/Evaluation/Accounts.antt =====
-- cmd/email-pipeline/web_handler.go: the report that evaluate answers with.
use personalized_email_pipel.Prelude.{
  ◌%◌, ap, ℕ, zero, suc, ◌+◌, ◌≤◌, ◌<◌, ◌≡◌, refl, ◌∙◌, sym, subst, ◌⊎◌, inl, inr, Bool, true,
  false, ◌&&◌, List, [], ◌∷◌, ◌++◌, Option, none, some, if◌then◌else◌, arith, length, Bool-cases,
}
use personalized_email_pipel.Prelude.Int64.{modulus, sign_bit, is_negative}
use personalized_email_pipel.Campaign.Text.{codes}
use personalized_email_pipel.Campaign.Loop.{Next, full}
use personalized_email_pipel.Campaign.Report.{
  ReportDocument, report_of, marshal_report, document_of,
}
use personalized_email_pipel.Campaign.Report.Runs.{marshal_report-run}
use personalized_email_pipel.Campaign.Runner.{is_running}
use personalized_email_pipel.Campaign.Runner.Books.{SourceAscends, SourceAscends-mono}
use personalized_email_pipel.Campaign.Runner.Whole.{Gives, run_turns-examines_all}
use personalized_email_pipel.Command.Controller.{Controller, admit_idle}
use personalized_email_pipel.Command.Handler.Evaluation.{
  evaluate, evaluate_form, lease_response, run_lease, generated_web_source, source_of_records,
  listed_source, report_response, timed_response, response_body, config_of, web_report, run_of,
}
use personalized_email_pipel.Command.Handler.Pages.{wants_plain_text}
use personalized_email_pipel.Command.Handler.{Console, Visit, Response, plain, is_post, no_text}
use personalized_email_pipel.Command.Web.Evaluations.{parse_evaluation_input-IsWithin}
use personalized_email_pipel.Campaign.Model.{Text}
use personalized_email_pipel.Command.Web.{
  EvaluationForm, EvaluationInput, parse_evaluation_input, allows_browser_post,
}
use personalized_email_pipel.RecipientCsv.Fixture.{
  Record, FixtureOptions, GeneratedSource, fixture_algorithm_v1, drain, new_generated_source,
  source_of,
}
use personalized_email_pipel.RecipientCsv.Fixture.Totals.{Counts, drain-new_generated_source}

module _ (W : Console) where
  -- The source gives `n` records, of ascending ordinals from `o`, and then ends.
  record IsSource (o n : ℕ) (xs : List Next) : Type 0 where
    given : Gives n xs
    ascends : SourceAscends o xs
    size : length xs ≡ n + 1

  source_of_records-IsSource :
      (o n : ℕ) (rs : List Record) → Counts W.random o n rs → IsSource o n (source_of_records W rs)
  unfolding source_of_records Gives
  source_of_records-IsSource o zero [] c = record { given = tt; ascends = tt; size = refl }
  source_of_records-IsSource o zero (r ∷ rs) c = absurd c
  source_of_records-IsSource o (suc n) [] c = absurd c
  source_of_records-IsSource o (suc n) (r ∷ rs) (e, unreasoned, c) =
      let s = source_of_records-IsSource (o + 1) n rs c in
      record {
        given = s.given;
        ascends = (
          omega (arith, e),
          subst (λ k. SourceAscends (k + 1) (source_of_records W rs)) (sym e) s.ascends,
        );
        size = omega (arith, s.size);
      }

  options : EvaluationInput → FixtureOptions
  options input = record {
    algorithm = fixture_algorithm_v1;
    seed = input.seed;
    count = input.count;
  }

  made :
      (input : EvaluationInput)
      → input.count + 1 < sign_bit
      → (s : GeneratedSource W.random) × (new_generated_source W.random (options input) ≡ some s)
  unfolding new_generated_source options
  made input short = (
    source_of W.random (options input),
    if_not (is_negative input.count) none (some (source_of W.random (options input)))
        (ground (arith, short)),
  )
    where
      if_not :
          (b : Bool) (x y : Option (GeneratedSource W.random))
          → b ≡ false
          → (if b then x else y) ≡ y
      if_not b x y e = rw e refl

  generated_web_source-IsSource :
      (input : EvaluationInput)
      → input.count + 1 < sign_bit
      → (xs : List Next) × (generated_web_source W input ≡ some xs) × IsSource 1 input.count xs
  unfolding generated_web_source listed_source options
  generated_web_source-IsSource input short =
      let (s, e) = made input short in
      let (ended, listed, named, unnamed) =
        drain-new_generated_source W.random (options input) s e short in
      (
        source_of_records W (drain W.random (input.count + 1) s).records,
        ap (listed_source W input.count) e,
        source_of_records-IsSource 1 input.count (drain W.random (input.count + 1) s).records
            listed,
      )

  -- evaluate admits a run of the input: an allowed POST of a valid form, with a run id if htmx sends it,
  -- while no run is active and behind no shutdown.
  pub record Admits (c : Controller) (v : Visit) (input : EvaluationInput) : Type 0 where
    pub posted : is_post v.request.method ≡ true
    pub allowed : allows_browser_post W.urls v.request.browser ≡ true
    pub valid : (parse_evaluation_input W.machine v.request.form).1 ≡ some input
    pub identified : (v.request.hx_request && no_text v.request.run_id) ≡ false
    pub idle : c.active ≡ none
    pub not_closed : c.closed ≡ false

  abbrev form_given : Visit → EvaluationForm
  form_given v = (parse_evaluation_input W.machine v.request.form).0

  evaluate_admitted :
      (c : Controller) (v : Visit) (input : EvaluationInput) (xs : List Next)
      → Admits c v input
      → generated_web_source W input ≡ some xs
      → (evaluate W c v).1 ≡ (
          if is_running (run_of v input xs)
          then none
          else some
              (report_response W v (form_given v) input (marshal_report (web_report v input xs))))
  unfolding evaluate evaluate_form lease_response run_lease
  evaluate_admitted c v input xs h e =
      let (l, admitted) =
        admit_idle c v.request.hx_request (if v.request.hx_request then v.request.run_id else [])
          h.idle h.not_closed in
      rw h.posted (
        rw h.allowed (
          rw h.valid (
            rw h.identified (
              rw admitted (
                rw e (elim (Bool-cases (is_running (run_of v input xs))) [
                  | inl k ↦ rw k refl
                  | inr k ↦ rw k refl
                ]))))))

  -- What a run that evaluate admits comes to: it goes on, and there is no response yet; or the report is
  -- the response, it counts each recipient that was asked for, and it is no partial account.
  unfoldable pub Reported : Visit → EvaluationInput → List Next → Option Response → Type 0
  Reported v input xs response =
      let report = web_report v input xs in
      ((is_running (run_of v input xs) ≡ true) × (response ≡ none))
      ⊎ ((report.counts.examined ≡ input.count)
          × (report.scope ≡ full)
          × (response ≡ some (plain (W.report_bytes (document_of report) ++ codes "\n"))))

  text_response :
      (v : Visit) (form : EvaluationForm) (input : EvaluationInput) (document : ReportDocument)
      → wants_plain_text v.request ≡ true
      → no_text v.result_id ≡ false
      → report_response W v form input (some document)
        ≡ plain (W.report_bytes document ++ codes "\n")
  unfolding report_response timed_response response_body
  text_response v form input document asked named = rw named (rw asked (rw asked refl))

  reported :
      (v : Visit) (input : EvaluationInput) (xs : List Next) (b : Bool) (form : EvaluationForm)
      → IsSource 1 input.count xs
      → input.count + 1 < sign_bit
      → wants_plain_text v.request ≡ true
      → no_text v.result_id ≡ false
      → is_running (run_of v input xs) ≡ b
      → Reported v input xs (
          if b
          then none
          else some (report_response W v form input (marshal_report (web_report v input xs))))
  unfolding Reported
  reported v input xs true form s short asked named e = inl (e, refl)
  reported v input xs false form s short asked named e =
      let (examined, sound, whole) =
        run_turns-examines_all (config_of input) xs v.turns input.count s.given
          (omega (arith, short)) e in
      let m : marshal_report (web_report v input xs) ≡ some (document_of (web_report v input xs)) =
        unfold report_of in
        marshal_report-run (config_of input) xs v.turns none v.elapsed v.peak v.response_bound
          v.measured (SourceAscends-mono 0 1 xs (omega arith) s.ascends)
          (omega (arith, s.size, short)) e tt in
      inr (
        unfold report_of in examined,
        unfold report_of in whole,
        ap some (ap (report_response W v form input) m ∙ text_response v form input _ asked named),
      )

  -- A request for plain text from which evaluate admits a run ends in one of two ways: either the run
  -- still goes on behind the given rounds, and there is no response yet, or the response is the document
  -- of the run's report and a line's end, and the report counts as many recipients examined as the form
  -- asks for, with the full scope: whatever the workers, the clock and a cancellation do. The generated
  -- source is always made. newRunID gives an id; ParseInt gives 64-bit integers, and the machine has
  -- fewer than 2 ^ 63 CPUs.
  pub evaluate-Reported :
      (c : Controller) (v : Visit) (input : EvaluationInput)
      → ((raw : Text) (n : ℕ) → W.machine.parse_int raw ≡ some n → n < modulus)
      → W.machine.cpus < sign_bit
      → Admits c v input
      → wants_plain_text v.request ≡ true
      → no_text v.result_id ≡ false
      → (xs : List Next) × (generated_web_source W input ≡ some xs)
        × Reported v input xs (evaluate W c v).1
  evaluate-Reported c v input int64s few h asked named =
      let within = parse_evaluation_input-IsWithin W.machine v.request.form input few h.valid in
      let short : input.count + 1 < sign_bit =
        bounded input.count (int64s _ input.count within.count_given) within.count_range.1 in
      let (xs, made, s) = generated_web_source-IsSource input short in
      (
        xs,
        made,
        subst (Reported v input xs) (sym (evaluate_admitted c v input xs h made)) (
            reported v input xs (is_running (run_of v input xs)) (form_given v) s short asked named
              refl),
      )
    where
      bounded : (n : ℕ) → n < modulus → n % modulus ≤ 1000000 → n + 1 < sign_bit
      bounded n h k = omega arith

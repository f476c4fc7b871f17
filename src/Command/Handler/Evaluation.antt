-- ===== src/Command/Handler/Evaluation.antt =====
-- cmd/email-pipeline/web_handler.go: evaluate, the handler that admits a run, waits for its report and
-- answers with it.
pub mod Leases
pub mod Accounts
use personalized_email_pipel.Prelude.{
  ℕ, ◌+◌, not, ◌&&◌, List, [], ◌∷◌, ◌++◌, Option, none, some, ◌==◌, if◌then◌else◌,
}
use personalized_email_pipel.Campaign.Loop.{Next, gives, ends, RunConfig, Loop, initial_loop}
use personalized_email_pipel.Campaign.Model.{Text}
use personalized_email_pipel.Campaign.Render.{format_string, synthetic_sample}
use personalized_email_pipel.Campaign.Report.{ReportDocument, RunReport, marshal_report, report_of}
use personalized_email_pipel.Campaign.Runner.{run_turns, is_running}
use personalized_email_pipel.Campaign.Text.{codes}
use personalized_email_pipel.Command.Controller.{Controller, Lease, steps, admit, finish}
use personalized_email_pipel.Command.Web.{
  EvaluationInput, EvaluationForm, parse_evaluation_input, allows_browser_post,
}
use personalized_email_pipel.RecipientCsv.Fixture.{
  Record, GeneratedSource, fixture_algorithm_v1, new_generated_source, drain,
}
use personalized_email_pipel.Command.Handler.{
  WebPage, WebRequest, Visit, Response, html, plain, Console, request_duration_placeholder,
  default_settlement, method_not_allowed, forbidden, render_failed, no_text, is_post,
}
use personalized_email_pipel.Command.Handler.Pages.{
  page_of, wants_plain_text, template_name, write_page, prepare_web_page,
}

abbrev pub config_of : EvaluationInput → RunConfig
config_of input = record {
  workers = input.workers;
  settlement = default_settlement;
  sample_text = λ ordinal category. synthetic_sample ordinal category;
}

abbrev pub run_of : Visit → EvaluationInput → List Next → Loop
run_of v input source = run_turns (config_of input) (initial_loop source) v.turns

abbrev pub web_report : Visit → EvaluationInput → List Next → RunReport
web_report v input source =
    report_of (config_of input) (run_of v input source) v.elapsed v.peak v.response_bound v.measured

module _ (W : Console) where
  -- responseBody: the bytes before the duration is put in, with their kind.
  unfoldable pub response_body : WebRequest → WebPage → ReportDocument → Option Text
  response_body r page document =
      if wants_plain_text r
      then some (W.report_bytes document ++ codes "\n")
      else W.execute_page (template_name r) (prepare_web_page page)

  -- generatedWebSource: the answers of the source, up to its end; `none` is an error.
  source_of_records : List Record → List Next
  source_of_records [] = ends ∷ []
  source_of_records (r ∷ rs) =
      gives (record { ordinal = r.ordinal; email = r.email; name = r.name; parser_reason = none })
      ∷ source_of_records rs

  listed_source : ℕ → Option (GeneratedSource W.random) → Option (List Next)
  listed_source count none = none
  listed_source count (some source) =
      some (source_of_records (drain W.random (count + 1) source).records)

  unfoldable pub generated_web_source : EvaluationInput → Option (List Next)
  unfolding listed_source source_of_records
  generated_web_source input = listed_source input.count (
      new_generated_source W.random
        (record { algorithm = fixture_algorithm_v1; seed = input.seed; count = input.count }))

  evaluation_failed : Visit → EvaluationForm → Response
  evaluation_failed v form = write_page W v 500 (page_of form (codes "evaluation_failed"))

  -- The request's duration takes the placeholder's place, once.
  timed_response : Visit → EvaluationForm → Option Text → Response
  timed_response v form none = evaluation_failed v form
  timed_response v form (some body) =
      if wants_plain_text v.request
      then plain body
      else if not (W.count_of body request_duration_placeholder == 1)
      then render_failed
      else html 200 (W.replace_first body request_duration_placeholder (W.duration_text v.duration))

  abbrev result_page : Visit → EvaluationForm → EvaluationInput → RunReport → Text → WebPage
  result_page v form input report result = record (page_of form []) {
    result = result;
    run_id = v.result_id;
    outcome = some report.outcome;
    count = input.count;
    seed = input.seed;
    workers = input.workers;
    format = format_string input.format;
    processing_elapsed = report.processing_elapsed;
    request_duration = if wants_plain_text v.request then [] else request_duration_placeholder;
  }

  report_response : Visit → EvaluationForm → EvaluationInput → Option ReportDocument → Response
  report_response v form input none = evaluation_failed v form
  report_response v form input (some document) =
      if no_text v.result_id
      then evaluation_failed v form
      else timed_response v form (
          response_body v.request
            (result_page v form input document.report (W.report_bytes document)) document)

  -- evaluate behind the admission, with the deferred finish; a run that goes on has no response.
  run_lease :
      Controller
      → Lease
      → Visit
      → EvaluationForm
      → EvaluationInput
      → Option (List Next)
      → Controller × Option Response
  run_lease c lease v form input none =
      (finish (steps c v.between) lease.address, some (evaluation_failed v form))
  run_lease c lease v form input (some source) =
      if is_running (run_of v input source) then (steps c v.between, none) else (
        finish (steps c v.between) lease.address,
        some (report_response v form input (marshal_report (web_report v input source))),
      )

  lease_response :
      Visit
      → EvaluationForm
      → EvaluationInput
      → Controller × Option Lease
      → Controller × Option Response
  lease_response v form input (c, none) =
      (c, some (write_page W v 429 (page_of form (codes "evaluation_busy"))))
  lease_response v form input (c, some lease) =
      run_lease c lease v form input (generated_web_source input)

  request_invalid : Visit → EvaluationForm → Response
  request_invalid v form = write_page W v 400 (page_of form (codes "invalid_request"))

  evaluate_form :
      Controller → Visit → EvaluationForm → Option EvaluationInput → Controller × Option Response
  evaluate_form c v form none = (c, some (request_invalid v form))
  evaluate_form c v form (some input) =
      if v.request.hx_request && no_text v.request.run_id
      then (c, some (request_invalid v form))
      else lease_response v form input
          (admit c v.request.hx_request (if v.request.hx_request then v.request.run_id else []))

  -- evaluate.
  unfoldable pub evaluate : Controller → Visit → Controller × Option Response
  unfolding evaluate_form lease_response run_lease report_response timed_response request_invalid
      evaluation_failed
  evaluate c v =
      let (form, input) = parse_evaluation_input W.machine v.request.form in
      if not (is_post v.request.method)
      then (c, some method_not_allowed)
      else if not (allows_browser_post W.urls v.request.browser)
      then (c, some forbidden)
      else evaluate_form c v form input

-- ===== src/Command/Handler.antt =====
-- cmd/email-pipeline/web_handler.go, web_response.go and web_view.go: the web console. This module has
-- its pages, requests and responses; Pages has the pages that are written, Evaluation and Routes the
-- handlers. html/template, encoding/json, the bytes package, crypto/rand and the clock are parameters
-- or come with each request (`Visit`); headers of responses are left out.
pub mod Pages
pub mod Evaluation
pub mod Routes
use personalized_email_pipel.Prelude.{
  ℕ, ◌+◌, Bool, true, false, not, ◌&&◌, ◌||◌, List, [], ◌∷◌, ◌++◌, Option, none, some, ◌==◌,
  if◌then◌else◌, length, map,
}
use personalized_email_pipel.Campaign.Loop.{Next, gives, ends, Turn, RunConfig, Loop, initial_loop}
use personalized_email_pipel.Campaign.Model.{Text, Outcome, Recipient, fallback}
use personalized_email_pipel.Campaign.Render.{
  Format, text_format, html_format, parse_format, format_string, render_message, decimal_from,
  synthetic_sample,
}
use personalized_email_pipel.Campaign.Report.{ReportDocument, RunReport, marshal_report, report_of}
use personalized_email_pipel.Campaign.Runner.{run_turns, is_running}
use personalized_email_pipel.Campaign.Text.{codes, text_eq, trim_space, split_from, cut}
use personalized_email_pipel.Command.Controller.{
  Controller, Lease, Step, steps, admit, finish, cancel,
}
use personalized_email_pipel.Command.LocalFile.{source_record}
use personalized_email_pipel.Command.Web.{
  EvaluationInput, EvaluationForm, FormRequest, Machine, BrowserRequest, Urls, field_value,
  field_values, parse_evaluation_input, allows_browser_post,
}
use personalized_email_pipel.RecipientCsv.Fixture.{
  Random, Record, GeneratedSource, fixture_algorithm_v1, new_generated_source, drain,
}

pub record WebPreview : Type 0 where
  pub format : Text
  pub text : Text
  pub html : Text

pub record WebPage : Type 0 where
  pub form : EvaluationForm
  pub preview : WebPreview
  pub result : Text
  pub error : Text
  pub run_id : Text
  pub outcome : Option Outcome
  pub count : ℕ
  pub seed : ℕ
  pub workers : ℕ
  pub format : Text
  pub processing_elapsed : ℕ
  pub request_duration : Text

pub data Method : Type 0 where
  get post other_method : Method

pub record WebRequest : Type 0 where
  pub path : Text
  pub method : Method
  pub browser : BrowserRequest
  pub form : FormRequest
  pub hx_request : Bool  -- HX-Request is "true"
  pub run_id : Text  -- X-Evaluator-Run-ID
  pub accept : Text
  pub query_format : Text

-- A request, and what lies outside the handler while it is served: the ids that newRunID gives, what
-- other requests do to the controller during the run, the rounds of the run, and what it measures.
pub record Visit : Type 0 where
  pub request : WebRequest
  pub page_id : Text
  pub result_id : Text
  pub between : List Step
  pub turns : List Turn
  pub elapsed : ℕ
  pub peak : ℕ
  pub response_bound : ℕ
  pub measured : ℕ
  pub duration : ℕ

-- An error of http.Error with its code; a page; a report in plain text; a file of webFiles.
pub data Response : Type 0 where
  refuse html : ℕ → Text → Response
  plain file : Text → Response

-- The templates (`none` if there are none, or one fails), report bytes, and functions of the standard
-- library.
pub record Console : Type 1 where
  pub execute_page : Text → WebPage → Option Text
  pub execute_preview : WebPreview → Option Text
  pub execute_field : Text → EvaluationForm → Option Text
  pub report_bytes : ReportDocument → Text
  pub duration_text : ℕ → Text
  pub count_of : Text → Text → ℕ
  pub replace_first : Text → Text → Text → Text
  pub machine : Machine
  pub urls : Urls
  pub random : Random

abbrev pub request_duration_placeholder : Text
request_duration_placeholder = codes "__EMAIL_PIPELINE_INTERNAL_REQUEST_DURATION_7B1D638E__"

abbrev pub default_settlement : ℕ
default_settlement = 5000000000

abbrev pub method_not_allowed : Response
method_not_allowed = refuse 405 (codes "method_not_allowed")

abbrev pub forbidden : Response
forbidden = refuse 403 (codes "forbidden")

abbrev pub render_failed : Response
render_failed = refuse 500 (codes "render_failed")

abbrev pub no_text : Text → Bool
no_text [] = true
no_text (c ∷ s) = false

abbrev pub is_get : Method → Bool
is_get get = true
is_get _ = false

abbrev pub is_post : Method → Bool
is_post post = true
is_post _ = false

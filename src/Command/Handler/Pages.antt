-- ===== src/Command/Handler/Pages.antt =====
-- cmd/email-pipeline/web_view.go, and writePage of web_response.go: the pages of the web console.
use personalized_email_pipel.Prelude.{
  ℕ, Bool, false, ◌&&◌, ◌||◌, List, [], ◌∷◌, ◌++◌, Option, none, some, ◌==◌, if◌then◌else◌,
}
use personalized_email_pipel.Campaign.Model.{Text, Recipient, fallback}
use personalized_email_pipel.Campaign.Render.{
  Format, text_format, html_format, parse_format, format_string, render_message, decimal_from,
}
use personalized_email_pipel.Campaign.Text.{codes, text_eq, trim_space, split_from, cut}
use personalized_email_pipel.Command.Web.{EvaluationForm}
use personalized_email_pipel.Command.Handler.{
  WebPreview, WebPage, WebRequest, Visit, Response, html, Console, render_failed, no_text,
}

-- makeWebPreview and prepareWebPage.
abbrev pub format_or_text : Option Format → Format
format_or_text none = text_format
format_or_text (some format) = format

abbrev sample_recipient : Recipient
sample_recipient = record {
  ordinal = 0;
  email = [];
  identity = [];
  name = codes "Customer 000001";
  category = fallback;
}

unfoldable pub make_web_preview : Text → WebPreview
make_web_preview raw = record {
  format = format_string (format_or_text (parse_format raw));
  text = (render_message sample_recipient text_format).0.body;
  html = (render_message sample_recipient html_format).0.body;
}

abbrev pub prepare_web_page : WebPage → WebPage
prepare_web_page page = record page { preview = make_web_preview page.form.format }

abbrev no_preview : WebPreview
no_preview = record { format = []; text = []; html = [] }

-- webPage{Form: form, Error: error}.
abbrev pub page_of : EvaluationForm → Text → WebPage
page_of form error = record {
  form = form;
  preview = no_preview;
  result = [];
  error = error;
  run_id = [];
  outcome = none;
  count = 0;
  seed = 0;
  workers = 0;
  format = [];
  processing_elapsed = 0;
  request_duration = [];
}

-- defaultEvaluationForm.
abbrev pub default_evaluation_form : ℕ → EvaluationForm
default_evaluation_form cpus = record {
  count = decimal_from 20 100000;
  seed = decimal_from 20 7;
  workers = decimal_from 20 cpus;
  format = format_string text_format;
  errors = [];
}

-- wantsPlainText.
unfoldable pub any_plain : List Text → Bool
any_plain [] = false
any_plain (accepted ∷ rest) =
    text_eq (trim_space (cut b';' accepted).0) (codes "text/plain") || any_plain rest

abbrev pub wants_plain_text : WebRequest → Bool
wants_plain_text r = any_plain (split_from b',' [] r.accept)

abbrev has_field_error : Text → List (Text × Text) → Bool
has_field_error field [] = false
has_field_error field ((k, m) ∷ rest) = text_eq k field || has_field_error field rest

abbrev pub template_name : WebRequest → Text
template_name r = if r.hx_request then codes "result" else codes "page"

module _ (W : Console) where
  joined : Option Text → Option Text → Option Text
  joined (some body) (some more) = some (body ++ more)
  joined _ _ = none

  -- The fields of a form whose values are refused, one behind the other: `none` if a template fails.
  refused_fields : EvaluationForm → List Text → Option Text
  refused_fields form [] = some []
  refused_fields form (field ∷ fields) =
      let rest = refused_fields form fields in
      if has_field_error field form.errors then joined (W.execute_field field form) rest else rest

  page_response : ℕ → Option Text → Response
  page_response status none = render_failed
  page_response status (some body) = html status body

  add_fields : WebRequest → ℕ → EvaluationForm → Option Text → Response
  add_fields r status form body =
      if status == 400 && r.hx_request
      then page_response status (
          joined body (
            refused_fields form
              (codes "count" ∷ codes "seed" ∷ codes "workers" ∷ codes "format" ∷ [])))
      else page_response status body

  -- writePage, of a page without a RunID.
  unfoldable pub write_page : Visit → ℕ → WebPage → Response
  unfolding add_fields page_response refused_fields joined
  write_page v status page =
      let named = record page { run_id = v.page_id } in
      let body = W.execute_page (template_name v.request) (prepare_web_page named) in
      if no_text v.page_id then render_failed else add_fields v.request status page.form body

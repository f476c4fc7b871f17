-- ===== src/Command/Handler/Routes.antt =====
-- cmd/email-pipeline/web_handler.go and web_response.go: ServeHTTP and the handlers besides evaluate.
pub mod Leases
use personalized_email_pipel.Prelude.{
  Bool, true, false, not, ◌||◌, [], Option, none, some, ◌==◌, if◌then◌else◌, length,
}
use personalized_email_pipel.Campaign.Model.{Text}
use personalized_email_pipel.Campaign.Render.{parse_format, format_string}
use personalized_email_pipel.Campaign.Text.{codes, text_eq}
use personalized_email_pipel.Command.Controller.{Controller, cancel}
use personalized_email_pipel.Command.Web.{
  FormRequest, field_value, field_values, allows_browser_post,
}
use personalized_email_pipel.Command.Handler.{
  WebRequest, Visit, Response, refuse, html, file, Console, method_not_allowed, forbidden,
  render_failed, is_get, is_post,
}
use personalized_email_pipel.Command.Handler.Pages.{
  make_web_preview, format_or_text, page_of, default_evaluation_form, write_page,
}
use personalized_email_pipel.Command.Handler.Evaluation.{evaluate}

-- ParseForm fails, or the form has not one field, run_id, with one value.
abbrev refuses_cancel_form : FormRequest → Bool
refuses_cancel_form f =
    f.parse_failed
    || not (f.form_size == 1)
    || not (length f.post_form == 1)
    || not (length (field_values (codes "run_id") f.post_form) == 1)

abbrev unchanged : Controller → Response → Controller × Option Response
unchanged c response = (c, some response)

abbrev answered : Controller × Response → Controller × Option Response
answered (c, response) = (c, some response)

module _ (W : Console) where
  -- servePreview.
  preview_response : Option Text → Response
  preview_response none = render_failed
  preview_response (some body) = html 200 body

  unfoldable pub serve_preview : WebRequest → Response
  unfolding preview_response
  serve_preview r =
      if not (is_get r.method)
      then method_not_allowed
      else preview_response (
          W.execute_preview
            (make_web_preview (format_string (format_or_text (parse_format r.query_format)))))

  -- servePage.
  unfoldable pub serve_page : Visit → Response
  serve_page v =
      if not (is_get v.request.method)
      then method_not_allowed
      else write_page W v 200 (page_of (default_evaluation_form W.machine.cpus) [])

  cancel_response : Visit → Bool → Response
  cancel_response v false =
      write_page W v 409
        (page_of (default_evaluation_form W.machine.cpus) (codes "cancellation_conflict"))
  cancel_response v true =
      write_page W v 200
        (page_of (default_evaluation_form W.machine.cpus) (codes "cancellation_requested"))

  -- webHandler.cancel.
  unfoldable pub cancel_run : Controller → Visit → Controller × Response
  unfolding cancel_response
  cancel_run c v =
      let (cancelled, is_cancelled) = cancel c (field_value (codes "run_id") v.request.form) in
      if not (is_post v.request.method)
      then (c, method_not_allowed)
      else if not (allows_browser_post W.urls v.request.browser)
      then (c, forbidden)
      else if refuses_cancel_form v.request.form
      then (c, cancel_response v false)
      else (cancelled, cancel_response v is_cancelled)

  -- serveAsset.
  abbrev serve_asset : WebRequest → Text → Response
  serve_asset r path = if not (is_get r.method) then method_not_allowed else file path

  -- webHandler.ServeHTTP: the controller behind the request, and the response, if evaluate returns.
  unfoldable pub serve_http : Controller → Visit → Controller × Option Response
  serve_http c v =
      if text_eq v.request.path (codes "/")
      then unchanged c (serve_page v)
      else if text_eq v.request.path (codes "/evaluate")
      then evaluate W c v
      else if text_eq v.request.path (codes "/preview")
      then unchanged c (serve_preview v.request)
      else if text_eq v.request.path (codes "/cancel")
      then answered (cancel_run c v)
      else if text_eq v.request.path (codes "/assets/htmx-2.0.4.min.js")
      then unchanged c (serve_asset v.request (codes "web/htmx-2.0.4.min.js"))
      else if text_eq v.request.path (codes "/assets/htmx-LICENSE.txt")
      then unchanged c (serve_asset v.request (codes "web/htmx-LICENSE.txt"))
      else unchanged c (refuse 404 (codes "404 page not found"))

-- ===== src/Tests/Web.antt =====
-- The web console's form and origin checks at concrete inputs.
use personalized_email_pipel.Prelude.{
  ℕ, ◌≡◌, refl, true, false, if◌then◌else◌, [], ◌∷◌, Option, none, some,
}
use personalized_email_pipel.Campaign.Model.{Text}
use personalized_email_pipel.Campaign.Render.{html_format, parse_format}
use personalized_email_pipel.Campaign.Text.{codes, text_eq}
use personalized_email_pipel.Command.Web.{
  EvaluationInput, FormRequest, Machine, Url, BrowserRequest, Urls, parse_evaluation_input,
  field_errors, allows_browser_post,
}

-- The numbers that the form below has.
abbrev pub number_of : Text → Option ℕ
number_of raw =
    if text_eq raw (codes "250") then some 250 else if text_eq raw (codes "4") then some 4 else none

abbrev pub machine : Machine
machine = record { parse_int = number_of; parse_uint = number_of; cpus = 8 }

abbrev pub form : FormRequest
form = record {
  parse_failed = false;
  post_form =
      (codes "workers", codes "4" ∷ [])
      ∷ (codes "count", codes "250" ∷ [])
      ∷ (codes "format", codes "html" ∷ [])
      ∷ (codes "seed", codes "4" ∷ [])
      ∷ [];
  form_size = 4;
}

abbrev pub evaluation : EvaluationInput
evaluation = record { count = 250; seed = 4; workers = 4; format = html_format }

pub form_accepted : (parse_evaluation_input machine form).1 ≡ some evaluation
unfolding parse_evaluation_input field_errors parse_format
form_accepted = refl

abbrev pub local_host : Text
local_host = codes "127.0.0.1:8080"

abbrev pub own_url : Url
own_url = record {
  scheme = codes "http";
  has_user = false;
  host = local_host;
  opaque = [];
  path = [];
  raw_query = [];
  force_query = false;
  fragment = [];
}

abbrev pub urls : Urls
urls = record {
  equal_fold = text_eq;
  parse_url = λ raw. if text_eq raw (codes "http://127.0.0.1:8080") then some own_url else none;
}

abbrev pub own_post : BrowserRequest
own_post = record {
  fetch_site = codes "same-origin";
  origin = some (codes "http://127.0.0.1:8080" ∷ []);
  referer = none;
  host = local_host;
}

pub own_post_allowed : allows_browser_post urls own_post ≡ true
unfolding allows_browser_post
own_post_allowed = refl

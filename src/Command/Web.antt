-- ===== src/Command/Web.antt =====
-- cmd/email-pipeline: what the web console accepts: web_input.go (the form of an evaluation) and
-- web_origin.go (which browsers may post). net/http's form and headers, strconv, net/url and
-- strings.EqualFold are inputs or parameters.
pub mod Evaluations
pub mod Origins
use personalized_email_pipel.Prelude.{
  ℕ, Bool, true, false, not, ◌&&◌, ◌||◌, List, [], ◌∷◌, Option, none, some, ◌==◌, if◌then◌else◌,
  length,
}
use personalized_email_pipel.Prelude.Int64.{lt64}
use personalized_email_pipel.Campaign.Model.{Text}
use personalized_email_pipel.Campaign.Render.{Format, parse_format}
use personalized_email_pipel.Campaign.Text.{codes, text_eq}

abbrev pub max_web_count : ℕ
max_web_count = 1000000

pub record EvaluationInput : Type 0 where
  pub count : ℕ
  pub seed : ℕ
  pub workers : ℕ
  pub format : Format

-- The form that is shown again, with the messages by field.
pub record EvaluationForm : Type 0 where
  pub count : Text
  pub seed : Text
  pub workers : Text
  pub format : Text
  pub errors : List (Text × Text)

-- What ParseForm leaves: its error, PostForm, and how many fields Form has.
pub record FormRequest : Type 0 where
  pub parse_failed : Bool
  pub post_form : List (Text × List Text)
  pub form_size : ℕ

-- strconv.ParseInt, ParseUint and Atoi of decimals, and runtime.NumCPU.
pub record Machine : Type 0 where
  pub parse_int : Text → Option ℕ
  pub parse_uint : Text → Option ℕ
  pub cpus : ℕ

-- PostForm[key], and PostForm.Get.
abbrev pub field_values : Text → List (Text × List Text) → List Text
field_values key [] = []
field_values key ((k, vs) ∷ rest) = if text_eq k key then vs else field_values key rest

abbrev pub first_value : List Text → Text
first_value [] = []
first_value (v ∷ vs) = v

abbrev pub field_value : Text → FormRequest → Text
field_value key r = first_value (field_values key r.post_form)

-- Errors[key] = message, if the test says so.
abbrev set_error : Bool → Text → Text → List (Text × Text) → List (Text × Text)
set_error false key message errors = errors
set_error true key message [] = (key, message) ∷ []
set_error true key message ((k, m) ∷ rest) =
    let more = set_error true key message rest in
    if text_eq k key then (key, message) ∷ rest else (k, m) ∷ more

abbrev not_single : List Text → Bool
not_single vs = not (length vs == 1)

abbrev outside : ℕ → ℕ → Option ℕ → Bool
outside low high none = true
outside low high (some n) = lt64 n low || lt64 high n

abbrev is_missing {ℓ} : {A : Type ℓ} → Option A → Bool
is_missing none = true
is_missing (some a) = false

abbrev bad_format : Text → Bool
bad_format raw =
    is_missing (parse_format raw)
    || not (text_eq raw (codes "text")) && not (text_eq raw (codes "html"))

-- A message that is set for a field if the test fails.
pub record Check : Type 0 where
  pub fails : Bool
  pub field : Text
  pub message : Text

abbrev once : FormRequest → Text → Check
once r key = record {
  fails = not_single (field_values key r.post_form);
  field = key;
  message = codes "enter exactly one value";
}

abbrev checks : Machine → FormRequest → List Check
checks m r =
    once r (codes "count")
    ∷ once r (codes "seed")
    ∷ once r (codes "workers")
    ∷ once r (codes "format")
    ∷ record {
      fails = not (r.form_size == 4) || not (length r.post_form == 4);
      field = codes "form";
      message = codes "submit only the four benchmark controls";
    }
    ∷ record {
      fails = outside 1 max_web_count (m.parse_int (field_value (codes "count") r));
      field = codes "count";
      message = codes "enter an integer from 1 through 1000000";
    }
    ∷ record {
      fails = is_missing (m.parse_uint (field_value (codes "seed") r));
      field = codes "seed";
      message = codes "enter an unsigned 64-bit integer";
    }
    ∷ record {
      fails = outside 1 m.cpus (m.parse_int (field_value (codes "workers") r));
      field = codes "workers";
      message = codes "enter an integer within this machine's logical CPU count";
    }
    ∷ record {
      fails = bad_format (field_value (codes "format") r);
      field = codes "format";
      message = codes "select text or html";
    }
    ∷ []

-- The messages, set one after another.
abbrev set_all : List Check → List (Text × Text) → List (Text × Text)
set_all [] errors = errors
set_all (c ∷ cs) errors = set_all cs (set_error c.fails c.field c.message errors)

unfoldable pub field_errors : Machine → FormRequest → List (Text × Text)
field_errors m r = set_all (checks m r) []

abbrev form_of : Machine → FormRequest → EvaluationForm
form_of m r = record {
  count = field_value (codes "count") r;
  seed = field_value (codes "seed") r;
  workers = field_value (codes "workers") r;
  format = field_value (codes "format") r;
  errors = field_errors m r;
}

input_of : Option ℕ → Option ℕ → Option ℕ → Option Format → Option EvaluationInput
input_of (some count) (some seed) (some workers) (some format) =
    some (record { count = count; seed = seed; workers = workers; format = format })
input_of _ _ _ _ = none

abbrev refused_form : EvaluationForm
refused_form = record {
  count = [];
  seed = [];
  workers = [];
  format = [];
  errors = (codes "form", codes "invalid form submission") ∷ [];
}

abbrev accepted : List (Text × Text) → Option EvaluationInput → Option EvaluationInput
accepted [] input = input
accepted (e ∷ es) input = none

-- parseEvaluationInput: the form, and the input if there is no error.
unfoldable pub parse_evaluation_input :
    Machine → FormRequest → EvaluationForm × Option EvaluationInput
unfolding input_of
parse_evaluation_input m r = if r.parse_failed then (refused_form, none) else (
  form_of m r,
  accepted (field_errors m r) (
      input_of (m.parse_int (field_value (codes "count") r))
        (m.parse_uint (field_value (codes "seed") r))
        (m.parse_int (field_value (codes "workers") r))
        (parse_format (field_value (codes "format") r))),
)

-- The parts of a url.URL, and a request's headers: a header that is not there has no values.
pub record Url : Type 0 where
  pub scheme : Text
  pub has_user : Bool
  pub host : Text
  pub opaque : Text
  pub path : Text
  pub raw_query : Text
  pub force_query : Bool
  pub fragment : Text

pub record BrowserRequest : Type 0 where
  pub fetch_site : Text
  pub origin : Option (List Text)
  pub referer : Option (List Text)
  pub host : Text

-- strings.EqualFold, and url.Parse with `none` for an error.
pub record Urls : Type 0 where
  pub equal_fold : Text → Text → Bool
  pub parse_url : Text → Option Url

abbrev is_blank : Text → Bool
is_blank [] = true
is_blank (c ∷ s) = false

module _ (U : Urls) where
  is_same_host : Text → Bool → Option Url → Bool
  is_same_host host from_origin none = false
  is_same_host host from_origin (some u) =
      if not (U.equal_fold u.scheme (codes "http"))
        || u.has_user
        || not (text_eq u.host host)
        || not (is_blank u.opaque)
      then false
      else if from_origin
      then is_blank u.path && is_blank u.raw_query && not u.force_query && is_blank u.fragment
      else true

  is_single_match : Text → Bool → List Text → Bool
  is_single_match host from_origin (v ∷ []) = is_same_host host from_origin (U.parse_url v)
  is_single_match host from_origin _ = false

  sender_matches : Text → Option (List Text) → Option (List Text) → Bool
  sender_matches host (some values) referer = is_single_match host true values
  sender_matches host none (some values) = is_single_match host false values
  sender_matches host none none = true

  -- allowsBrowserPost.
  unfoldable pub allows_browser_post : BrowserRequest → Bool
  unfolding sender_matches is_single_match is_same_host
  allows_browser_post r =
      if U.equal_fold r.fetch_site (codes "cross-site")
      then false
      else sender_matches r.host r.origin r.referer

-- ===== src/Command/Web/Evaluations.antt =====
-- cmd/email-pipeline/web_input.go: which evaluations are run.
use personalized_email_pipel.Prelude.{
  ℕ, ◌≤◌, ◌<◌, ◌%◌, ◌≡◌, refl, Bool, true, false, List, [], ◌∷◌, Option, none, some, ◌==◌,
  if◌then◌else◌, length, All, arith, Bool-cases, inl, inr,
}
use personalized_email_pipel.Prelude.Int64.{modulus, sign_bit}
use personalized_email_pipel.Campaign.Model.{Text}
use personalized_email_pipel.Campaign.Render.{Format, parse_format}
use personalized_email_pipel.Campaign.Text.{codes, text_eq}
use personalized_email_pipel.Command.Web.{
  EvaluationInput, EvaluationForm, FormRequest, Machine, field_values, field_value, set_error,
  Check, checks, refused_form, form_of, set_all, not_single, outside, field_errors, input_of,
  accepted, parse_evaluation_input, max_web_count,
}

-- The request asks for an evaluation within the console's limits, and for nothing else.
pub record IsWithin (m : Machine) (r : FormRequest) (i : EvaluationInput) : Type 0 where
  pub four_fields : (length r.post_form ≡ 4) × (r.form_size ≡ 4)
  pub count_once : length (field_values (codes "count") r.post_form) ≡ 1
  pub seed_once : length (field_values (codes "seed") r.post_form) ≡ 1
  pub workers_once : length (field_values (codes "workers") r.post_form) ≡ 1
  pub format_once : length (field_values (codes "format") r.post_form) ≡ 1
  pub count_given : m.parse_int (field_value (codes "count") r) ≡ some i.count
  pub seed_given : m.parse_uint (field_value (codes "seed") r) ≡ some i.seed
  pub workers_given : m.parse_int (field_value (codes "workers") r) ≡ some i.workers
  pub format_given : parse_format (field_value (codes "format") r) ≡ some i.format
  pub count_range : (1 ≤ i.count % modulus) × (i.count % modulus ≤ 1000000)
  pub workers_range : (1 ≤ i.workers % modulus) × (i.workers % modulus ≤ m.cpus)

set_error-not_empty :
    (b : Bool) (key message : Text) (errors : List (Text × Text))
    → (length (set_error b key message errors) == 0) ≡ true
    → (b ≡ false) × (errors ≡ [])
set_error-not_empty false key message [] h = (refl, refl)
set_error-not_empty false key message (e ∷ es) h = ground arith
set_error-not_empty true key message [] h = ground arith
set_error-not_empty true key message ((k, v) ∷ rest) h = elim (Bool-cases (text_eq k key)) [
  | inl e ↦ let q = rw e at h in ground arith
  | inr e ↦ let q = rw e at h in ground arith
]

unset :
    (b : Bool) (key message : Text) (errors : List (Text × Text))
    → set_error b key message errors ≡ []
    → (b ≡ false) × (errors ≡ [])
unset b key message errors h = set_error-not_empty b key message errors (rw h refl)

-- Without a message every test has passed.
abbrev Passes : Check → Type 0
Passes c = c.fails ≡ false

set_all-Passes :
    (cs : List Check) (errors : List (Text × Text))
    → set_all cs errors ≡ []
    → All Passes cs × (errors ≡ [])
set_all-Passes [] errors h = (tt, h)
set_all-Passes (c ∷ cs) errors h =
    let (passes, e) = set_all-Passes cs (set_error c.fails c.field c.message errors) h in
    let (b, q) = unset c.fails c.field c.message errors e in ((b, passes), q)

accepted_shape :
    (errors : List (Text × Text)) (input : Option EvaluationInput) (i : EvaluationInput)
    → accepted errors input ≡ some i
    → (errors ≡ []) × (input ≡ some i)
accepted_shape [] input i h = (refl, h)
accepted_shape (e ∷ es) input i h = ground arith

input_shape :
    (count seed workers : Option ℕ) (format : Option Format) (i : EvaluationInput)
    → input_of count seed workers format ≡ some i
    → (count ≡ some i.count)
      × (seed ≡ some i.seed)
      × (workers ≡ some i.workers)
      × (format ≡ some i.format)
unfolding input_of
input_shape (some c) (some s) (some w) (some f) i h = ground arith
input_shape none s w f i h = ground arith
input_shape (some c) none w f i h = ground arith
input_shape (some c) (some s) none f i h = ground arith
input_shape (some c) (some s) (some w) none i h = ground arith

single : (vs : List Text) → not_single vs ≡ false → length vs ≡ 1
single vs h = ground arith

within_range :
    (high n : ℕ) (o : Option ℕ)
    → high < sign_bit
    → o ≡ some n
    → outside 1 high o ≡ false
    → (1 ≤ n % modulus) × (n % modulus ≤ high)
within_range high n o r e h = let k = rw e at h in ground arith

chosen :
    (b : Bool) (form : EvaluationForm) (x : EvaluationForm × Option EvaluationInput)
    (i : EvaluationInput)
    → (if b then (form, none) else x).1 ≡ some i
    → x.1 ≡ some i
chosen true form x i h = ground arith
chosen false form x i h = h

within :
    (m : Machine) (r : FormRequest) (i : EvaluationInput)
    → m.cpus < sign_bit
    → field_errors m r ≡ []
    → input_of
        (m.parse_int (field_value (codes "count") r))
        (m.parse_uint (field_value (codes "seed") r))
        (m.parse_int (field_value (codes "workers") r))
        (parse_format (field_value (codes "format") r))
      ≡ some i
    → IsWithin m r i
unfolding field_errors
within m r i room es input =
    let (c, s, w, f) =
      input_shape (m.parse_int (field_value (codes "count") r))
        (m.parse_uint (field_value (codes "seed") r))
        (m.parse_int (field_value (codes "workers") r))
        (parse_format (field_value (codes "format") r)) i input in
    let ((count, (seed, (workers, (format, (size, (counted, (seeded, (staffed, rest)))))))), q) =
      set_all-Passes (checks m r) [] es in
    record {
      four_fields = ground (arith, size);
      count_once = single (field_values (codes "count") r.post_form) count;
      seed_once = single (field_values (codes "seed") r.post_form) seed;
      workers_once = single (field_values (codes "workers") r.post_form) workers;
      format_once = single (field_values (codes "format") r.post_form) format;
      count_given = c;
      seed_given = s;
      workers_given = w;
      format_given = f;
      count_range =
          within_range max_web_count i.count (m.parse_int (field_value (codes "count") r))
            (omega arith) c counted;
      workers_range =
          within_range m.cpus i.workers (m.parse_int (field_value (codes "workers") r)) room w
            staffed;
    }

-- Every evaluation that parseEvaluationInput accepts is within the console's limits, whatever the
-- form holds: exactly the four fields were sent, each with one value; the count, the seed, the workers
-- and the format are those values; the count is from 1 to 1000000, and the workers are from 1 to the
-- number of CPUs, if that is an int64.
pub parse_evaluation_input-IsWithin :
    (m : Machine) (r : FormRequest) (i : EvaluationInput)
    → m.cpus < sign_bit
    → (parse_evaluation_input m r).1 ≡ some i
    → IsWithin m r i
unfolding parse_evaluation_input
parse_evaluation_input-IsWithin m r i room h =
    let input =
      input_of (m.parse_int (field_value (codes "count") r))
        (m.parse_uint (field_value (codes "seed") r))
        (m.parse_int (field_value (codes "workers") r))
        (parse_format (field_value (codes "format") r)) in
    let (es, given) =
      accepted_shape (field_errors m r) input i
        (chosen r.parse_failed refused_form (form_of m r, accepted (field_errors m r) input) i h) in
    within m r i room es given

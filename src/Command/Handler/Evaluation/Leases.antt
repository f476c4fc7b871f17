-- ===== src/Command/Handler/Evaluation/Leases.antt =====
-- cmd/email-pipeline/web_handler.go: the lease of evaluate's run.
use personalized_email_pipel.Prelude.{
  if_holds, ap, not, ◌&&◌, ◌≡◌, refl, ◌∙◌, sym, true, false, List, Option, none, some, arith,
}
use personalized_email_pipel.Campaign.Loop.{Next}
use personalized_email_pipel.Campaign.Runner.{is_running}
use personalized_email_pipel.Command.Controller.{
  Controller, Lease, steps, finish, spared, steps-active, IsAdmission, admit-IsAdmission,
}
use personalized_email_pipel.Command.Handler.Evaluation.{
  evaluate, evaluate_form, lease_response, run_lease, generated_web_source, run_of,
}
use personalized_email_pipel.Command.Handler.{is_post, no_text, Console, Visit, Response}
use personalized_email_pipel.Command.Web.{
  allows_browser_post, EvaluationForm, EvaluationInput, parse_evaluation_input,
}

-- What a request leaves of the active lease: as it found it, if it is answered; otherwise its run goes
-- on under the lease that was made for it, there was none before, and no shutdown.
unfoldable pub Settles : Controller → Controller × Option Response → Type 0
Settles c (c', some r) = c'.active ≡ c.active
Settles c (c', none) =
    (c.active ≡ none)
    × (c.closed ≡ false)
    × (l : Lease) × (l.address ≡ c.next_address)
    × (c'.active ≡ some l)

-- The request is answered, and nothing is done to the active lease.
pub Settles-unchanged :
    (c c' : Controller) (r : Response) → c'.active ≡ c.active → Settles c (c', some r)
unfolding Settles
Settles-unchanged c c' r e = e

finish_active :
    (c : Controller) (l : Lease) → c.active ≡ some l → (finish c l.address).active ≡ none
unfolding finish
finish_active c l e = rw e (ground arith)

module _ (W : Console) (c : Controller) (v : Visit) (form : EvaluationForm)
    (input : EvaluationInput) (spares_own : spared c.next_address v.between ≡ true) where
  -- While the run goes on, its lease is the active one; behind its finish none is.
  steps_own :
      (c' : Controller) (l : Lease)
      → l.address ≡ c.next_address
      → c'.active ≡ some l
      → (steps c' v.between).active ≡ some l
  steps_own c' l own active = steps-active c' l v.between active (rw own spares_own)

  released :
      (c' : Controller) (l : Lease)
      → IsAdmission c (c', some l)
      → (finish (steps c' v.between) l.address).active ≡ c.active
  released c' l (idle, opened, own, active) =
      finish_active (steps c' v.between) l (steps_own c' l own active) ∙ sym idle

  run_lease-Settles :
      (c' : Controller) (l : Lease) (source : Option (List Next))
      → IsAdmission c (c', some l)
      → Settles c (run_lease W c' l v form input source)
  unfolding run_lease Settles
  run_lease-Settles c' l none admission = released c' l admission
  run_lease-Settles c' l (some xs) (idle, opened, own, active) =
      if_holds (Settles c) (is_running (run_of v input xs)) _ _
        (idle, opened, l, own, steps_own c' l own active)
        (released c' l (idle, opened, own, active))

  lease_response-Settles :
      (a : Controller × Option Lease)
      → IsAdmission c a
      → Settles c (lease_response W v form input a)
  unfolding lease_response
  lease_response-Settles (c', none) same = Settles-unchanged c c' _ (ap (λ x. x.active) same)
  lease_response-Settles (c', some l) admission =
      run_lease-Settles c' l (generated_web_source W input) admission

module _ (W : Console) where
  pub evaluate-Settles :
      (c : Controller) (v : Visit)
      → spared c.next_address v.between ≡ true
      → Settles c (evaluate W c v)
  unfolding evaluate evaluate_form
  evaluate-Settles c v h =
      if_holds (Settles c) (not (is_post v.request.method)) _ _ (Settles-unchanged c c _ refl) (
        if_holds (Settles c) (not (allows_browser_post W.urls v.request.browser)) _ _
          (Settles-unchanged c c _ refl)
          (by_input (parse_evaluation_input W.machine v.request.form).1))
    where
      by_input :
          (input : Option EvaluationInput)
          → Settles c
              (evaluate_form W c v (parse_evaluation_input W.machine v.request.form).0 input)
      by_input none = Settles-unchanged c c _ refl
      by_input (some input) =
          if_holds (Settles c) (v.request.hx_request && no_text v.request.run_id) _ _
            (Settles-unchanged c c _ refl)
            (lease_response-Settles W c v (parse_evaluation_input W.machine v.request.form).0 input
              h _ (admit-IsAdmission c _ _))

-- ===== src/Command/Handler/Routes/Leases.antt =====
-- cmd/email-pipeline/web_handler.go: what a request to any path does to the controller of the runs.
use personalized_email_pipel.Prelude.{
  if_holds, ◌≡◌, refl, Bool, true, false, not, ◌&&◌, Option, none, some, if◌then◌else◌, arith,
}
use personalized_email_pipel.Campaign.Text.{codes, text_eq}
use personalized_email_pipel.Command.Controller.{Controller, cancel-active, spared}
use personalized_email_pipel.Command.Handler.Evaluation.{evaluate}
use personalized_email_pipel.Command.Handler.Evaluation.Leases.{
  Settles, Settles-unchanged, evaluate-Settles,
}
use personalized_email_pipel.Command.Handler.Routes.{
  serve_http, cancel_run, refuses_cancel_form, serve_page, serve_preview, unchanged,
}
use personalized_email_pipel.Command.Handler.{Console, Visit, Response, is_post}
use personalized_email_pipel.Command.Web.{field_value, allows_browser_post}

unfoldable KeepsActive : Controller → Controller × Response → Type 0
KeepsActive c x = x.0.active ≡ c.active

module _ (W : Console) (c : Controller) (v : Visit) where
  cancel_run_active : KeepsActive c (cancel_run W c v)
  unfolding cancel_run KeepsActive
  cancel_run_active =
      if_holds (λ (x : Controller × Response). x.0.active ≡ c.active)
        (not (is_post v.request.method)) _ _ refl
        (if_holds (λ (x : Controller × Response). x.0.active ≡ c.active)
          (not (allows_browser_post W.urls v.request.browser)) _ _ refl
          (if_holds (λ (x : Controller × Response). x.0.active ≡ c.active)
            (refuses_cancel_form v.request.form) _ _ refl
            (cancel-active c (field_value (codes "run_id") v.request.form))))

  unchanged-Settles : (r : Response) → Settles c (unchanged c r)
  unchanged-Settles r = Settles-unchanged c c r refl

  -- A request to any path that is answered leaves the active lease as it found it, whatever other
  -- requests and a shutdown do while it is served; one that is not answered has its run going on, which
  -- holds the lease made for this request, and then no run held one before and there was no shutdown.
  -- No other step finishes the request's own lease.
  pub serve_http-Settles : spared c.next_address v.between ≡ true → Settles c (serve_http W c v)
  unfolding serve_http KeepsActive
  serve_http-Settles h =
      let path = v.request.path in
      if_holds (Settles c) (text_eq path (codes "/")) _ _ (unchanged-Settles (serve_page W v)) (
        if_holds (Settles c) (text_eq path (codes "/evaluate")) _ _ (evaluate-Settles W c v h) (
          if_holds (Settles c) (text_eq path (codes "/preview")) _ _
            (unchanged-Settles (serve_preview W v.request))
            (if_holds (Settles c) (text_eq path (codes "/cancel")) _ _
              (Settles-unchanged c (cancel_run W c v).0 (cancel_run W c v).1 cancel_run_active)
              (if_holds (Settles c) (text_eq path (codes "/assets/htmx-2.0.4.min.js")) _ _
                (unchanged-Settles _)
                (if_holds (Settles c) (text_eq path (codes "/assets/htmx-LICENSE.txt")) _ _
                  (unchanged-Settles _) (unchanged-Settles _))))))

if_refused {ℓ ℓ'} :
    {A : Type ℓ} (P : A → Type ℓ') (p a : Bool) (x y z : A)
    → (p && a) ≡ false
    → P x
    → P y
    → P (if not p then x else if not a then y else z)
if_refused P true true x y z h l m = absurd (ground (arith, h))
if_refused P true false x y z h l m = m
if_refused P false a x y z h l m = l

-- The request is answered, and the controller is as it was.
unfoldable pub Leaves : Controller → Controller × Option Response → Type 0
Leaves c (c', none) = ⊥
Leaves c (c', some r) = c' ≡ c

module _ (W : Console) (c : Controller) (v : Visit) where
  unchanged-Leaves : (r : Response) → Leaves c (unchanged c r)
  unfolding Leaves
  unchanged-Leaves r = refl

  cancel_run_refused :
      (is_post v.request.method && allows_browser_post W.urls v.request.browser) ≡ false
      → (cancel_run W c v).0 ≡ c
  unfolding cancel_run
  cancel_run_refused h =
      if_refused (λ (x : Controller × Response). x.0 ≡ c) (is_post v.request.method)
        (allows_browser_post W.urls v.request.browser) _ _ _ h refl refl

  -- A request that is no POST, or a POST that the origin checks refuse, is answered whatever the run would
  -- do, and leaves the controller as it is: only an allowed POST starts or cancels a run.
  pub serve_http-Leaves :
      (is_post v.request.method && allows_browser_post W.urls v.request.browser) ≡ false
      → Leaves c (serve_http W c v)
  unfolding serve_http evaluate Leaves
  serve_http-Leaves h =
      let path = v.request.path in
      let p = is_post v.request.method in
      let a = allows_browser_post W.urls v.request.browser in
      if_holds (Leaves c) (text_eq path (codes "/")) _ _ refl (
        if_holds (Leaves c) (text_eq path (codes "/evaluate")) _ _
          (if_refused (Leaves c) p a _ _ _ h refl refl)
          (if_holds (Leaves c) (text_eq path (codes "/preview")) _ _ refl (
            if_holds (Leaves c) (text_eq path (codes "/cancel")) _ _ (cancel_run_refused h) (
              if_holds (Leaves c) (text_eq path (codes "/assets/htmx-2.0.4.min.js")) _ _ refl (
                if_holds (Leaves c) (text_eq path (codes "/assets/htmx-LICENSE.txt")) _ _ refl
                  refl)))))

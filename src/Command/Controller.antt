-- ===== src/Command/Controller.antt =====
-- cmd/email-pipeline/web_controller.go: which run of the web console holds the lease. A lease's
-- address is the number of the admission that made it; `ended` holds the addresses whose context has
-- been cancelled. The mutex makes each operation one step.
use personalized_email_pipel.Prelude.{
  ℕ, ◌+◌, ◌≡◌, refl, Bool, true, false, not, ◌&&◌, ◌||◌, List, [], ◌∷◌, Option, none, some, ◌==◌,
  if◌then◌else◌, length, arith,
}
use personalized_email_pipel.Campaign.Model.{Text}
use personalized_email_pipel.Campaign.Text.{text_eq}
use personalized_email_pipel.Distributed.Redis.{has}

pub record Lease : Type 0 where
  pub address : ℕ
  pub id : Text
  pub enhanced : Bool

pub record Controller : Type 0 where
  pub active : Option Lease
  pub closed : Bool
  pub ended : List ℕ
  pub next_address : ℕ

-- The zero value of webRunController.
abbrev pub idle : Controller
idle = record { active = none; closed = false; ended = []; next_address = 0 }

abbrev is_free : Option Lease → Bool
is_free none = true
is_free (some l) = false

-- admit: `none` is errWebBusy.
unfoldable pub admit : Controller → Bool → Text → Controller × Option Lease
admit c enhanced run_id =
    let lease : Lease = record {
      address = c.next_address;
      id = if enhanced then run_id else [];
      enhanced = enhanced;
    } in
    if c.closed || not (is_free c.active)
    then (c, none)
    else (record c { active = some lease; next_address = c.next_address + 1 }, some lease)

abbrev pub holds : Option Lease → ℕ → Bool
holds none address = false
holds (some l) address = l.address == address

unfoldable pub finish : Controller → ℕ → Controller
finish c address = record c {
  ended = address ∷ c.ended;
  active = if holds c.active address then none else c.active;
}

cancel_active : Controller → Option Lease → Text → Controller × Bool
cancel_active c none run_id = (c, false)
cancel_active c (some l) run_id =
    if not l.enhanced || not (text_eq l.id run_id)
    then (c, false)
    else (record c { ended = l.address ∷ c.ended }, true)

-- cancel: `false` is errWebConflict.
unfoldable pub cancel : Controller → Text → Controller × Bool
unfolding cancel_active
cancel c run_id = if length run_id == 0 then (c, false) else cancel_active c c.active run_id

end_active : Option Lease → List ℕ → List ℕ
end_active none ended = ended
end_active (some l) ended = l.address ∷ ended

unfoldable pub shutdown : Controller → Controller
unfolding end_active
shutdown c = record c { closed = true; ended = end_active c.active c.ended }

pub data Step : Type 0 where
  admits : Bool → Text → Step
  finishes : ℕ → Step
  cancels : Text → Step
  shuts : Step

abbrev pub step : Controller → Step → Controller
step c (admits enhanced run_id) = (admit c enhanced run_id).0
step c (finishes address) = finish c address
step c (cancels run_id) = (cancel c run_id).0
step c shuts = shutdown c

abbrev pub steps : Controller → List Step → Controller
steps c [] = c
steps c (x ∷ xs) = steps (step c x) xs

-- The lease is not finished by a step.
abbrev spares : ℕ → Step → Bool
spares address (finishes a) = not (a == address)
spares address (admits enhanced run_id) = true
spares address (cancels run_id) = true
spares address shuts = true

abbrev pub spared : ℕ → List Step → Bool
spared address [] = true
spared address (x ∷ xs) = spares address x && spared address xs

cancel_active-active :
    (c : Controller) (o : Option Lease) (run_id : Text)
    → (cancel_active c o run_id).0.active ≡ c.active
unfolding cancel_active
cancel_active-active c none run_id = refl
cancel_active-active c (some l) run_id = ground arith

pub cancel-active : (c : Controller) (run_id : Text) → (cancel c run_id).0.active ≡ c.active
unfolding cancel
cancel-active c run_id = ground (arith, cancel_active-active c c.active run_id)

step-active :
    (c : Controller) (l : Lease) (x : Step)
    → c.active ≡ some l
    → spares l.address x ≡ true
    → (step c x).active ≡ some l
unfolding admit finish shutdown cancel
step-active c l (admits enhanced run_id) e h = rw e (ground arith)
step-active c l (finishes a) e h = rw e (ground arith)
step-active c l (cancels run_id) e h = ground (arith, cancel_active-active c c.active run_id)
step-active c l shuts e h = e

pub steps-active :
    (c : Controller) (l : Lease) (xs : List Step)
    → c.active ≡ some l
    → spared l.address xs ≡ true
    → (steps c xs).active ≡ some l
steps-active c l [] e h = e
steps-active c l (x ∷ xs) e h =
    let (first, rest) = both (spares l.address x) (spared l.address xs) h in
    steps-active (step c x) l xs (step-active c l x e first) rest
  where
    both : (a b : Bool) → (a && b) ≡ true → (a ≡ true) × (b ≡ true)
    both a b k = ground arith

pub admit-some :
    (c : Controller) (enhanced : Bool) (run_id : Text) (l : Lease)
    → (admit c enhanced run_id).1 ≡ some l
    → (admit c enhanced run_id).0.active ≡ some l
unfolding admit
admit-some c enhanced run_id l h = ground arith

-- An admission: refused with nothing changed, or given to an idle controller, with its next lease.
abbrev pub IsAdmission : Controller → Controller × Option Lease → Type 0
IsAdmission c (c', none) = c' ≡ c
IsAdmission c (c', some l) =
    (c.active ≡ none) × (c.closed ≡ false) × (l.address ≡ c.next_address) × (c'.active ≡ some l)

pub admit-IsAdmission :
    (c : Controller) (enhanced : Bool) (run_id : Text) → IsAdmission c (admit c enhanced run_id)
unfolding admit
admit-IsAdmission c enhanced run_id = by_fields c.active refl c.closed refl
  where
    lease : Lease
    lease = record {
      address = c.next_address;
      id = if enhanced then run_id else [];
      enhanced = enhanced;
    }

    by_fields :
        (o : Option Lease)
        → c.active ≡ o
        → (closed : Bool) → c.closed ≡ closed
        → IsAdmission c (
            if closed || not (is_free o)
            then (c, none)
            else (record c { active = some lease; next_address = c.next_address + 1 }, some lease))
    by_fields (some l) e true k = refl
    by_fields (some l) e false k = refl
    by_fields none e true k = refl
    by_fields none e false k = (e, k, refl, refl)

-- A controller that is idle and not shut down admits a run.
pub admit_idle :
    (c : Controller) (enhanced : Bool) (run_id : Text)
    → c.active ≡ none
    → c.closed ≡ false
    → (l : Lease) × ((admit c enhanced run_id).1 ≡ some l)
unfolding admit
admit_idle c enhanced run_id e k =
    let lease : Lease = record {
      address = c.next_address;
      id = if enhanced then run_id else [];
      enhanced = enhanced;
    } in
    (lease, rw e (rw k refl))

busy :
    (c : Controller) (l : Lease) (enhanced : Bool) (run_id : Text)
    → c.active ≡ some l
    → (admit c enhanced run_id).1 ≡ none
unfolding admit
busy c l enhanced run_id e = rw e (ground arith)

-- From an admission until its lease is finished, whatever steps come between, the lease is the
-- active one and every other admission is refused.
pub admit_excludes :
    (c : Controller) (enhanced enhanced' : Bool) (run_id run_id' : Text) (l : Lease)
    (xs : List Step)
    → (admit c enhanced run_id).1 ≡ some l
    → spared l.address xs ≡ true
    → let c' = steps (admit c enhanced run_id).0 xs in
      (c'.active ≡ some l) × ((admit c' enhanced' run_id').1 ≡ none)
admit_excludes c enhanced enhanced' run_id run_id' l xs h sp =
    let c' = steps (admit c enhanced run_id).0 xs in
    let e = steps-active (admit c enhanced run_id).0 l xs (admit-some c enhanced run_id l h) sp in
    (e, busy c' l enhanced' run_id' e)

step-closed : (c : Controller) (x : Step) → c.closed ≡ true → (step c x).closed ≡ true
unfolding admit finish shutdown cancel cancel_active
step-closed c (admits enhanced run_id) e = rw e refl
step-closed c (finishes a) e = e
step-closed c (cancels run_id) e = ground arith
step-closed c shuts e = refl

steps-closed : (c : Controller) (xs : List Step) → c.closed ≡ true → (steps c xs).closed ≡ true
steps-closed c [] e = e
steps-closed c (x ∷ xs) e = steps-closed (step c x) xs (step-closed c x e)

refused :
    (c : Controller) (enhanced : Bool) (run_id : Text)
    → c.closed ≡ true
    → (admit c enhanced run_id).1 ≡ none
unfolding admit
refused c enhanced run_id e = rw e refl

was_ended :
    (o : Option Lease) (l : Lease) (ended : List ℕ)
    → o ≡ some l
    → has l.address (end_active o ended) ≡ true
unfolding end_active
was_ended o l ended e = rw e (ground arith)

-- A shutdown cancels the context of the active lease, if there is one, and every admission behind
-- it is refused, whatever steps come between.
pub shutdown_refuses :
    (c : Controller) (xs : List Step) (enhanced : Bool) (run_id : Text)
    → ((l : Lease) → c.active ≡ some l → has l.address (shutdown c).ended ≡ true)
      × ((admit (steps (shutdown c) xs) enhanced run_id).1 ≡ none)
unfolding shutdown
shutdown_refuses c xs enhanced run_id = (
  λ l e. was_ended c.active l c.ended e,
  refused _ enhanced run_id (steps-closed (shutdown c) xs refl),
)

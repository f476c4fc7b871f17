-- ===== src/Distributed/Scripts/Calls/Delivery.antt =====
-- internal/distributed/scripts.go: what holds of one ordinal over any sequence of later calls.
use personalized_email_pipel.Prelude.{
  ℕ, ◌≡◌, refl, true, false, ◌&&◌, List, [], ◌∷◌, Option, none, some, arith, ◌==◌, if◌then◌else◌,
  subst, ◌∙◌,
}
use personalized_email_pipel.Distributed.Model.{AttemptPolicy, one_shot_delivery, AttemptKind}
use personalized_email_pipel.Distributed.Redis.{Redis}
use personalized_email_pipel.Distributed.Scripts.Begin.{begin_script}
use personalized_email_pipel.Distributed.Scripts.Begin.Replies.{
  has_passed, grants, begin_script_passed, begin_script_granted,
}
use personalized_email_pipel.Distributed.Scripts.Begin.Phases.{begin_phase, begin_script-IsAt}
use personalized_email_pipel.Distributed.Scripts.Begin.Terms.{begin_script-Continues}
use personalized_email_pipel.Distributed.Scripts.Calls.Terms.{call-Continues}
use personalized_email_pipel.Distributed.Scripts.Calls.{
  Call, call, call_phase, call-IsAt_any, call_phase-Move,
}
use personalized_email_pipel.Distributed.Scripts.Invariant.{IsWellFormed, run}
use personalized_email_pipel.Distributed.Scripts.Later.{Continues}
use personalized_email_pipel.Distributed.Scripts.Phase.{in_span, Phase, is_terminal, IsAt, Move}
use personalized_email_pipel.Distributed.Scripts.Store.{Meta, Store}

Move-is_terminal : {p q : Phase} → Move p q → is_terminal p ≡ true → q ≡ p
Move-is_terminal Move.stay h = refl
Move-is_terminal Move.acknowledges h = cc
Move-is_terminal Move.begins h = cc
Move-is_terminal Move.completes h = cc
Move-is_terminal Move.fails h = cc
Move-is_terminal Move.drops h = cc

Move-has_passed : {p q : Phase} → Move p q → has_passed p ≡ true → has_passed q ≡ true
Move-has_passed Move.stay h = h
Move-has_passed Move.acknowledges h = cc
Move-has_passed Move.begins h = refl
Move-has_passed Move.completes h = refl
Move-has_passed Move.fails h = refl
Move-has_passed Move.drops h = cc

pub some_of_Continues :
    (m : Meta) (mo : Option Meta)
    → Continues m mo
    → (n : Meta) × (mo ≡ some n) × (n.policy ≡ m.policy) × (n.total ≡ m.total)
some_of_Continues m none c = absurd c
some_of_Continues m (some n) c = (n, refl, c.same_policy, c.same_total)

module _ (R : Redis) (P : Phase → Type 0) (keep : (p q : Phase) → Move p q → P p → P q) where
  -- A created campaign, with an ordinal in a phase of which `P` holds.
  record Kept (policy : AttemptPolicy) (s : Store R) (o : ℕ) : Type 0 where
    terms : Meta
    phase : Phase
    here : s.meta ≡ some terms
    same_policy : terms.policy ≡ policy
    at_phase : IsAt R s o phase
    holds : P phase

  call-Kept :
      (policy : AttemptPolicy) (s : Store R) (c : Call) (o : ℕ)
      → Kept policy s o
      → Kept policy (call R s c).0 o
  call-Kept policy s c o k =
      let (n, e, pol, tot) =
        some_of_Continues k.terms (call R s c).0.meta (call-Continues R s k.terms c k.here) in
      record {
        terms = n;
        phase = call_phase k.terms c o k.phase;
        here = e;
        same_policy = pol ∙ k.same_policy;
        at_phase = call-IsAt_any R s k.terms c o k.phase k.here k.at_phase;
        holds = keep k.phase _ (call_phase-Move k.terms c o k.phase) k.holds;
      }

  -- A property of phases that every move keeps is kept by every run of a created campaign.
  run-Kept :
      (policy : AttemptPolicy) (cs : List Call) (s : Store R) (o : ℕ)
      → Kept policy s o
      → Kept policy (run R s cs) o
  unfolding run
  run-Kept policy [] s o k = k
  run-Kept policy (c ∷ cs) s o k = run-Kept policy cs (call R s c).0 o (call-Kept policy s c o k)

-- A completed, failed or unprocessed ordinal keeps its phase through any later calls.
pub run-is_terminal :
    (R : Redis) (cs : List Call) (s : Store R) (m : Meta) (o : ℕ) (p : Phase)
    → s.meta ≡ some m
    → IsAt R s o p
    → is_terminal p ≡ true
    → IsAt R (run R s cs) o p
run-is_terminal R cs s m o p e a h =
    let k =
      run-Kept R (λ q. q ≡ p) (λ q r mv f. Move-is_terminal mv (rw f h) ∙ f) m.policy cs s o
        (record {
          terms = m;
          phase = p;
          here = e;
          same_policy = refl;
          at_phase = a;
          holds = refl;
        }) in
    subst (IsAt R (run R s cs) o) k.holds k.at_phase

has_passed_after :
    (m : Meta) (o : ℕ) (kind : AttemptKind) (p : Phase)
    → in_span 1 m.total o ≡ true
    → has_passed (begin_phase m kind p) ≡ true
    → has_passed (if in_span 1 m.total o && o == o then begin_phase m kind p else p) ≡ true
has_passed_after m o kind p r h = ground arith

-- Once begin has granted an attempt at an ordinal in a one-shot campaign, no later begin for that
-- ordinal grants one, whatever calls come between and of whatever kind the attempts are, if the
-- store was well formed before the first.
pub begin_script-grants_once :
    (R : Redis) (s : Store R) (m : Meta) (o : ℕ) (kind kind' : AttemptKind) (now now' : ℕ)
    (cs : List Call)
    → IsWellFormed R s
    → s.meta ≡ some m
    → m.policy ≡ one_shot_delivery
    → grants (begin_script R s o kind now).1 ≡ true
    → grants (begin_script R (run R (begin_script R s o kind now).0 cs) o kind' now').1 ≡ false
begin_script-grants_once R s m o kind kind' now now' cs w e pol g =
    let at = (w.placed o).at_phase in
    let p = (w.placed o).phase in
    let (r, passed) = begin_script_granted R s m o kind now p e at g in
    let (n, f, same, tot) =
      some_of_Continues m (begin_script R s o kind now).0.meta
        (begin_script-Continues R s m o kind now e) in
    let k =
      run-Kept R (λ q. has_passed q ≡ true) (λ q q' mv h. Move-has_passed mv h) one_shot_delivery cs
        (begin_script R s o kind now).0 o
        (record {
          terms = n;
          phase = if in_span 1 m.total o && o == o then begin_phase m kind p else p;
          here = f;
          same_policy = same ∙ pol;
          at_phase = begin_script-IsAt R s m o o kind now p e at;
          holds = has_passed_after m o kind p r passed;
        }) in
    begin_script_passed R _ k.terms o kind' now' k.phase k.here k.same_policy k.at_phase k.holds

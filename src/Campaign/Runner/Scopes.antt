-- ===== src/Campaign/Runner/Scopes.antt =====
-- The accounting scope in every round of internal/campaign/runner.go.
use personalized_email_pipel.Prelude.{
  ℕ, ◌≡◌, refl, ◌⊎◌, inl, inr, true, false, ◌&&◌, List, [], ◌∷◌, Option, none, some, arith,
}
use personalized_email_pipel.Campaign.Model.{Recipient, Reason, Text}
use personalized_email_pipel.Campaign.Normalize.{normalize_email}
use personalized_email_pipel.Campaign.Runner.Rule.{Keeps, if_keeps, run_turns_keeps}
use personalized_email_pipel.Campaign.Runner.{
  observe_cancel, fail_all, enforce_deadline, classify_record, classify_parsed, classify_address,
  classify_eligible, read_input, read_next, read_source, settle_result, grant, grant_front,
  run_turns, reads_input,
}
use personalized_email_pipel.Campaign.Loop.{
  Loop, SourceRecord, Next, gives, fails, ends, Turn, RunConfig, WorkerResult, full, prefix_only,
  initial_loop,
}

-- The scope is the one that goes with a fatal run, or with any other.
abbrev pub FitsScope : Loop → Type 0
FitsScope s = ((s.fatal ≡ true) × (s.scope ≡ prefix_only)) ⊎ ((s.fatal ≡ false) × (s.scope ≡ full))

observe_cancel-FitsScope :
    (cfg : RunConfig) (s : Loop) (t : Turn) → FitsScope s → FitsScope (observe_cancel cfg s t)
unfolding observe_cancel
observe_cancel-FitsScope cfg s t f = ground arith

fail_all-FitsScope : (os : List ℕ) (s : Loop) → FitsScope s → FitsScope (fail_all s os)
unfolding fail_all
fail_all-FitsScope [] s f = f
fail_all-FitsScope (o ∷ os) s f = fail_all-FitsScope os _ f

enforce_deadline-FitsScope : (s : Loop) (t : Turn) → FitsScope s → FitsScope (enforce_deadline s t)
unfolding enforce_deadline
enforce_deadline-FitsScope s t f = if_keeps FitsScope _ _ _ (fail_all-FitsScope s.active s f) f

classify_eligible-FitsScope :
    (s : Loop) (r : SourceRecord) (identity : Text)
    → FitsScope s
    → FitsScope (classify_eligible s r identity)
unfolding classify_eligible
classify_eligible-FitsScope s r identity f = if_keeps FitsScope _ _ _ f f

classify_address-FitsScope :
    (s : Loop) (r : SourceRecord) (found : Option Text)
    → FitsScope s
    → FitsScope (classify_address s r found)
unfolding classify_address
classify_address-FitsScope s r none f = f
classify_address-FitsScope s r (some identity) f =
    if_keeps FitsScope _ _ _ f (classify_eligible-FitsScope s r identity f)

classify_parsed-FitsScope :
    (s : Loop) (r : SourceRecord) (reason : Option Reason)
    → FitsScope s
    → FitsScope (classify_parsed s r reason)
unfolding classify_parsed
classify_parsed-FitsScope s r none f = classify_address-FitsScope s r (normalize_email r.email) f
classify_parsed-FitsScope s r (some reason) f = f

read_source-FitsScope :
    (cfg : RunConfig) (s : Loop) (t : Turn) (xs : List Next)
    → FitsScope s
    → FitsScope (read_source cfg s t xs)
unfolding read_source read_next classify_record
read_source-FitsScope cfg s t [] f = f
read_source-FitsScope cfg s t (ends ∷ rest) f = f
read_source-FitsScope cfg s t (fails ∷ rest) f = inl (refl, refl)
read_source-FitsScope cfg s t (gives r ∷ rest) f =
    classify_parsed-FitsScope (record s { source = rest }) r r.parser_reason f

settle_result-FitsScope :
    (cfg : RunConfig) (s : Loop) (w : WorkerResult)
    → FitsScope s
    → FitsScope (settle_result cfg s w)
unfolding settle_result
settle_result-FitsScope cfg s w f = ground arith

grant-FitsScope : (s : Loop) (q : List Recipient) → FitsScope s → FitsScope (grant_front s q)
unfolding grant_front
grant-FitsScope s [] f = f
grant-FitsScope s (r ∷ rest) f = f

FitsScope-Keeps : (cfg : RunConfig) → Keeps FitsScope cfg
unfolding read_input grant
FitsScope-Keeps cfg = record {
  observe_keeps = observe_cancel-FitsScope cfg;
  enforce_keeps = enforce_deadline-FitsScope;
  read_keeps = λ s t f.
      if_keeps FitsScope (reads_input cfg s) _ s (read_source-FitsScope cfg s t s.source f) f;
  result_keeps = settle_result-FitsScope cfg;
  grant_keeps = λ s ready f.
      if_keeps FitsScope (s.admission_open && ready) _ s (grant-FitsScope s s.queue f) f;
}

pub run_turns-FitsScope :
    (cfg : RunConfig) (source : List Next) (ts : List Turn)
    → FitsScope (run_turns cfg (initial_loop source) ts)
run_turns-FitsScope cfg source ts =
    run_turns_keeps FitsScope cfg (FitsScope-Keeps cfg) (initial_loop source) ts (inr (refl, refl))

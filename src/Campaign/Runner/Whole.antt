-- ===== src/Campaign/Runner/Whole.antt =====
-- internal/campaign/runner.go: what a run has read of a source that does not fail.
use personalized_email_pipel.Prelude.{
  inl, inr, ℕ, zero, suc, ◌+◌, ◌<◌, ◌≡◌, subst, sym, ◌∙◌, not, refl, true, false, ◌&&◌, List, [],
  ◌∷◌, Option, none, some, arith,
}
use personalized_email_pipel.Prelude.Int64.{sign_bit, inc64}
use personalized_email_pipel.Campaign.Model.{Recipient, Reason, Text}
use personalized_email_pipel.Campaign.Normalize.{normalize_email}
use personalized_email_pipel.Campaign.Runner.Rule.{Keeps, if_keeps, run_turns_keeps}
use personalized_email_pipel.Campaign.Runner.Scopes.{FitsScope, run_turns-FitsScope}
use personalized_email_pipel.Campaign.Runner.{
  observe_cancel, fail_all, enforce_deadline, classify_record, classify_parsed, classify_address,
  classify_eligible, read_input, read_next, read_source, settle_result, grant, grant_front,
  run_turns, is_active, is_accepted, after_deadline, reads_input, is_running,
}
use personalized_email_pipel.Campaign.Loop.{
  full, Loop, SourceRecord, Next, gives, fails, ends, Turn, RunConfig, WorkerResult, full,
  initial_loop,
}

-- The source gives `n` records and then ends.
unfoldable pub Gives : ℕ → List Next → Type 0
Gives zero [] = Unit {0}
Gives zero (ends ∷ []) = Unit {0}
Gives (suc n) (gives r ∷ rest) = Gives n rest
Gives _ _ = ⊥

-- A record of the source is examined.
record IsExamined (s t : Loop) : Type 0 where
  source_kept : t.source ≡ s.source
  counted : t.counts.examined ≡ inc64 s.counts.examined
  end_kept : t.input_done ≡ s.input_done
  fatal_kept : t.fatal ≡ s.fatal

classify_record-IsExamined : (s : Loop) (r : SourceRecord) → IsExamined s (classify_record s r)
unfolding classify_record classify_parsed classify_address classify_eligible
classify_record-IsExamined s r = parsed r.parser_reason
  where
    eligible : (identity : Text) → IsExamined s (classify_eligible s r identity)
    eligible identity =
        if_keeps (IsExamined s) (not s.admission_open) _ _
          (record { source_kept = refl; counted = refl; end_kept = refl; fatal_kept = refl })
          (record { source_kept = refl; counted = refl; end_kept = refl; fatal_kept = refl })

    address : (found : Option Text) → IsExamined s (classify_address s r found)
    address none = (record {
      source_kept = refl;
      counted = refl;
      end_kept = refl;
      fatal_kept = refl;
    })
    address (some identity) =
        if_keeps (IsExamined s) _ _ _
          (record { source_kept = refl; counted = refl; end_kept = refl; fatal_kept = refl })
          (eligible identity)

    parsed : (reason : Option Reason) → IsExamined s (classify_parsed s r reason)
    parsed none = address (normalize_email r.email)
    parsed (some reason) = (record {
      source_kept = refl;
      counted = refl;
      end_kept = refl;
      fatal_kept = refl;
    })

none_left : (n : ℕ) → Gives n [] → n ≡ 0
unfolding Gives
none_left zero g = refl
none_left (suc n) g = absurd g

never_fails : (n : ℕ) (xs : List Next) → Gives n (fails ∷ xs) → ⊥
unfolding Gives
never_fails zero xs g = g
never_fails (suc n) xs g = g

last_end : (n : ℕ) (xs : List Next) → Gives n (ends ∷ xs) → (n ≡ 0) × Gives 0 xs
unfolding Gives
last_end zero [] g = (refl, tt)
last_end zero (x ∷ xs) g = absurd g
last_end (suc n) xs g = absurd g

next_record :
    (n : ℕ) (r : SourceRecord) (xs : List Next)
    → Gives n (gives r ∷ xs)
    → (m : ℕ) × (n ≡ suc m) × Gives m xs
unfolding Gives
next_record zero r xs g = absurd g
next_record (suc n) r xs g = (n, refl, g)

module _ (total : ℕ) (short : total < sign_bit) where
  -- Of the `total` records, all that are not left in the source have been examined.
  record IsRead (s : Loop) : Type 0 where
    left : ℕ
    rest : Gives left s.source
    examined_split : s.counts.examined + left ≡ total
    at_end : s.input_done ≡ true → left ≡ 0
    never_fatal : s.fatal ≡ false

  IsRead-same :
      (s t : Loop)
      → t.source ≡ s.source
      → t.counts.examined ≡ s.counts.examined
      → t.input_done ≡ s.input_done
      → t.fatal ≡ s.fatal
      → IsRead s
      → IsRead t
  IsRead-same s t e k d f h = record {
    left = h.left;
    rest = rw e h.rest;
    examined_split = rw k h.examined_split;
    at_end = λ y. h.at_end (sym d ∙ y);
    never_fatal = f ∙ h.never_fatal;
  }

  observe_cancel-IsRead :
      (cfg : RunConfig) (s : Loop) (t : Turn) → IsRead s → IsRead (observe_cancel cfg s t)
  unfolding observe_cancel
  observe_cancel-IsRead cfg s t f =
      if_keeps IsRead (t.cancelled && not s.cancelled) _ _ (IsRead-same s _ refl refl refl refl f) f

  fail_all-IsRead : (os : List ℕ) (s : Loop) → IsRead s → IsRead (fail_all s os)
  unfolding fail_all
  fail_all-IsRead [] s f = f
  fail_all-IsRead (o ∷ os) s f = fail_all-IsRead os _ (IsRead-same s _ refl refl refl refl f)

  enforce_deadline-IsRead : (s : Loop) (t : Turn) → IsRead s → IsRead (enforce_deadline s t)
  unfolding enforce_deadline
  enforce_deadline-IsRead s t f = if_keeps IsRead _ _ _ (fail_all-IsRead s.active s f) f

  read_source-IsRead :
      (cfg : RunConfig) (s : Loop) (t : Turn) (xs : List Next)
      → s.source ≡ xs
      → IsRead s
      → IsRead (read_source cfg s t xs)
  unfolding read_source read_next
  read_source-IsRead cfg s t [] e f = record {
    left = f.left;
    rest = f.rest;
    examined_split = f.examined_split;
    at_end = λ y. none_left f.left (subst (Gives f.left) e f.rest);
    never_fatal = f.never_fatal;
  }
  read_source-IsRead cfg s t (fails ∷ rest) e f =
      absurd (never_fails f.left rest (subst (Gives f.left) e f.rest))
  read_source-IsRead cfg s t (ends ∷ rest) e f =
      let (empty, over) = last_end f.left rest (subst (Gives f.left) e f.rest) in
      record {
        left = f.left;
        rest = subst (λ n. Gives n rest) (sym empty) over;
        examined_split = f.examined_split;
        at_end = λ y. empty;
        never_fatal = f.never_fatal;
      }
  read_source-IsRead cfg s t (gives r ∷ rest) e f =
      let (n, more, later) = next_record f.left r rest (subst (Gives f.left) e f.rest) in
      let x = classify_record-IsExamined (record s { source = rest }) r in
      record {
        left = n;
        rest = rw x.source_kept later;
        examined_split = omega (arith, f.examined_split, short, more, x.counted);
        at_end = λ y. absurd (omega (arith, more, f.at_end (sym x.end_kept ∙ y)));
        never_fatal = x.fatal_kept ∙ f.never_fatal;
      }

  settle_result-IsRead :
      (cfg : RunConfig) (s : Loop) (w : WorkerResult) → IsRead s → IsRead (settle_result cfg s w)
  unfolding settle_result
  settle_result-IsRead cfg s w f = if_keeps IsRead (not (is_active w.ordinal s.active)) _ _ f (
      if_keeps IsRead (is_accepted w.reason && not (after_deadline w.accepted s.deadline)) _ _
        (IsRead-same s _ refl refl refl refl f) (IsRead-same s _ refl refl refl refl f))

  grant-IsRead : (s : Loop) (q : List Recipient) → IsRead s → IsRead (grant_front s q)
  unfolding grant_front
  grant-IsRead s [] f = f
  grant-IsRead s (r ∷ rest) f = IsRead-same s _ refl refl refl refl f

  IsRead-Keeps : (cfg : RunConfig) → Keeps IsRead cfg
  unfolding read_input grant
  IsRead-Keeps cfg = record {
    observe_keeps = observe_cancel-IsRead cfg;
    enforce_keeps = enforce_deadline-IsRead;
    read_keeps = λ s t f.
        if_keeps IsRead (reads_input cfg s) _ s (read_source-IsRead cfg s t s.source refl f) f;
    result_keeps = settle_result-IsRead cfg;
    grant_keeps =
        λ s ready f. if_keeps IsRead (s.admission_open && ready) _ s (grant-IsRead s s.queue f) f;
  }

sound_scope : (s : Loop) → FitsScope s → s.fatal ≡ false → s.scope ≡ full
sound_scope s (inl (e, scope)) k = absurd (ground (arith, e, k))
sound_scope s (inr (e, scope)) k = scope

read_to_end : (s : Loop) → is_running s ≡ false → s.input_done ≡ true
read_to_end s e = ground arith

-- A finished run over a source that gives fewer than 2 ^ 63 records and then ends, without an error,
-- has examined each of them, is not fatal and has the full scope, whatever the clock, the context and the workers do: a
-- run that is cancelled included.
pub run_turns-examines_all :
    (cfg : RunConfig) (source : List Next) (ts : List Turn) (n : ℕ)
    → Gives n source
    → n < sign_bit
    → is_running (run_turns cfg (initial_loop source) ts) ≡ false
    → let s = run_turns cfg (initial_loop source) ts in
      (s.counts.examined ≡ n) × (s.fatal ≡ false) × (s.scope ≡ full)
run_turns-examines_all cfg source ts n g short e =
    let f =
      run_turns_keeps (IsRead n short) cfg (IsRead-Keeps n short cfg) (initial_loop source) ts
        (record {
          left = n;
          rest = g;
          examined_split = omega arith;
          at_end = λ y. ground (arith, y);
          never_fatal = refl;
        }) in
    (
      omega (
        arith,
        f.examined_split,
        f.at_end (read_to_end (run_turns cfg (initial_loop source) ts) e),
      ),
      f.never_fatal,
      sound_scope (run_turns cfg (initial_loop source) ts) (run_turns-FitsScope cfg source ts)
          f.never_fatal,
    )

-- ===== src/Campaign/Runner/Rounds.antt =====
-- The accounts behind every step of a round of internal/campaign/runner.go.
use personalized_email_pipel.Prelude.{
  ℕ, ◌+◌, ◌≤◌, ◌<◌, ◌≡◌, refl, Bool, true, false, ◌&&◌, List, [], ◌∷◌, Option, none, some, arith,
  length, length-append, Bool-cases, inl, inr,
}
use personalized_email_pipel.Prelude.Int64.{sign_bit}
use personalized_email_pipel.Campaign.Accounting.{IsBalanced, validate_of_IsBalanced}
use personalized_email_pipel.Campaign.Model.{
  Recipient, Counts, Reason, Text, invalid_email, validate,
}
use personalized_email_pipel.Campaign.Normalize.{normalize_email}
use personalized_email_pipel.Campaign.Runner.Books.{
  AddsUp, Ascends, Ascends-snoc, Ascends-le, Ascends-mono, Below, Below-mono, not_is_active,
  length-delete_active, delete_active-Below, SourceAscends, Inv,
}
use personalized_email_pipel.Campaign.Runner.Rule.{Keeps, run_turns_keeps}
use personalized_email_pipel.Campaign.Runner.{
  is_running, reads_input, new_recipient, after_deadline, is_active, delete_active, observe_cancel,
  fail_all, enforce_deadline, classify_record, classify_parsed, classify_address, classify_eligible,
  classify_invalid, classify_duplicate, read_input, read_next, read_source, settle_result, grant,
  grant_front, run_turns, is_seen,
}
use personalized_email_pipel.Campaign.Loop.{
  Loop, SourceRecord, Next, gives, fails, ends, Turn, RunConfig, WorkerResult, initial_loop,
}

deleted_front : (o : ℕ) (os xs : List ℕ) → xs ≡ o ∷ os → delete_active o xs ≡ os
unfolding delete_active
deleted_front o os xs e = ground arith

active_front : (o : ℕ) (os xs : List ℕ) → xs ≡ o ∷ os → is_active o xs ≡ true
active_front o os xs e = ground arith

module _ (lo hi : ℕ) where
  observe_cancel-Inv :
      (cfg : RunConfig) (s : Loop) (t : Turn) → Inv lo hi s → Inv lo hi (observe_cancel cfg s t)
  unfolding observe_cancel
  observe_cancel-Inv cfg s t v = ground (arith, Ascends-le lo s.queue hi v.ascends)

  fail_all-Inv : (os : List ℕ) (s : Loop) → s.active ≡ os → Inv lo hi s → Inv lo hi (fail_all s os)
  unfolding fail_all
  fail_all-Inv [] s e v = v
  fail_all-Inv (o ∷ os) s e v = fail_all-Inv os _ (deleted_front o os s.active e) (
      let h = active_front o os s.active e in
      ground (arith, length-delete_active o s.active, delete_active-Below lo o s.active v.below))

  settle_result-Inv :
      (cfg : RunConfig) (s : Loop) (w : WorkerResult)
      → Inv lo hi s
      → Inv lo hi (settle_result cfg s w)
  unfolding settle_result
  settle_result-Inv cfg s w v = ground (
    arith,
    length-delete_active w.ordinal s.active,
    delete_active-Below lo w.ordinal s.active v.below,
  )

  enforce_deadline-Inv : (s : Loop) (t : Turn) → Inv lo hi s → Inv lo hi (enforce_deadline s t)
  unfolding enforce_deadline
  enforce_deadline-Inv s t v = elim (Bool-cases (after_deadline t.deadline_now s.deadline)) [
    | inl e ↦ rw e (fail_all-Inv s.active s refl v)
    | inr e ↦ rw e v
  ]

-- Some bounds for which the invariant holds.
pub record Sound (s : Loop) : Type 0 where
  pub lo : ℕ
  pub hi : ℕ
  pub inv : Inv lo hi s

grant_front-Sound :
    (lo hi : ℕ) (s : Loop) (q : List Recipient)
    → s.queue ≡ q
    → Inv lo hi s
    → Sound (grant_front s q)
unfolding grant_front
grant_front-Sound lo hi s [] e v = record { lo = lo; hi = hi; inv = v }
grant_front-Sound lo hi s (r ∷ rest) e v = record {
  lo = r.ordinal + 1;
  hi = hi;
  inv = ground (
    arith,
    not_is_active lo r.ordinal s.active v.below,
    Below-mono lo (r.ordinal + 1) s.active v.below,
  );
}

grant-Sound : (s : Loop) (ready : Bool) → Sound s → Sound (grant s ready)
unfolding grant
grant-Sound s ready v = elim (Bool-cases (s.admission_open && ready)) [
  | inl e ↦ rw e (grant_front-Sound v.lo v.hi s s.queue refl v.inv)
  | inr e ↦ rw e v
]

-- The invariant as a record of the source is about to be classified: its ordinal is not below `hi`,
-- and there is room for one more.
record Ready (lo hi : ℕ) (s : Loop) (r : SourceRecord) : Type 0 where
  adds_up : AddsUp s.counts s.started (length s.queue) (length s.active)
  below : Below lo s.active
  ascends : Ascends lo s.queue hi
  source_ascends : SourceAscends (r.ordinal + 1) s.source
  is_next : hi ≤ r.ordinal
  room : s.counts.examined + length s.source + 1 < sign_bit

module _ (lo hi : ℕ) (s : Loop) (r : SourceRecord) (v : Ready lo hi s r) where
  later : Ascends lo s.queue (r.ordinal + 1)
  later = Ascends-mono lo s.queue hi (r.ordinal + 1) v.ascends (let h = v.is_next in omega arith)

  classify_eligible-Inv :
      (identity : Text) → Inv lo (r.ordinal + 1) (classify_eligible s r identity)
  unfolding classify_eligible
  classify_eligible-Inv identity =
      let a = later in
      let f = v.is_next in
      let l = length-append s.queue (new_recipient r identity ∷ []) in
      let c = Ascends-snoc lo s.queue hi (new_recipient r identity) v.ascends f in ground arith

  classify_invalid-Inv :
      (reason : Reason) → Inv lo (r.ordinal + 1) (classify_invalid s reason r.ordinal)
  classify_invalid-Inv reason = let a = later in ground arith

  classify_duplicate-Inv : Inv lo (r.ordinal + 1) (classify_duplicate s)
  classify_duplicate-Inv = let a = later in ground arith

  classify_address-Inv : (found : Option Text) → Inv lo (r.ordinal + 1) (classify_address s r found)
  unfolding classify_address
  classify_address-Inv none = classify_invalid-Inv invalid_email
  classify_address-Inv (some identity) = elim (Bool-cases (is_seen identity s.seen)) [
    | inl e ↦ rw e classify_duplicate-Inv
    | inr e ↦ rw e (classify_eligible-Inv identity)
  ]

  classify_parsed-Inv :
      (reason : Option Reason) → Inv lo (r.ordinal + 1) (classify_parsed s r reason)
  unfolding classify_parsed
  classify_parsed-Inv none = classify_address-Inv (normalize_email r.email)
  classify_parsed-Inv (some reason) = classify_invalid-Inv reason

read_next-Sound :
    (cfg : RunConfig) (s : Loop) (t : Turn) (x : Next) (rest : List Next)
    → s.source ≡ x ∷ rest
    → Sound s
    → Sound (read_next cfg (record s { source = rest }) t x)
unfolding read_next classify_record
read_next-Sound cfg s t ends rest e v = record {
  lo = v.lo;
  hi = v.hi;
  inv = let i = v.inv in ground arith;
}
read_next-Sound cfg s t fails rest e v = record {
  lo = v.lo;
  hi = v.hi;
  inv = let i = v.inv in ground (arith, Ascends-le v.lo s.queue v.hi i.ascends);
}
read_next-Sound cfg s t (gives r) rest e v = record {
  lo = v.lo;
  hi = r.ordinal + 1;
  inv =
      classify_parsed-Inv v.lo v.hi (record s { source = rest }) r (let i = v.inv in ground arith)
        r.parser_reason;
}

read_source-Sound :
    (cfg : RunConfig) (s : Loop) (t : Turn) (xs : List Next)
    → s.source ≡ xs
    → Sound s
    → Sound (read_source cfg s t xs)
unfolding read_source
read_source-Sound cfg s t [] e v = record {
  lo = v.lo;
  hi = v.hi;
  inv = let i = v.inv in ground arith;
}
read_source-Sound cfg s t (x ∷ rest) e v = read_next-Sound cfg s t x rest e v

read_input-Sound : (cfg : RunConfig) (s : Loop) (t : Turn) → Sound s → Sound (read_input cfg s t)
unfolding read_input
read_input-Sound cfg s t v = elim (Bool-cases (reads_input cfg s)) [
  | inl e ↦ rw e (read_source-Sound cfg s t s.source refl v)
  | inr e ↦ rw e v
]

Sound-Keeps : (cfg : RunConfig) → Keeps Sound cfg
Sound-Keeps cfg = record {
  observe_keeps =
      λ s t v. record { lo = v.lo; hi = v.hi; inv = observe_cancel-Inv v.lo v.hi cfg s t v.inv };
  enforce_keeps =
      λ s t v. record { lo = v.lo; hi = v.hi; inv = enforce_deadline-Inv v.lo v.hi s t v.inv };
  read_keeps = read_input-Sound cfg;
  result_keeps =
      λ s w v. record { lo = v.lo; hi = v.hi; inv = settle_result-Inv v.lo v.hi cfg s w v.inv };
  grant_keeps = grant-Sound;
}

initial-Sound :
    (source : List Next)
    → SourceAscends 0 source
    → length source < sign_bit
    → Sound (initial_loop source)
initial-Sound source a h = record { lo = 0; hi = 0; inv = ground arith }

-- At every point of every run from the start, over a source whose ordinals ascend and with fewer
-- than 2 ^ 63 records, the examined records are the invalid, duplicate and eligible ones, the
-- eligible ones are the completed, failed, unprocessed, queued and active ones, and the started
-- jobs are the completed, failed and active ones: no record is lost or counted twice, in whatever
-- order workers report, and whenever the run is cancelled or the source fails.
pub run_turns-AddsUp :
    (cfg : RunConfig) (source : List Next) (ts : List Turn)
    → SourceAscends 0 source
    → length source < sign_bit
    → let s = run_turns cfg (initial_loop source) ts in
      AddsUp s.counts s.started (length s.queue) (length s.active)
run_turns-AddsUp cfg source ts a h =
    (run_turns_keeps Sound cfg (Sound-Keeps cfg) (initial_loop source) ts
      (initial-Sound source a h)).inv.adds_up

IsBalanced-of_AddsUp :
    (c : Counts) (started : ℕ)
    → AddsUp c started 0 0
    → IsBalanced c × (started ≡ c.completed + c.failed)
IsBalanced-of_AddsUp c started a = ground arith

stopped_empty : (s : Loop) → is_running s ≡ false → (length s.queue ≡ 0) × (length s.active ≡ 0)
stopped_empty s h = ground arith

-- When the loop has ended, the accounts are balanced and pass the check of the report, and every
-- job that was started is completed or failed.
pub run_turns-IsBalanced :
    (cfg : RunConfig) (source : List Next) (ts : List Turn)
    → SourceAscends 0 source
    → length source < sign_bit
    → is_running (run_turns cfg (initial_loop source) ts) ≡ false
    → let s = run_turns cfg (initial_loop source) ts in
      IsBalanced s.counts
      × (validate s.counts ≡ true)
      × (s.started ≡ s.counts.completed + s.counts.failed)
run_turns-IsBalanced cfg source ts a h e =
    let s = run_turns cfg (initial_loop source) ts in
    let (q, w) = stopped_empty s e in
    let (b, st) =
      IsBalanced-of_AddsUp s.counts s.started (rw (q, w) at (run_turns-AddsUp cfg source ts a h)) in
    (b, validate_of_IsBalanced s.counts b, st)

-- ===== src/Distributed/Waiting/Returns.antt =====
-- internal/distributed/producer.go: when Wait returns.
use personalized_email_pipel.Prelude.{
  ℕ, ◌+◌, ◌≤◌, ◌≡◌, refl, Bool, true, false, List, [], ◌∷◌, Option, none, some, if◌then◌else◌,
  arith, Bool-cases, inl, inr,
}
use personalized_email_pipel.Distributed.Ledger.Effects.{perform_all}
use personalized_email_pipel.Distributed.Producer.{
  ProducerConfig, ProducerResult, ProducerError, context_cancelled, unknown_state, PollRound,
  Produced,
}
use personalized_email_pipel.Distributed.Redis.{Redis}
use personalized_email_pipel.Distributed.Scripts.Store.{Store}
use personalized_email_pipel.Distributed.Snapshots.{Snapshot, is_settled}
use personalized_email_pipel.Distributed.Waiting.{
  wait_closed, closed_next, cancelled_close, polled, wait, is_due, with_snapshot,
}

-- How many polls find the clock at or past the deadline.
abbrev pub due_polls : ProducerConfig → List PollRound → ℕ
due_polls c [] = 0
due_polls c (t ∷ ts) = let rest = due_polls c ts in if is_due c t.poll_now then 1 + rest else rest

abbrev pub is_returned {ℓ} : {A : Type ℓ} → Option A → Bool
is_returned none = false
is_returned (some a) = true

if_returned :
    {A : Type 0} (b : Bool) (x y : Option A)
    → is_returned x ≡ true
    → is_returned y ≡ true
    → is_returned (if b then x else y) ≡ true
if_returned true x y h k = h
if_returned false x y h k = k

else_returned :
    {A : Type 0} (b : Bool) (x y : Option A)
    → is_returned x ≡ true
    → (b ≡ false → is_returned y ≡ true)
    → is_returned (if b then x else y) ≡ true
else_returned true x y h k = h
else_returned false x y h k = k refl

module _ (R : Redis) where
  closed_next_returned :
      (c : ProducerConfig) (s : Store R) (r : ProducerResult) (o : Option Snapshot)
      (next : ProducerResult → Option (Produced R))
      → ((r' : ProducerResult) → is_returned (next r') ≡ true)
      → is_returned (closed_next R c s r o next) ≡ true
  unfolding closed_next
  closed_next_returned c s r none next h = refl
  closed_next_returned c s r (some snap) next h = h (with_snapshot r snap)

  wait_closed_returned :
      (c : ProducerConfig) (err : Option ProducerError) (ts : List PollRound) (s : Store R)
      (r : ProducerResult)
      → 1 ≤ due_polls c ts
      → is_returned (wait_closed R c err ts s r) ≡ true
  unfolding wait_closed
  wait_closed_returned c err [] s r h = absurd (omega arith)
  wait_closed_returned c err (t ∷ ts) s r h = elim (Bool-cases (is_due c t.poll_now)) [
    | inl d ↦ rw d (if_returned (is_settled r.snapshot) _ _ refl refl)
    | inr d ↦ rw d (
        if_returned (is_settled r.snapshot) _ _ refl (
          closed_next_returned c (perform_all R s t.poll_others) r _
            (wait_closed R c err ts (perform_all R s t.poll_others))
            (λ r'. wait_closed_returned c err ts (perform_all R s t.poll_others) r' (rw d at h))))
  ]

  cancelled_close_returned :
      (c : ProducerConfig) (ts : List PollRound) (err : Option ProducerError) (p : Produced R)
      → 1 ≤ due_polls c ts
      → is_returned (cancelled_close R c ts err p) ≡ true
  unfolding cancelled_close
  cancelled_close_returned c ts (some unknown_state) p h = refl
  cancelled_close_returned c ts err p h =
      wait_closed_returned c (some context_cancelled) ts p.store p.result h

  -- A round of Wait: the rest returns if the poll is not due.
  polled_returned :
      (c : ProducerConfig) (s : Store R) (r : ProducerResult) (t : PollRound) (ts : List PollRound)
      (o : Option Snapshot) (next : ProducerResult → Option (Produced R))
      → 2 ≤ due_polls c (t ∷ ts)
      → (is_due c t.poll_now ≡ false → (r' : ProducerResult) → is_returned (next r') ≡ true)
      → is_returned (polled R c s r t ts o next) ≡ true
  unfolding polled
  polled_returned c s r t ts none next h k = refl
  polled_returned c s r t ts (some snap) next h k = if_returned (is_settled snap) _ _ refl (
      if_returned t.poll_cancelled _ _
        (cancelled_close_returned c ts _ _ (rest_due (is_due c t.poll_now) (due_polls c ts) h))
        (else_returned (is_due c t.poll_now) _ _ refl (λ d. k d (with_snapshot r snap))))
    where
      rest_due : (b : Bool) (n : ℕ) → 2 ≤ (if b then 1 + n else n) → 1 ≤ n
      rest_due true n q = omega arith
      rest_due false n q = omega arith

  -- Wait returns before the second poll that finds the clock at or past the deadline is over,
  -- whatever the polls find: the first of them may be the one at which the context is cancelled.
  pub wait-is_returned :
      (c : ProducerConfig) (ts : List PollRound) (s : Store R) (r : ProducerResult)
      → 2 ≤ due_polls c ts
      → is_returned (wait R c ts s r) ≡ true
  unfolding wait
  wait-is_returned c [] s r h = absurd (omega arith)
  wait-is_returned c (t ∷ ts) s r h =
      polled_returned c (perform_all R s t.poll_others) r t ts _
        (wait R c ts (perform_all R s t.poll_others)) h
        (λ d r'. wait-is_returned c ts (perform_all R s t.poll_others) r' (rw d at h))

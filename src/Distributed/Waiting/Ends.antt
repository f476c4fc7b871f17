-- ===== src/Distributed/Waiting/Ends.antt =====
-- internal/distributed/producer.go: what Wait returns.
use personalized_email_pipel.Prelude.{
  ◌≡◌, refl, subst, Bool, true, false, List, [], ◌∷◌, Option, none, some, if◌then◌else◌, arith,
  Bool-cases, inl, inr,
}
use personalized_email_pipel.Distributed.Answers.{LedgerError}
use personalized_email_pipel.Distributed.Ledger.Checked.{IsChecked, snapshot-IsChecked}
use personalized_email_pipel.Distributed.Ledger.Effects.{perform_all}
use personalized_email_pipel.Distributed.Model.{failure_interrupted, failure_deadline}
use personalized_email_pipel.Distributed.Producer.Closes.{IsReadable, close_campaign-IsReadable}
use personalized_email_pipel.Distributed.Producer.{
  ProducerConfig, ProducerResult, ProducerError, context_cancelled, unknown_state,
  completion_deadline, PollRound, Produced, close_campaign,
}
use personalized_email_pipel.Distributed.Redis.{Redis}
use personalized_email_pipel.Distributed.Scripts.Store.{Store}
use personalized_email_pipel.Distributed.Snapshots.{
  Snapshot, known_enqueued, is_settled, valid_snapshot,
}
use personalized_email_pipel.Distributed.Waiting.{
  settle_campaign, settled_store, settled_snapshot, wait_closed, closed_next, cancelled_close,
  due_close, polled, wait, is_due, with_snapshot,
}

abbrev pub is_unknown_state : Option ProducerError → Bool
is_unknown_state (some unknown_state) = true
is_unknown_state _ = false

-- The result accounts for the whole campaign: its snapshot passes its check and is settled, and
-- nothing is unknown.
pub record IsAccountable (r : ProducerResult) : Type 0 where
  pub checked : valid_snapshot r.snapshot ≡ true
  pub settled : is_settled r.snapshot ≡ true
  pub nothing_unknown : r.unknown_count ≡ 0
  pub enqueued : r.known_enqueued ≡ known_enqueued r.snapshot

true-ne-false : ◌≡◌ {A = Bool} true false → ⊥
true-ne-false q = cc

module _ (R : Redis) where
  -- What is returned accounts for the campaign, unless the error is ErrUnknownState.
  abbrev Accounts : Produced R → Type 0
  Accounts p = is_unknown_state p.error ≡ false → IsAccountable p.result

  abbrev AccountsOnce : Option (Produced R) → Type 0
  AccountsOnce none = Unit {0}
  AccountsOnce (some p) = Accounts p

  settled_snapshot-Accounts :
      (c : ProducerConfig) (s : Store R) (r : ProducerResult) (err : Option ProducerError)
      (o : Option Snapshot)
      → IsChecked o
      → Accounts (settled_snapshot R c s r err o)
  unfolding settled_snapshot
  settled_snapshot-Accounts c s r err none v = λ h. ground arith
  settled_snapshot-Accounts c s r err (some snap) v = elim (Bool-cases (is_settled snap)) [
    | inl e ↦
        rw e (λ h. record { checked = v; settled = e; nothing_unknown = refl; enqueued = refl })
    | inr e ↦ rw e (λ h. absurd (true-ne-false h))
  ]

  settled_store-Accounts :
      (c : ProducerConfig) (b : Store R × Option LedgerError) (r : ProducerResult)
      (err : Option ProducerError) (t : PollRound)
      → Accounts (settled_store R c b r err t)
  unfolding settled_store
  settled_store-Accounts c (s, some e) r err t = λ h. ground arith
  settled_store-Accounts c (s, none) r err t =
      settled_snapshot-Accounts c (perform_all R s t.settle_others) r err _
        (snapshot-IsChecked R t.settle_snapshot (perform_all R s t.settle_others) c.campaign.id)

  settle_campaign-Accounts :
      (c : ProducerConfig) (s : Store R) (r : ProducerResult) (err : Option ProducerError)
      (t : PollRound)
      → Accounts (settle_campaign R c s r err t)
  unfolding settle_campaign
  settle_campaign-Accounts c s r err t = settled_store-Accounts c _ r err t

  -- A result whose snapshot is settled.
  settled-Accounts :
      (r : ProducerResult)
      → valid_snapshot r.snapshot ≡ true
      → is_settled r.snapshot ≡ true
      → IsAccountable (record r { known_enqueued = known_enqueued r.snapshot; unknown_count = 0 })
  settled-Accounts r v e = record {
    checked = v;
    settled = e;
    nothing_unknown = refl;
    enqueued = refl;
  }

  -- The rest of a loop, for any checked snapshot.
  abbrev AccountsLater : ProducerResult → (ProducerResult → Option (Produced R)) → Type 0
  AccountsLater r next =
      (snap : Snapshot) → valid_snapshot snap ≡ true → AccountsOnce (next (with_snapshot r snap))

  closed_next-AccountsOnce :
      (c : ProducerConfig) (s : Store R) (r : ProducerResult) (o : Option Snapshot)
      (next : ProducerResult → Option (Produced R))
      → IsChecked o
      → AccountsLater r next
      → AccountsOnce (closed_next R c s r o next)
  unfolding closed_next
  closed_next-AccountsOnce c s r none next v a = λ h. ground arith
  closed_next-AccountsOnce c s r (some snap) next v a = a snap v

  wait_closed-AccountsOnce :
      (c : ProducerConfig) (err : Option ProducerError) (ts : List PollRound) (s : Store R)
      (r : ProducerResult)
      → valid_snapshot r.snapshot ≡ true
      → AccountsOnce (wait_closed R c err ts s r)
  unfolding wait_closed
  wait_closed-AccountsOnce c err [] s r v = elim (Bool-cases (is_settled r.snapshot)) [
    | inl e ↦ rw e (λ h. settled-Accounts r v e)
    | inr e ↦ rw e tt
  ]
  wait_closed-AccountsOnce c err (t ∷ ts) s r v = elim (Bool-cases (is_settled r.snapshot)) [
    | inl e ↦ rw e (λ h. settled-Accounts r v e)
    | inr e ↦ elim (Bool-cases (is_due c t.poll_now)) [
      | inl d ↦ rw (e, d) (settle_campaign-Accounts c s r err t)
      | inr d ↦
          rw (e, d)
            (closed_next-AccountsOnce c (perform_all R s t.poll_others) r _
              (wait_closed R c err ts (perform_all R s t.poll_others))
              (snapshot-IsChecked R t.poll_snapshot (perform_all R s t.poll_others) c.campaign.id)
              (λ snap w.
                wait_closed-AccountsOnce c err ts (perform_all R s t.poll_others)
                  (with_snapshot r snap) w))
    ]
  ]

  cancelled_close-AccountsOnce :
      (c : ProducerConfig) (ts : List PollRound) (p : Produced R)
      → IsReadable R (some context_cancelled) p
      → AccountsOnce (cancelled_close R c ts p.error p)
  unfolding cancelled_close
  cancelled_close-AccountsOnce c ts p (inl e) = rw e (λ h. absurd (true-ne-false h))
  cancelled_close-AccountsOnce c ts p (inr (e, v)) =
      rw e (wait_closed-AccountsOnce c (some context_cancelled) ts p.store p.result v)

  due_close-Accounts :
      (c : ProducerConfig) (t : PollRound) (p : Produced R)
      → IsReadable R none p
      → Accounts (due_close R c t p.error p)
  unfolding due_close
  due_close-Accounts c t p (inl e) = rw e (λ h. absurd (true-ne-false h))
  due_close-Accounts c t p (inr (e, v)) =
      rw e (settle_campaign-Accounts c p.store p.result (some completion_deadline) t)

  if-AccountsOnce :
      (b : Bool) (x y : Option (Produced R))
      → AccountsOnce x
      → AccountsOnce y
      → AccountsOnce (if b then x else y)
  if-AccountsOnce true x y h k = h
  if-AccountsOnce false x y h k = k

  polled-AccountsOnce :
      (c : ProducerConfig) (s : Store R) (r : ProducerResult) (t : PollRound) (ts : List PollRound)
      (o : Option Snapshot) (next : ProducerResult → Option (Produced R))
      → IsChecked o
      → AccountsLater r next
      → AccountsOnce (polled R c s r t ts o next)
  unfolding polled
  polled-AccountsOnce c s r t ts none next v a = λ h. ground arith
  polled-AccountsOnce c s r t ts (some snap) next v a =
      let cancelled =
        close_campaign-IsReadable R c s (with_snapshot r snap) failure_interrupted
          (some context_cancelled) t.closing in
      let due =
        close_campaign-IsReadable R c s (with_snapshot r snap) failure_deadline none t.closing in
      elim (Bool-cases (is_settled snap)) [
        | inl e ↦ rw e (λ h. settled-Accounts (with_snapshot r snap) v e)
        | inr e ↦ rw e (
            if-AccountsOnce t.poll_cancelled _ _
              (cancelled_close-AccountsOnce c ts
                (close_campaign R c s (with_snapshot r snap) failure_interrupted
                  (some context_cancelled) t.closing)
                cancelled)
              (if-AccountsOnce (is_due c t.poll_now) _ _
                (due_close-Accounts c t
                  (close_campaign R c s (with_snapshot r snap) failure_deadline none t.closing) due)
                (a snap v)))
      ]

  wait-AccountsOnce :
      (c : ProducerConfig) (ts : List PollRound) (s : Store R) (r : ProducerResult)
      → AccountsOnce (wait R c ts s r)
  unfolding wait
  wait-AccountsOnce c [] s r = tt
  wait-AccountsOnce c (t ∷ ts) s r =
      polled-AccountsOnce c (perform_all R s t.poll_others) r t ts _
        (wait R c ts (perform_all R s t.poll_others))
        (snapshot-IsChecked R t.poll_snapshot (perform_all R s t.poll_others) c.campaign.id)
        (λ snap v. wait-AccountsOnce c ts (perform_all R s t.poll_others) (with_snapshot r snap))

  -- Whenever Wait returns with an error other than ErrUnknownState, or with none, its result accounts
  -- for the whole campaign, whatever the polls find, whoever else uses the ledger, and whatever link
  -- fails: its snapshot passes its check and is settled, nothing is unknown, and the enqueued
  -- recipients are those of the snapshot.
  pub wait-IsAccountable :
      (c : ProducerConfig) (ts : List PollRound) (s : Store R) (r : ProducerResult) (p : Produced R)
      → wait R c ts s r ≡ some p
      → is_unknown_state p.error ≡ false
      → IsAccountable p.result
  wait-IsAccountable c ts s r p e h = (subst AccountsOnce e (wait-AccountsOnce c ts s r)) h

-- ===== src/Distributed/Waiting.antt =====
-- internal/distributed/producer.go: Wait, waitClosed and settle. A wait goes over a list of polls; it
-- is `waiting` if the list ends before the producer returns.
pub mod Ends
pub mod Returns
use personalized_email_pipel.Prelude.{
  ℕ, Bool, true, false, not, List, [], ◌∷◌, Option, none, some, if◌then◌else◌,
}
use personalized_email_pipel.Prelude.Int64.{sub64}
use personalized_email_pipel.Campaign.Model.{Text}
use personalized_email_pipel.Distributed.Answers.{LedgerError}
use personalized_email_pipel.Distributed.Ledger.Effects.{perform_all}
use personalized_email_pipel.Distributed.Ledger.{good, settle, snapshot}
use personalized_email_pipel.Distributed.Model.{failure_interrupted, failure_deadline}
use personalized_email_pipel.Distributed.Producer.{
  ProducerConfig, ProducerResult, ProducerError, context_cancelled, unknown_state,
  completion_deadline, PollRound, Produced, close_campaign,
}
use personalized_email_pipel.Distributed.Redis.{Redis}
use personalized_email_pipel.Distributed.Requests.{Time, after, reason}
use personalized_email_pipel.Distributed.Scripts.Store.{Store}
use personalized_email_pipel.Distributed.Snapshots.{
  Snapshot, known_terminal, known_enqueued, is_settled,
}

-- The result when the state is not known, and when the campaign is settled.
abbrev lost : ProducerConfig → ProducerResult → ProducerResult
lost c result = record result {
  unknown_count = sub64 c.campaign.total (known_terminal result.snapshot);
}

abbrev finished : ProducerResult → Snapshot → ProducerResult
finished result snap = record result {
  snapshot = snap;
  known_enqueued = known_enqueued snap;
  unknown_count = 0;
}

-- !Now().Before(Deadline)
abbrev is_due : ProducerConfig → Time → Bool
is_due c now = not (after c.campaign.deadline now)

abbrev with_snapshot : ProducerResult → Snapshot → ProducerResult
with_snapshot result snap = record result { snapshot = snap }

module _ (R : Redis) where
  abbrev returned : Store R → ProducerResult → Option ProducerError → Produced R
  returned s result err = record { store = s; result = result; error = err }

  -- settle.
  settled_snapshot :
      ProducerConfig
      → Store R
      → ProducerResult
      → Option ProducerError
      → Option Snapshot
      → Produced R
  settled_snapshot c s result err none = returned s (lost c result) (some unknown_state)
  settled_snapshot c s result err (some snap) =
      if is_settled snap
      then returned s (finished result snap) err
      else returned s (lost c result) (some unknown_state)

  settled_store :
      ProducerConfig
      → Store R × Option LedgerError
      → ProducerResult
      → Option ProducerError
      → PollRound
      → Produced R
  settled_store c (s, some e) result err t = returned s (lost c result) (some unknown_state)
  settled_store c (s, none) result err t =
      let s' = perform_all R s t.settle_others in
      settled_snapshot c s' result err (good (snapshot R t.settle_snapshot s' c.campaign.id))

  unfoldable pub settle_campaign :
      ProducerConfig → Store R → ProducerResult → Option ProducerError → PollRound → Produced R
  unfolding settled_store settled_snapshot
  settle_campaign c s result err t =
      settled_store c
        (settle R t.settle_link s c.campaign.id
          (record { now = t.settle_now; reason_name = reason failure_deadline }))
        result err t

  -- A round of waitClosed behind its snapshot; `next` is the rest of the loop.
  closed_next :
      ProducerConfig
      → Store R
      → ProducerResult
      → Option Snapshot
      → (ProducerResult → Option (Produced R))
      → Option (Produced R)
  closed_next c s result none next = some (returned s (lost c result) (some unknown_state))
  closed_next c s result (some snap) next = next (with_snapshot result snap)

  -- waitClosed: `none` if it is still waiting behind the last poll.
  unfoldable pub wait_closed :
      ProducerConfig
      → Option ProducerError
      → List PollRound
      → Store R
      → ProducerResult
      → Option (Produced R)
  unfolding closed_next
  wait_closed c err [] s result =
      if is_settled result.snapshot
      then some (returned s (finished result result.snapshot) err)
      else none
  wait_closed c err (t ∷ ts) s result =
      let s' = perform_all R s t.poll_others in
      let next =
        closed_next c s' result (good (snapshot R t.poll_snapshot s' c.campaign.id))
          (wait_closed c err ts s') in
      if is_settled result.snapshot
      then some (returned s (finished result result.snapshot) err)
      else if is_due c t.poll_now
      then some (settle_campaign c s result err t)
      else next

  -- The branch of a cancelled context, behind the close.
  cancelled_close :
      ProducerConfig → List PollRound → Option ProducerError → Produced R → Option (Produced R)
  cancelled_close c ts (some unknown_state) p = some p
  cancelled_close c ts err p = wait_closed c (some context_cancelled) ts p.store p.result

  -- The branch of the deadline, behind the close.
  due_close : ProducerConfig → PollRound → Option ProducerError → Produced R → Produced R
  due_close c t none p = settle_campaign c p.store p.result (some completion_deadline) t
  due_close c t (some e) p = p

  -- A round of Wait behind its snapshot.
  polled :
      ProducerConfig
      → Store R
      → ProducerResult
      → PollRound
      → List PollRound
      → Option Snapshot
      → (ProducerResult → Option (Produced R))
      → Option (Produced R)
  polled c s result t ts none next = some (returned s (lost c result) (some unknown_state))
  polled c s result t ts (some snap) next =
      let r = with_snapshot result snap in
      let cancelled =
        close_campaign R c s r failure_interrupted (some context_cancelled) t.closing in
      let due = close_campaign R c s r failure_deadline none t.closing in
      let later = next r in
      if is_settled snap
      then some (returned s (finished r snap) none)
      else if t.poll_cancelled
      then cancelled_close c ts cancelled.error cancelled
      else if is_due c t.poll_now
      then some (due_close c t due.error due)
      else later

  -- Wait: `none` if it is still waiting behind the last poll.
  unfoldable pub wait :
      ProducerConfig → List PollRound → Store R → ProducerResult → Option (Produced R)
  unfolding polled cancelled_close due_close
  wait c [] s result = none
  wait c (t ∷ ts) s result =
      let s' = perform_all R s t.poll_others in
      polled c s' result t ts (good (snapshot R t.poll_snapshot s' c.campaign.id)) (wait c ts s')

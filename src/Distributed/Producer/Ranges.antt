-- ===== src/Distributed/Producer/Ranges.antt =====
-- internal/distributed/producer.go: the ranges that Enqueue hands to the queue.
use personalized_email_pipel.Prelude.{
  ℕ, zero, suc, ◌+◌, ◌≤◌, ◌<◌, ◌≡◌, refl, ◌∙◌, Bool, true, false, not, Option, none, some,
  if◌then◌else◌, arith, ◌⊎◌, inl, inr,
}
use personalized_email_pipel.Prelude.Int64.{add64, sub64, lt64}
use personalized_email_pipel.Distributed.Answers.{LedgerError}
use personalized_email_pipel.Distributed.Ledger.Effects.{perform_all}
use personalized_email_pipel.Distributed.Ledger.{
  Link, acknowledge, create, SnapshotResult, no_snapshot, unknown_snapshot, read_snapshot,
}
use personalized_email_pipel.Distributed.Model.{failure_interrupted}
use personalized_email_pipel.Distributed.Producer.Closes.{IsReadable, close_campaign-IsReadable}
use personalized_email_pipel.Distributed.Producer.{
  ProducerConfig, ProducerResult, ProducerError, context_cancelled, unknown_state, RangeRound,
  CloseRound, Produced, Enqueued, last_of, enqueue, enqueue_from, enqueue_range, created,
  after_acknowledge, acknowledged_store, stopped, add_range, close_unknown, close_campaign,
  final_snapshot,
}
use personalized_email_pipel.Distributed.Redis.{Redis}
use personalized_email_pipel.Distributed.Requests.{AcknowledgeRequest}
use personalized_email_pipel.Distributed.Scripts.Store.{Store}
use personalized_email_pipel.Distributed.Snapshots.{empty_snapshot}
use personalized_email_pipel.Distributed.Task.{Codec}
use personalized_email_pipel.Distributed.Producer.Tiles.{
  Tiles, Fits, last_of_exact, Counted, Counted-next, Tiles-move,
}

abbrev pub has_error : Option ProducerError → Bool
has_error none = false
has_error (some e) = true

module _ (R : Redis) where
  -- What an answer of Enqueue without an error says, from `first` on.
  abbrev Complete : ProducerConfig → ℕ → ProducerResult → Enqueued R → Type 0
  Complete c first r e =
      has_error e.produced.error ≡ false
      → Tiles c.task_size first c.campaign.total e.ranges
        × (e.produced.result.known_enqueued ≡ c.campaign.total)
        × (e.produced.result.unknown_count ≡ r.unknown_count)

  stopped-Complete :
      (c : ProducerConfig) (first : ℕ) (r : ProducerResult) (e : Enqueued R)
      → has_error e.produced.error ≡ true
      → Complete c first r e
  stopped-Complete c first r e h = λ k. absurd (true-ne-false h k)
    where
      true-ne-false : {b : Bool} → b ≡ true → b ≡ false → ⊥
      true-ne-false p q = cc

  closed_has_error :
      (x : ProducerError) (p : Produced R) → IsReadable R (some x) p → has_error p.error ≡ true
  closed_has_error x p (inl e) = rw e refl
  closed_has_error x p (inr (e, v)) = rw e refl

  final-Complete :
      (c : ProducerConfig) (s : Store R) (r : ProducerResult) (first : ℕ) (x : SnapshotResult)
      → c.campaign.total < first
      → Counted c r.known_enqueued first
      → Complete c first r (stopped R (final_snapshot R c s r x))
  unfolding final_snapshot
  final-Complete c s r first (read_snapshot snap none) h k = λ q. (h, ground (arith, k), refl)
  final-Complete c s r first (read_snapshot snap (some e)) h k = λ q. ground arith
  final-Complete c s r first (no_snapshot e) h k = λ q. ground arith
  final-Complete c s r first (unknown_snapshot id) h k = λ q. ground arith

  -- The loop ended within its fuel, and its answer is complete if there is no error.
  abbrev IsWhole : ProducerConfig → ℕ → ProducerResult → Enqueued R → Type 0
  IsWhole c first r e = (e.ran_out ≡ false) × Complete c first r e

  if-IsWhole :
      (c : ProducerConfig) (first : ℕ) (r : ProducerResult) (b : Bool) (x y : Enqueued R)
      → (b ≡ true → IsWhole c first r x)
      → (b ≡ false → IsWhole c first r y)
      → IsWhole c first r (if b then x else y)
  if-IsWhole c first r true x y h k = h refl
  if-IsWhole c first r false x y h k = k refl

  unknown-IsWhole :
      (c : ProducerConfig) (s : Store R) (r : ProducerResult) (t : CloseRound) (first : ℕ)
      (range : ℕ × ℕ)
      → IsWhole c first r (add_range R range (stopped R (close_unknown R c s r t)))
  unfolding close_unknown
  unknown-IsWhole c s r t first range =
      let r' = record r { unknown_count = sub64 c.campaign.total r.known_enqueued } in
      let p = close_campaign R c s r' failure_interrupted (some unknown_state) t in
      (
        refl,
        stopped-Complete c first r (add_range R range (stopped R p)) (
            closed_has_error unknown_state p
              (close_campaign-IsReadable R c s r' failure_interrupted (some unknown_state) t)),
      )

  add_range-IsWhole :
      (c : ProducerConfig) (first last : ℕ) (r r' : ProducerResult) (e : Enqueued R)
      → Fits c
      → first ≤ last
      → last ≤ c.campaign.total
      → last < first + c.task_size
      → (last + 1 ≡ first + c.task_size) ⊎ (last ≡ c.campaign.total)
      → r'.unknown_count ≡ r.unknown_count
      → IsWhole c (add64 first c.task_size) r' e
      → IsWhole c first r (add_range R (first, last) e)
  add_range-IsWhole c first last r r' e f a b d x u (ran, whole) = (
    ran,
    λ q.
        let (tiles, known, unknown) = whole q in
        (
          (
            refl,
            a,
            b,
            d,
            Tiles-move c.task_size (add64 first c.task_size) (last + 1) c.campaign.total e.ranges
                (moved x) tiles,
          ),
          known,
          unknown ∙ u,
        ),
  )
    where
      moved :
          (last + 1 ≡ first + c.task_size) ⊎ (last ≡ c.campaign.total)
          → (add64 first c.task_size ≡ last + 1)
            ⊎ ((c.campaign.total < add64 first c.task_size) × (c.campaign.total < last + 1))
      moved (inl q) = inl (ground (arith, f.room))
      moved (inr q) = inr (ground (arith, f.room), ground (arith, f.room))

  after_acknowledge-IsWhole :
      (c : ProducerConfig) (a : Store R × Option LedgerError) (r : ProducerResult) (t : CloseRound)
      (first : ℕ) (range : ℕ × ℕ) (rest : Enqueued R)
      → IsWhole c first r (add_range R range rest)
      → IsWhole c first r (add_range R range (after_acknowledge R c a r t rest))
  unfolding after_acknowledge
  after_acknowledge-IsWhole c (s, none) r t first range rest h = h
  after_acknowledge-IsWhole c (s, some e) r t first range rest h =
      unknown-IsWhole c s r t first range

module _ (R : Redis) (J : Codec) where
  enqueue_from-IsWhole :
      (c : ProducerConfig) (rounds : ℕ → RangeRound) (closing : CloseRound) (fuel : ℕ) (s : Store R)
      (r : ProducerResult) (first : ℕ)
      → Fits c
      → 1 ≤ fuel
      → c.campaign.total + 2 ≤ first + fuel
      → 1 ≤ first
      → first ≤ c.campaign.total + c.task_size
      → Counted c r.known_enqueued first
      → IsWhole R c first r (enqueue_from R J c rounds closing fuel s r first)
  unfolding enqueue_from
  enqueue_from-IsWhole c rounds closing zero s r first f h0 h1 h2 h3 k = absurd (omega arith)
  enqueue_from-IsWhole c rounds closing (suc fuel) s r first f h0 h1 h2 h3 k =
      let last = last_of c first in
      if-IsWhole R c first r (lt64 c.campaign.total first) _ _
        (λ e. (refl, final-Complete R c s r first _ (past e) k))
        (λ e.
          let hi = live e in
          let (a, b, d, x) = last_of_exact c first f h2 hi in
          if-IsWhole R c first r (rounds first).cancelled _ _
            (λ z.
              let p = close_campaign R c s r failure_interrupted (some context_cancelled) closing in
              (
                refl,
                stopped-Complete R c first r (stopped R p) (
                    closed_has_error R context_cancelled p (
                      close_campaign-IsReadable R c s r failure_interrupted (some context_cancelled)
                        closing)),
              ))
            (λ z.
              if-IsWhole R c first r (not (enqueue_range R J c first last (rounds first))) _ _
                (λ y. unknown-IsWhole R c _ r closing first (first, last))
                (λ y.
                  let t = rounds first in
                  let s' = perform_all R s t.others in
                  let asked : AcknowledgeRequest = record {
                    start = first;
                    end_ = last;
                    now = t.now;
                  } in
                  let a' = acknowledge R t.acknowledge_link s' c.campaign.id asked in
                  let r' = record r {
                    known_enqueued = add64 r.known_enqueued (add64 (sub64 last first) 1);
                  } in
                  let rest =
                    enqueue_from R J c rounds closing fuel (acknowledged_store R a') r'
                      (add64 first c.task_size) in
                  after_acknowledge-IsWhole R c a' r closing first (first, last) rest
                    (add_range-IsWhole R c first last r r' rest f a b d x refl (
                      enqueue_from-IsWhole c rounds closing fuel (acknowledged_store R a') r'
                        (add64 first c.task_size) f (omega (arith, hi))
                        (omega (arith, f.room, f.positive, hi)) (omega (arith, f.room, hi))
                        (omega (arith, f.room, hi))
                        (Counted-next c r.known_enqueued first last f h2 hi a b d x k))))))
    where
      past : lt64 c.campaign.total first ≡ true → c.campaign.total < first
      past e = ground (arith, f.room)

      live : lt64 c.campaign.total first ≡ false → first ≤ c.campaign.total
      live e = ground (arith, f.room)

  created-IsWhole :
      (c : ProducerConfig) (rounds : ℕ → RangeRound) (closing : CloseRound)
      (b : Store R × Option LedgerError)
      → Fits c
      → IsWhole R c 1
          (record { snapshot = empty_snapshot; known_enqueued = 0; unknown_count = 0 })
          (created R J c rounds closing (c.campaign.total + 1) b)
  unfolding created
  created-IsWhole c rounds closing (s, some e) f = (refl, λ h. ground arith)
  created-IsWhole c rounds closing (s, none) f =
      enqueue_from-IsWhole c rounds closing (c.campaign.total + 1) s
        (record { snapshot = empty_snapshot; known_enqueued = 0; unknown_count = 0 }) 1 f
        (omega arith) (omega arith) (omega arith) (omega (arith, f.positive))
        (omega arith, inl refl)

  -- The loop of Enqueue ends: one round more than there are recipients is enough for it, whatever the
  -- queue and the ledger answer, if tasks are not empty and the counters do not overflow.
  pub enqueue-ends :
      (c : ProducerConfig) (link : Link) (rounds : ℕ → RangeRound) (closing : CloseRound)
      (s : Store R)
      → Fits c
      → (enqueue R J c link rounds closing s).ran_out ≡ false
  unfolding enqueue
  enqueue-ends c link rounds closing s f =
      (created-IsWhole c rounds closing (create R link s c.campaign) f).0

  -- If Enqueue returns no error, the ranges that it handed to the queue follow on each other from 1
  -- to the total, none longer than a task, all recipients are counted as enqueued, and none is
  -- unknown, if tasks are not empty and the counters do not overflow.
  pub enqueue-Tiles :
      (c : ProducerConfig) (link : Link) (rounds : ℕ → RangeRound) (closing : CloseRound)
      (s : Store R)
      → Fits c
      → has_error (enqueue R J c link rounds closing s).produced.error ≡ false
      → let e = enqueue R J c link rounds closing s in
        Tiles c.task_size 1 c.campaign.total e.ranges
        × (e.produced.result.known_enqueued ≡ c.campaign.total)
        × (e.produced.result.unknown_count ≡ 0)
  unfolding enqueue
  enqueue-Tiles c link rounds closing s f h =
      (created-IsWhole c rounds closing (create R link s c.campaign) f).1 h

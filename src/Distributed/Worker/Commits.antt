-- ===== src/Distributed/Worker/Commits.antt =====
-- internal/distributed/worker.go: what a record that is granted becomes.
use personalized_email_pipel.Prelude.{
  ℕ, ◌≤◌, ◌<◌, ◌≡◌, refl, ap, Bool, true, false, ◌&&◌, ◌||◌, [], ◌∷◌, none, some, inl, inr, leb,
  ◌==◌, if◌then◌else◌, ◌/◌, arith, Bool-cases,
}
use personalized_email_pipel.Prelude.Int64.{sign_bit, lt64, is_negative}
use personalized_email_pipel.Campaign.Model.{Text}
use personalized_email_pipel.Campaign.Render.{render_message}
use personalized_email_pipel.Distributed.Answers.{Transition, granted, terminal_of}
use personalized_email_pipel.Distributed.Ledger.Answered.{begin-answered, commit-answered}
use personalized_email_pipel.Distributed.Ledger.{answered}
use personalized_email_pipel.Distributed.Model.{
  Terminal, completes, fails, initial, is_one_shot, is_open,
}
use personalized_email_pipel.Distributed.Redis.{Redis}
use personalized_email_pipel.Distributed.Requests.{
  CommitRequest, since_epoch, terminal_failed, reason, valid_id, max_work_duration,
}
use personalized_email_pipel.Distributed.Scripts.Begin.Fresh.{begin_script_fresh}
use personalized_email_pipel.Distributed.Scripts.Begin.Phases.{begin_script-IsAt}
use personalized_email_pipel.Distributed.Scripts.Begin.Terms.{begin_script-Continues}
use personalized_email_pipel.Distributed.Scripts.Begin.{begin_script}
use personalized_email_pipel.Distributed.Scripts.Calls.Delivery.{some_of_Continues}
use personalized_email_pipel.Distributed.Scripts.Commit.Phases.{
  commit_script-IsAt, commit_script_reply, terminal_phase,
}
use personalized_email_pipel.Distributed.Scripts.Commit.{commit_script}
use personalized_email_pipel.Distributed.Scripts.Phase.{in_span, acknowledged, started, IsAt}
use personalized_email_pipel.Distributed.Scripts.Store.{Meta, Store}
use personalized_email_pipel.Distributed.Task.{TaskPayload}
use personalized_email_pipel.Distributed.Worker.{
  Sha, Round, record_failed, ledger_failed, Processed, process_record, process_begun,
  process_result, process_granted, process_dry_run, process_delivery, dry_run_commit, recipient_of,
  is_dry_run, is_confirmed, delivery_failure_reason, wrapped,
}
use personalized_email_pipel.TestInbox.{DeliveryResult}
use personalized_email_pipel.RecipientCsv.Fixture.{Record}

-- A round in which nobody interferes, no link fails and the context stays alive.
abbrev pub quiet_round : ℕ → ℕ → ℕ → DeliveryResult → Round
quiet_round begin_at work commit_at delivery = record {
  before = [];
  begin_link = answered;
  begin_now = since_epoch begin_at;
  context_done = false;
  delivery = delivery;
  between = [];
  work = work;
  commit_now = since_epoch commit_at;
  commit_link = answered;
}

-- What is committed: the digest of the message, or the reason of the failed delivery.
abbrev pub terminal_for : Bool → DeliveryResult → Text → Terminal
terminal_for dry_run d digest =
    if dry_run || is_confirmed d then completes digest else fails (delivery_failure_reason d.status)

module _ (R : Redis) (H : Sha) where
  abbrev pub message_digest : TaskPayload → Record → Text
  message_digest p r = H.hex_digest (render_message (recipient_of r) p.format).0.body

  -- The commit of each branch passes the ledger's checks.
  terminal_of_dry_run :
      (o work at : ℕ) (message : Text) (d : DeliveryResult) (n : ℕ)
      → terminal_of (dry_run_commit o (H.hex_digest message) (quiet_round n work at d))
        ≡ some (completes (H.hex_digest message))
  terminal_of_dry_run o work at message d n = rw (H.hex_digest-valid message) refl

  -- The store that a commit leaves.
  abbrev committed : Store R → Record → Terminal → ℕ → ℕ → Store R
  committed s r t work at = (commit_script R s r.ordinal t work (at / 1000000)).0

  -- The record was committed, with some work, and there is no error.
  abbrev IsCommitted : Store R → Record → Terminal → ℕ → Processed R H → Type 0
  IsCommitted s r t at d = (w : ℕ) × (d.store ≡ committed s r t w at) × (d.error ≡ none)

  abbrev Accepts : Store R → Record → Terminal → ℕ → Type 0
  Accepts s r t at = (w : ℕ) → (commit_script R s r.ordinal t w (at / 1000000)).1 ≡ 0 ∷ []

  not_negative : (w : ℕ) → w ≤ max_work_duration → is_negative w ≡ false
  not_negative w h = ground arith

  not_long : (w : ℕ) → w ≤ max_work_duration → lt64 max_work_duration w ≡ false
  not_long w h = ground arith

  dry_run-IsCommitted :
      (s : Store R) (p : TaskPayload) (r : Record) (n work at : ℕ) (d : DeliveryResult)
      → valid_id p.campaign_id ≡ true
      → lt64 r.ordinal 1 ≡ false
      → work ≤ max_work_duration
      → Accepts s r (completes (message_digest p r)) at
      → IsCommitted s r
          (completes (message_digest p r))
          at
          (process_dry_run R H s p r (quiet_round n work at d))
  unfolding process_dry_run
  dry_run-IsCommitted s p r n work at d v l w c =
      let message = (render_message (recipient_of r) p.format).0.body in
      let q =
        commit-answered R s p.campaign_id
          (dry_run_commit r.ordinal (H.hex_digest message) (quiet_round n work at d))
          (completes (H.hex_digest message)) at v l (not_negative work w) (not_long work w) refl
          (terminal_of_dry_run r.ordinal work at message d n) (c work) in
      (work, ap (λ x. x.0) q, ap (λ x. wrapped (record_failed r.ordinal) x.1) q)

  -- The commit of a delivery that is not confirmed.
  abbrev failed_commit : ℕ → DeliveryResult → ℕ → CommitRequest
  failed_commit o d at = record {
    ordinal = o;
    state = terminal_failed;
    reason_name = reason (delivery_failure_reason d.status);
    digest = [];
    work = 0;
    now = since_epoch at;
  }

  delivery-IsCommitted :
      (s : Store R) (p : TaskPayload) (r : Record) (n work at : ℕ) (d : DeliveryResult)
      → valid_id p.campaign_id ≡ true
      → lt64 r.ordinal 1 ≡ false
      → work ≤ max_work_duration
      → Accepts s r (terminal_for false d (message_digest p r)) at
      → IsCommitted s r
          (terminal_for false d (message_digest p r))
          at
          (process_delivery R H s p r (quiet_round n work at d))
  unfolding process_delivery
  delivery-IsCommitted s p r n work at d v l w c = elim (Bool-cases (is_confirmed d)) [
    | inl e ↦
        let message = (render_message (recipient_of r) p.format).0.body in
        let q =
          commit-answered R s p.campaign_id
            (dry_run_commit r.ordinal (H.hex_digest message) (quiet_round n work at d))
            (completes (H.hex_digest message)) at v l (not_negative work w) (not_long work w) refl
            (terminal_of_dry_run r.ordinal work at message d n) (rw e at c work) in
        rw e (work, ap (λ x. x.0) q, ap (λ x. wrapped ledger_failed x.1) q)
    | inr e ↦
        let q =
          commit-answered R s p.campaign_id (failed_commit r.ordinal d at)
            (fails (delivery_failure_reason d.status)) at v l refl refl refl refl (rw e at c 0) in
        rw e (0, ap (λ x. x.0) q, ap (λ x. wrapped ledger_failed x.1) q)
  ]

  granted-IsCommitted :
      (s : Store R) (p : TaskPayload) (r : Record) (n work at : ℕ) (d : DeliveryResult)
      → let t = terminal_for (is_dry_run p.sink) d (message_digest p r) in
        valid_id p.campaign_id ≡ true
        → lt64 r.ordinal 1 ≡ false
        → work ≤ max_work_duration
        → Accepts s r t at
        → IsCommitted s r t at (process_granted R H s p r (quiet_round n work at d))
  unfolding process_granted
  granted-IsCommitted s p r n work at d v l w c = elim (Bool-cases (is_dry_run p.sink)) [
    | inl e ↦ rw e (dry_run-IsCommitted s p r n work at d v l w (rw e at c))
    | inr e ↦ rw e (delivery-IsCommitted s p r n work at d v l w (rw e at c))
  ]

  begun_granted :
      (s : Store R) (o : ℕ) (tr : Transition) (p : TaskPayload) (r : Record) (t : Round)
      → tr.result ≡ granted
      → process_begun R H (s, inr tr) p r t ≡ process_granted R H s p r t
  unfolding process_begun process_result
  begun_granted s o tr p r t e = rw e refl

  -- The ordinal was acknowledged, and there is room for it.
  pub record Ready (s : Store R) (m : Meta) (o : ℕ) : Type 0 where
    pub here : s.meta ≡ some m
    pub in_range : in_span 1 m.total o ≡ true
    pub waiting : IsAt R s o acknowledged
    pub opened : is_open m.state ≡ true
    pub room : (is_one_shot m.policy && leb m.delivery_limit m.delivery_reserved) ≡ false

  begun_phase :
      (s : Store R) (m : Meta) (o now : ℕ)
      → Ready s m o
      → IsAt R (begin_script R s o initial now).0 o started
  begun_phase s m o now h =
      rw (h.in_range, h.opened, h.room, same o) at
        (begin_script-IsAt R s m o o initial now acknowledged h.here h.waiting)
    where
      same : (o : ℕ) → (o == o) ≡ true
      same o = ground arith

  -- What is committed.
  abbrev pub outcome_of : TaskPayload → Record → DeliveryResult → Terminal
  outcome_of p r d = terminal_for (is_dry_run p.sink) d (message_digest p r)

  begun-Accepts :
      (s : Store R) (m : Meta) (p : TaskPayload) (r : Record) (n at : ℕ) (d : DeliveryResult)
      → Ready s m r.ordinal
      → Accepts (begin_script R s r.ordinal initial n).0 r (outcome_of p r d) at
  begun-Accepts s m p r n at d h w =
      let (m', e, pol, tot) =
        some_of_Continues m (begin_script R s r.ordinal initial n).0.meta
          (begin_script-Continues R s m r.ordinal initial n h.here) in
      let (lo, hi) = span_bounds m m' r.ordinal h.in_range tot in
      commit_script_reply R (begin_script R s r.ordinal initial n).0 m' r.ordinal (outcome_of p r d)
        w (at / 1000000) started e lo hi (begun_phase s m r.ordinal n h)
    where
      span_bounds :
          (m m' : Meta) (o : ℕ)
          → in_span 1 m.total o ≡ true
          → m'.total ≡ m.total
          → (1 ≤ o) × (o ≤ m'.total)
      span_bounds m m' o h e = ground arith

  committed_phase :
      (s : Store R) (m : Meta) (r : Record) (t : Terminal) (n w at : ℕ)
      → Ready s m r.ordinal
      → IsAt R
          (committed (begin_script R s r.ordinal initial n).0 r t w at)
          r.ordinal
          (terminal_phase t)
  committed_phase s m r t n w at h =
      let (m', e, pol, tot) =
        some_of_Continues m (begin_script R s r.ordinal initial n).0.meta
          (begin_script-Continues R s m r.ordinal initial n h.here) in
      rw (tot, h.in_range, same r.ordinal) at
        (commit_script-IsAt R (begin_script R s r.ordinal initial n).0 m' r.ordinal r.ordinal t w
          (at / 1000000) started e (begun_phase s m r.ordinal n h))
    where
      same : (o : ℕ) → (o == o) ≡ true
      same o = ground arith

  positive : (o : ℕ) → o < sign_bit → 1 ≤ o → lt64 o 1 ≡ false
  positive o h k = ground arith

  -- A first attempt at an acknowledged record of an open campaign with room for it finishes it:
  -- processRecord returns no error, and the record is completed, or failed if the campaign delivers
  -- and the delivery is not confirmed. This holds if nobody else uses the ledger meanwhile, both
  -- scripts answer, the worker's context stays alive, the campaign id is valid, the ordinal is from 1
  -- to the total and below 2 ^ 63, both clock readings are times since the epoch, and the measured
  -- work is at most 24 hours.
  pub process_record-finishes :
      (s : Store R) (m : Meta) (p : TaskPayload) (r : Record) (n work at : ℕ) (d : DeliveryResult)
      → let done = process_record R H s p r initial (quiet_round n work at d) in
        Ready s m r.ordinal
        → valid_id p.campaign_id ≡ true
        → 1 ≤ r.ordinal
        → r.ordinal < sign_bit
        → work ≤ max_work_duration
        → (done.error ≡ none) × IsAt R done.store r.ordinal (terminal_phase (outcome_of p r d))
  unfolding process_record
  process_record-finishes s m p r n work at d h v lo hi w =
      let (rest, e) =
        begin_script_fresh R s m r.ordinal (n / 1000000) h.here h.in_range h.waiting h.opened
          h.room in
      let s' = (begin_script R s r.ordinal initial (n / 1000000)).0 in
      let (tr, b, g) =
        begin-answered R s p.campaign_id r.ordinal n rest v (positive r.ordinal hi lo) e in
      let (k, stored, fine) =
        granted-IsCommitted s' p r n work at d v (positive r.ordinal hi lo) w
          (begun-Accepts s m p r (n / 1000000) at d h) in
      rw (b, begun_granted s' r.ordinal tr p r (quiet_round n work at d) g, stored)
        (fine, committed_phase s m r (outcome_of p r d) (n / 1000000) k at h)

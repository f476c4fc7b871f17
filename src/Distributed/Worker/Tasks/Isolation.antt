-- ===== src/Distributed/Worker/Tasks/Isolation.antt =====
-- internal/distributed/worker.go: the recipients outside the range of a task.
use personalized_email_pipel.Prelude.{
  ℕ, ◌+◌, ◌≡◌, ◌≢◌, refl, sym, ◌∙◌, subst, Bool, true, false, ◌||◌, List, [], ◌∷◌, Option, none,
  some, ◌⊎◌, inl, inr, if_holds, arith, Bool-cases,
}
use personalized_email_pipel.Prelude.Int64.{lt64}
use personalized_email_pipel.Distributed.Answers.{
  LedgerError, Transition, BeginResult, granted, retry_granted, not_acknowledged,
}
use personalized_email_pipel.Distributed.Ledger.Records.{Stays, begin-Stays, commit-Stays}
use personalized_email_pipel.Distributed.Ledger.{
  Link, SnapshotResult, no_snapshot, unknown_snapshot, read_snapshot, snapshot,
}
use personalized_email_pipel.Distributed.Model.{AttemptKind}
use personalized_email_pipel.Distributed.Redis.{Redis}
use personalized_email_pipel.Distributed.Scripts.Phase.{Phase}
use personalized_email_pipel.Distributed.Scripts.Store.{Store}
use personalized_email_pipel.Distributed.Task.{Codec, Task, TaskPayload, decode_task}
use personalized_email_pipel.Distributed.Worker.Tasks.{
  process_task, process_decoded, process_payload, source_records,
}
use personalized_email_pipel.Distributed.Worker.{
  Processed, Sha, Round, WorkerError, process_record, process_begun, process_result,
  process_granted, process_dry_run, process_delivery, begin_request, delivery_commit, is_confirmed,
  is_dry_run, process_records,
}
use personalized_email_pipel.RecipientCsv.Fixture.{Random, Record, GeneratedSource, drain}

-- Nobody else uses the ledger during the attempt.
abbrev pub IsAlone : Round → Type 0
IsAlone t = (t.before ≡ []) × (t.between ≡ [])

-- The ordinal is not in the task's range.
abbrev pub IsOutside : ℕ → TaskPayload → Type 0
IsOutside o p = (lt64 o p.first || lt64 p.last o) ≡ true

commit_ordinal : (o : ℕ) (digest : List ℕ) (t : Round) → (delivery_commit o digest t).ordinal ≡ o
commit_ordinal o digest t = elim (Bool-cases (is_confirmed t.delivery)) [
  | inl e ↦ rw e refl
  | inr e ↦ rw e refl
]

module _ (R : Redis) (H : Sha) (o : ℕ) (q : Phase) where
  granted-Stays :
      (s : Store R) (p : TaskPayload) (r : Record) (t : Round)
      → IsAlone t
      → r.ordinal ≢ o
      → Stays R o q s
      → Stays R o q (process_granted R H s p r t).store
  unfolding process_granted process_dry_run process_delivery
  granted-Stays s p r t alone ne h =
      if_holds (λ (x : Processed R H). Stays R o q x.store) (is_dry_run p.sink) _ _
        (if_holds (λ (x : Processed R H). Stays R o q x.store) t.context_done _ _ h
          (commit-Stays R o q _ _ _ _ ne (rw alone.1 h)))
        (commit-Stays R o q _ _ _ _ (λ e. ne (sym (commit_ordinal r.ordinal _ t) ∙ e))
          (rw alone.1 h))

  result-Stays :
      (s : Store R) (p : TaskPayload) (r : Record) (t : Round) (x : BeginResult)
      → IsAlone t
      → r.ordinal ≢ o
      → Stays R o q s
      → Stays R o q (process_result R H s p r t x).store
  unfolding process_result
  result-Stays s p r t not_acknowledged alone ne h = h
  result-Stays s p r t granted alone ne h = granted-Stays s p r t alone ne h
  result-Stays s p r t retry_granted alone ne h = granted-Stays s p r t alone ne h
  result-Stays s p r t _ alone ne h = h

  begun-Stays :
      (b : Store R × (LedgerError ⊎ Transition)) (p : TaskPayload) (r : Record) (t : Round)
      → IsAlone t
      → r.ordinal ≢ o
      → Stays R o q b.0
      → Stays R o q (process_begun R H b p r t).store
  unfolding process_begun
  begun-Stays (s, inl e) p r t alone ne h = h
  begun-Stays (s, inr tr) p r t alone ne h = result-Stays s p r t tr.result alone ne h

  process_record-Stays :
      (s : Store R) (p : TaskPayload) (r : Record) (k : AttemptKind) (t : Round)
      → IsAlone t
      → r.ordinal ≢ o
      → Stays R o q s
      → Stays R o q (process_record R H s p r k t).store
  unfolding process_record
  process_record-Stays s p r k t alone ne h =
      begun-Stays _ p r t alone ne
        (begin-Stays R o q t.begin_link _ p.campaign_id (begin_request r k t) ne (rw alone.0 h))

  not_outside :
      (p : TaskPayload) (x : ℕ)
      → IsOutside o p
      → lt64 p.last x ≡ false
      → lt64 x p.first ≡ false
      → x ≢ o
  not_outside p x out last first e =
      neither (lt64 o p.first) (lt64 p.last o) out (subst (λ z. lt64 z p.first ≡ false) e first)
        (subst (λ z. lt64 p.last z ≡ false) e last)
    where
      neither : (a b : Bool) → (a || b) ≡ true → a ≡ false → b ≡ false → ⊥
      neither a b h f g = ground (arith, h, f, g)

  records-Stays :
      (rs : List Record) (s : Store R) (p : TaskPayload) (k : AttemptKind) (rounds : ℕ → Round)
      → ((x : ℕ) → IsAlone (rounds x))
      → IsOutside o p
      → Stays R o q s
      → Stays R o q (process_records R H s p k rounds rs).0
  unfolding process_records
  records-Stays [] s p k rounds alone out h = h
  records-Stays (r ∷ rs) s p k rounds alone out h = elim (Bool-cases (lt64 p.last r.ordinal)) [
    | inl e ↦ rw e h
    | inr e ↦ rw e (elim (Bool-cases (lt64 r.ordinal p.first)) [
      | inl f ↦ rw f (records-Stays rs s p k rounds alone out h)
      | inr f ↦ rw f (
          let done =
            process_record-Stays s p r k (rounds r.ordinal) (alone r.ordinal)
              (not_outside p r.ordinal out e f) h in
          if_holds (λ (x : Store R × Option WorkerError). Stays R o q x.0) _ _ _ done
            (records-Stays rs (process_record R H s p r k (rounds r.ordinal)).store p k rounds alone
              out done))
    ])
  ]

module _ (R : Redis) (H : Sha) (J : Codec) (M : Random) (o : ℕ) (q : Phase) where
  source-Stays :
      (s : Store R) (p : TaskPayload) (n : ℕ) (rounds : ℕ → Round) (g : Option (GeneratedSource M))
      → ((x : ℕ) → IsAlone (rounds x))
      → IsOutside o p
      → Stays R o q s
      → Stays R o q (source_records R H J M s p n rounds g).0
  unfolding source_records
  source-Stays s p n rounds none alone out h = h
  source-Stays s p n rounds (some g) alone out h =
      records-Stays R H o q (drain M (p.count + 1) g).records s p _ rounds alone out h

  payload-Stays :
      (s : Store R) (p : TaskPayload) (has_deliver : Bool) (n : ℕ) (rounds : ℕ → Round)
      (a : SnapshotResult)
      → ((x : ℕ) → IsAlone (rounds x))
      → IsOutside o p
      → Stays R o q s
      → Stays R o q (process_payload R H J M s p has_deliver n rounds a).0
  unfolding process_payload
  payload-Stays s p has_deliver n rounds (no_snapshot e) alone out h = h
  payload-Stays s p has_deliver n rounds (unknown_snapshot id) alone out h = h
  payload-Stays s p has_deliver n rounds (read_snapshot snap (some e)) alone out h = h
  payload-Stays s p has_deliver n rounds (read_snapshot snap none) alone out h =
      if_holds (λ (x : Store R × Option WorkerError). Stays R o q x.0) _ _ _ h
        (source-Stays s p n rounds _ alone out h)

  -- ProcessTask leaves each recipient outside the range of its task in the phase that it was in, whatever
  -- becomes of the records in it, of their deliveries and of the links to the ledger, in a first attempt
  -- and in a retry, if nobody else uses the ledger meanwhile.
  pub process_task-Stays :
      (s : Store R) (task : Task J) (p : TaskPayload) (link : Link) (has_deliver : Bool) (n : ℕ)
      (rounds : ℕ → Round)
      → decode_task J task ≡ some p
      → ((x : ℕ) → IsAlone (rounds x))
      → IsOutside o p
      → Stays R o q s
      → Stays R o q (process_task R H J M s task link has_deliver n rounds).0
  unfolding process_task process_decoded
  process_task-Stays s task p link has_deliver n rounds e alone out h =
      rw e (payload-Stays s p has_deliver n rounds (snapshot R link s p.campaign_id) alone out h)

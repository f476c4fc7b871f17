-- ===== src/Distributed/Worker/Deliveries.antt =====
-- internal/distributed/worker.go: when a message is handed to the delivery function.
use personalized_email_pipel.Prelude.{
  ◌≡◌, refl, ◌∙◌, Bool, true, false, List, [], ◌∷◌, ◌++◌, Option, none, some, ◌⊎◌, inl, inr, arith,
  Bool-cases,
}
use personalized_email_pipel.Campaign.Render.{RenderedMessage}
use personalized_email_pipel.Distributed.Answers.{
  LedgerError, Transition, BeginResult, granted, retry_granted,
}
use personalized_email_pipel.Distributed.Ledger.Delivery.{
  is_granted, is_granting, begin-grants_once,
}
use personalized_email_pipel.Distributed.Ledger.Effects.{Operation, op_commit, perform, perform_all}
use personalized_email_pipel.Distributed.Ledger.{Link, begin}
use personalized_email_pipel.Distributed.Model.{AttemptKind, one_shot_delivery}
use personalized_email_pipel.Distributed.Redis.{Redis}
use personalized_email_pipel.Distributed.Scripts.Invariant.{IsWellFormed}
use personalized_email_pipel.Distributed.Scripts.Store.{Meta, Store}
use personalized_email_pipel.Distributed.Task.{TaskPayload}
use personalized_email_pipel.Distributed.Worker.{
  Sha, Round, process_record, process_begun, process_result, process_granted, process_dry_run,
  process_delivery, begin_request, delivery_commit, recipient_of, is_dry_run,
}
use personalized_email_pipel.Campaign.Render.{render_message}
use personalized_email_pipel.RecipientCsv.Fixture.{Record}

abbrev pub is_delivered : Option RenderedMessage → Bool
is_delivered none = false
is_delivered (some m) = true

module _ (R : Redis) where
  pub perform_all-append :
      (s : Store R) (os ps : List (Link × Operation))
      → perform_all R (perform_all R s os) ps ≡ perform_all R s (os ++ ps)
  perform_all-append s [] ps = refl
  perform_all-append s (o ∷ os) ps = perform_all-append (perform R s o) os ps

  perform_all_thrice :
      (s : Store R) (os ps qs : List (Link × Operation))
      → perform_all R (perform_all R (perform_all R s os) ps) qs
        ≡ perform_all R s (os ++ (ps ++ qs))
  perform_all_thrice s os ps qs =
      perform_all-append (perform_all R s os) ps qs ∙ perform_all-append s os (ps ++ qs)

module _ (R : Redis) (H : Sha) where
  -- What the delivery of a record does to the ledger behind its grant.
  abbrev delivery_operations : TaskPayload → Record → Round → List (Link × Operation)
  delivery_operations p r t =
      t.between
      ++ (
        t.commit_link,
        op_commit p.campaign_id (
            delivery_commit r.ordinal
              (H.hex_digest (render_message (recipient_of r) p.format).0.body) t),
      )
        ∷ []

  -- What a delivery shows of the answer of Begin and of the store.
  abbrev Shows : Store R × (LedgerError ⊎ Transition) → TaskPayload → Record → Round → Type 0
  Shows b p r t =
      is_delivered (process_begun R H b p r t).delivered ≡ true
      → (is_granted b.1 ≡ true)
        × ((process_begun R H b p r t).store ≡ perform_all R b.0 (delivery_operations p r t))

  granted_store :
      (s : Store R) (p : TaskPayload) (r : Record) (t : Round)
      → is_delivered (process_granted R H s p r t).delivered ≡ true
      → (process_granted R H s p r t).store ≡ perform_all R s (delivery_operations p r t)
  unfolding process_granted process_dry_run process_delivery
  granted_store s p r t h = elim (Bool-cases (is_dry_run p.sink)) [
    | inl e ↦ absurd (nothing e)
    | inr e ↦ rw e (perform_all-append R s t.between _)
  ]
    where
      nothing : is_dry_run p.sink ≡ true → ⊥
      nothing e = let k = rw e at h in ground arith

  result_store :
      (s : Store R) (p : TaskPayload) (r : Record) (t : Round) (x : BeginResult)
      → is_delivered (process_result R H s p r t x).delivered ≡ true
      → (is_granting x ≡ true)
        × ((process_result R H s p r t x).store ≡ perform_all R s (delivery_operations p r t))
  unfolding process_result
  result_store s p r t granted h = (refl, granted_store s p r t h)
  result_store s p r t retry_granted h = (refl, granted_store s p r t h)
  result_store s p r t x h = ground arith

  begun-Shows :
      (b : Store R × (LedgerError ⊎ Transition)) (p : TaskPayload) (r : Record) (t : Round)
      → Shows b p r t
  unfolding process_begun
  begun-Shows (s, inl e) p r t h = ground arith
  begun-Shows (s, inr tr) p r t h = result_store s p r t tr.result h

  -- Without a grant nothing is delivered.
  begun_refused :
      (b : Store R × (LedgerError ⊎ Transition)) (p : TaskPayload) (r : Record) (t : Round)
      → is_granted b.1 ≡ false
      → is_delivered (process_begun R H b p r t).delivered ≡ false
  begun_refused b p r t h = elim (Bool-cases (is_delivered (process_begun R H b p r t).delivered)) [
    | inl e ↦ absurd (both (begun-Shows b p r t e).0)
    | inr e ↦ e
  ]
    where
      both : is_granted b.1 ≡ true → ⊥
      both k = cc

-- In a one-shot campaign a recipient's message is handed to the delivery function once at most:
-- behind a processRecord that delivered it, no processRecord for that ordinal delivers, whatever
-- task it comes from, whatever operations others make between and during the two, and whatever
-- becomes of the commits, if the store was well formed when the first attempt began.
pub process_record-delivers_once :
    (R : Redis) (H : Sha) (s : Store R) (m : Meta) (p p' : TaskPayload) (r r' : Record)
    (k k' : AttemptKind) (t t' : Round) (os : List (Link × Operation))
    → IsWellFormed R (perform_all R s t.before)
    → (perform_all R s t.before).meta ≡ some m
    → m.policy ≡ one_shot_delivery
    → p'.campaign_id ≡ p.campaign_id
    → r'.ordinal ≡ r.ordinal
    → is_delivered (process_record R H s p r k t).delivered ≡ true
    → is_delivered
        (process_record R H
          (perform_all R (process_record R H s p r k t).store os)
          p'
          r'
          k'
          t').delivered
      ≡ false
unfolding process_record
process_record-delivers_once R H s m p p' r r' k k' t t' os w e pol same_id same h =
    let b = begin R t.begin_link (perform_all R s t.before) p.campaign_id (begin_request r k t) in
    let (g, stored) = begun-Shows R H b p r t h in
    let later = delivery_operations R H p r t ++ (os ++ t'.before) in
    begun_refused R H _ p' r' t' (
      rw (same_id, stored, perform_all_thrice R b.0 (delivery_operations R H p r t) os t'.before)
        (begin-grants_once R (perform_all R s t.before) m p.campaign_id t.begin_link t'.begin_link
          (begin_request r k t) (begin_request r' k' t') later w e pol same g))

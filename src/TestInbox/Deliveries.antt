-- ===== src/TestInbox/Deliveries.antt =====
-- internal/testinbox/smtp.go with internal/distributed/worker.go: what is committed for a delivery.
use personalized_email_pipel.Prelude.{
  ℕ, ◌≡◌, refl, Bool, true, false, ◌||◌, [], ◌⊎◌, inl, inr, if◌then◌else◌,
}
use personalized_email_pipel.Campaign.Model.{Text}
use personalized_email_pipel.Distributed.Model.{
  failure_delivery_rejected, failure_delivery_indeterminate, failure_delivery_transport,
}
use personalized_email_pipel.Distributed.Requests.{
  terminal_completed, terminal_failed, ReasonName, no_reason, reason,
}
use personalized_email_pipel.Distributed.Worker.{
  Round, delivery_commit, delivery_failure_reason, is_confirmed,
}
use personalized_email_pipel.TestInbox.{
  DeliveryStatus, delivery_confirmed, delivery_rejected, delivery_transport, delivery_indeterminate,
  delivery_other, DeliveryResult, result_failed, MailAnswers, SendAnswer, sent, send_error,
  other_send_error, SendReason, rcpt_to_failed, data_failed, data_close_failed,
  write_content_failed, conn_check_failed, ambiguous_failed, other_reason, deliver, delivered,
}

-- The message was handed to the mail server and accepted.
pub record IsSent (context_done : Bool) (m : MailAnswers) : Type 0 where
  pub alive : context_done ≡ false
  pub prepared : (m.client_failed || m.from_failed || m.to_failed) ≡ false
  pub dialled : m.dial_failed ≡ false
  pub accepted : m.send ≡ sent

-- One of the three reasons that a distributed report counts.
abbrev pub IsDeliveryReason : ReasonName → Type 0
IsDeliveryReason x =
    (x ≡ reason failure_delivery_rejected)
    ⊎ ((x ≡ reason failure_delivery_transport) ⊎ (x ≡ reason failure_delivery_indeterminate))

delivery_reason : (s : DeliveryStatus) → IsDeliveryReason (reason (delivery_failure_reason s))
delivery_reason delivery_rejected = inl refl
delivery_reason delivery_transport = inr (inl refl)
delivery_reason delivery_indeterminate = inr (inr refl)
delivery_reason delivery_confirmed = inr (inl refl)
delivery_reason delivery_other = inr (inl refl)

unconfirmed : (s : DeliveryStatus) → is_confirmed (result_failed s) ≡ false
unconfirmed delivery_confirmed = refl
unconfirmed delivery_rejected = refl
unconfirmed delivery_transport = refl
unconfirmed delivery_indeterminate = refl
unconfirmed delivery_other = refl

-- A result, that it is a failure if the message was not sent, and that it is confirmed if it was.
abbrev Tells : Bool → MailAnswers → DeliveryResult → Type 0
Tells context_done m d =
    (IsSent context_done m × (d ≡ record { status = delivery_confirmed; failed = false }))
    ⊎ ((IsSent context_done m → ⊥) × (s : DeliveryStatus) × (d ≡ result_failed s))

delivered-Tells :
    (m : MailAnswers) (a : SendAnswer)
    → m.send ≡ a
    → (m.client_failed || m.from_failed || m.to_failed) ≡ false
    → m.dial_failed ≡ false
    → Tells false m (delivered a)
delivered-Tells m sent e p d =
    inl (record { alive = refl; prepared = p; dialled = d; accepted = e }, refl)
delivered-Tells m other_send_error e p d = inr (λ h. other h.accepted, delivery_indeterminate, refl)
  where
    other : m.send ≡ sent → ⊥
    other q = cc
delivered-Tells m (send_error r) e p d =
    let (s, q) = classified r in inr (λ h. other h.accepted, s, q)
  where
    other : m.send ≡ sent → ⊥
    other q = cc

    classified :
        (r : SendReason) → (s : DeliveryStatus) × (delivered (send_error r) ≡ result_failed s)
    classified rcpt_to_failed = (delivery_rejected, refl)
    classified data_failed = (delivery_rejected, refl)
    classified data_close_failed = (delivery_indeterminate, refl)
    classified write_content_failed = (delivery_indeterminate, refl)
    classified conn_check_failed = (delivery_indeterminate, refl)
    classified ambiguous_failed = (delivery_indeterminate, refl)
    classified other_reason = (delivery_transport, refl)

deliver-Tells :
    (context_done : Bool) (m : MailAnswers) → Tells context_done m (deliver context_done m)
unfolding deliver
deliver-Tells true m = inr (λ h. absurd (true-false h.alive), delivery_transport, refl)
  where
    true-false : ◌≡◌ {A = Bool} true false → ⊥
    true-false h = cc
deliver-Tells false m =
    steps (m.client_failed || m.from_failed || m.to_failed) m.dial_failed refl refl
  where
    clash : (b : Bool) → b ≡ true → b ≡ false → ⊥
    clash b h k = cc

    steps :
        (b d : Bool)
        → (m.client_failed || m.from_failed || m.to_failed) ≡ b
        → m.dial_failed ≡ d
        → Tells false m (
            if b
            then result_failed delivery_rejected
            else if d
            then result_failed delivery_transport
            else delivered m.send)
    steps true d e q = inr (λ h. absurd (clash _ e h.prepared), delivery_rejected, refl)
    steps false true e q = inr (λ h. absurd (clash _ q h.dialled), delivery_transport, refl)
    steps false false e q = delivered-Tells m m.send refl e q

-- A worker commits a record of a test inbox as completed, with the digest of its message, exactly if
-- the mail server accepted the message: the context was alive, every step before the send succeeded,
-- and the send returned no error. Else it commits the record as failed, with one of the three reasons
-- for deliveries and without a digest.
pub delivery_commit-deliver :
    (ordinal : ℕ) (digest : Text) (t : Round) (context_done : Bool) (m : MailAnswers)
    → t.delivery ≡ deliver context_done m
    → let c = delivery_commit ordinal digest t in
      (IsSent context_done m
        × (c.state ≡ terminal_completed)
        × (c.digest ≡ digest)
        × (c.reason_name ≡ no_reason))
      ⊎ ((IsSent context_done m → ⊥)
          × (c.state ≡ terminal_failed)
          × (c.digest ≡ [])
          × IsDeliveryReason c.reason_name)
delivery_commit-deliver ordinal digest t context_done m e = told (deliver-Tells context_done m)
  where
    told :
        Tells context_done m (deliver context_done m)
        → let c = delivery_commit ordinal digest t in
          (IsSent context_done m
            × (c.state ≡ terminal_completed)
            × (c.digest ≡ digest)
            × (c.reason_name ≡ no_reason))
          ⊎ ((IsSent context_done m → ⊥)
              × (c.state ≡ terminal_failed)
              × (c.digest ≡ [])
              × IsDeliveryReason c.reason_name)
    told (inl (h, q)) = rw (e, q) (inl (h, refl, refl, refl))
    told (inr (h, s, q)) = rw (e, q, unconfirmed s) (inr (h, refl, refl, delivery_reason s))

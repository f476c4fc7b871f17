-- ===== src/Distributed/Ledger/Records.antt =====
-- internal/distributed/ledger.go: what Begin and Commit of one ordinal leave of the others.
use personalized_email_pipel.Prelude.{
  ℕ, ◌≡◌, ◌≢◌, ◌==◌, ==_iff, refl, Bool, true, false, ◌&&◌, Option, none, some, ◌⊎◌, if_holds,
  if◌then◌else◌, Bool-cases, inl, inr, subst,
}
use personalized_email_pipel.Campaign.Model.{Text}
use personalized_email_pipel.Distributed.Answers.{
  LedgerError, Transition, commit_error, terminal_of,
}
use personalized_email_pipel.Distributed.Ledger.{
  Link, answered, reply_lost, unreachable, run_script, error_of, begin_reply, begin, begin_named,
  commit, commit_named,
}
use personalized_email_pipel.Distributed.Model.{Terminal}
use personalized_email_pipel.Distributed.Redis.{Redis}
use personalized_email_pipel.Distributed.Requests.{
  BeginRequest, CommitRequest, KindName, kind, other_kind, millis,
}
use personalized_email_pipel.Distributed.Scripts.Calls.{Call, call, call_phase, call-IsAt_any}
use personalized_email_pipel.Distributed.Scripts.Calls.Terms.{call-Continues}
use personalized_email_pipel.Distributed.Scripts.Later.{Continues}
use personalized_email_pipel.Distributed.Scripts.Phase.{Phase, IsAt}
use personalized_email_pipel.Distributed.Scripts.Store.{Meta, Store, Reply}

module _ (R : Redis) (o : ℕ) (q : Phase) where
  -- There is a campaign, and the ordinal is in the phase.
  pub record Stays (s : Store R) : Type 0 where
    pub meta : Meta
    pub present : s.meta ≡ some meta
    pub phase : IsAt R s o q

  continued : (m : Meta) (n : Option Meta) → Continues m n → (m' : Meta) × (n ≡ some m')
  continued m none c = absurd c
  continued m (some m') c = (m', refl)

  call-Stays :
      (s : Store R) (c : Call)
      → Stays s
      → ((m : Meta) → call_phase m c o q ≡ q)
      → Stays (call R s c).0
  call-Stays s c h same =
      let (m', e) = continued h.meta (call R s c).0.meta (call-Continues R s h.meta c h.present) in
      record {
        meta = m';
        present = e;
        phase =
            subst (IsAt R (call R s c).0 o) (same h.meta)
              (call-IsAt_any R s h.meta c o q h.present h.phase);
      }

  other_ordinal : (x : ℕ) (b : Bool) (p : Phase) → x ≢ o → (if b && x == o then p else q) ≡ q
  other_ordinal x b p ne = elim (Bool-cases (x == o)) [
    | inl e ↦ absurd (ne ((==_iff x o).0 e))
    | inr e ↦ rw e (never b)
  ]
    where
      never : (b : Bool) → (if b && false then p else q) ≡ q
      never true = refl
      never false = refl

  begin_reply-Stays :
      (link : Link) (x : ℕ) (s : Store R) (c : Call)
      → Stays s
      → Stays (call R s c).0
      → Stays (begin_reply R x (run_script R link s (call R s c))).0
  unfolding begin_reply run_script
  begin_reply-Stays answered x s c h k = k
  begin_reply-Stays reply_lost x s c h k = k
  begin_reply-Stays unreachable x s c h k = h

  error_of-Stays :
      (link : Link) (read : Reply → Option LedgerError) (s : Store R) (c : Call)
      → Stays s
      → Stays (call R s c).0
      → Stays (error_of R read (run_script R link s (call R s c))).0
  unfolding error_of run_script
  error_of-Stays answered read s c h k = k
  error_of-Stays reply_lost read s c h k = k
  error_of-Stays unreachable read s c h k = h

  begin_named-Stays :
      (link : Link) (s : Store R) (r : BeginRequest) (k : KindName)
      → r.ordinal ≢ o
      → Stays s
      → Stays (begin_named R link s r k).0
  unfolding begin_named call
  begin_named-Stays link s r (kind k) ne h =
      begin_reply-Stays link r.ordinal s (Call.begin r.ordinal k (millis r.now)) h (
        call-Stays s (Call.begin r.ordinal k (millis r.now)) h
          (λ m. other_ordinal r.ordinal _ _ ne))
  begin_named-Stays link s r other_kind ne h = h

  pub begin-Stays :
      (link : Link) (s : Store R) (id : Text) (r : BeginRequest)
      → r.ordinal ≢ o
      → Stays s
      → Stays (begin R link s id r).0
  unfolding begin
  begin-Stays link s id r ne h =
      if_holds (λ (x : Store R × (LedgerError ⊎ Transition)). Stays x.0) _ _ _ h
        (begin_named-Stays link s r r.kind_name ne h)

  commit_named-Stays :
      (link : Link) (s : Store R) (r : CommitRequest) (t : Option Terminal)
      → r.ordinal ≢ o
      → Stays s
      → Stays (commit_named R link s r t).0
  unfolding commit_named call
  commit_named-Stays link s r none ne h = h
  commit_named-Stays link s r (some t) ne h =
      error_of-Stays link commit_error s (Call.commit r.ordinal t r.work (millis r.now)) h (
        call-Stays s (Call.commit r.ordinal t r.work (millis r.now)) h
          (λ m. other_ordinal r.ordinal _ _ ne))

  pub commit-Stays :
      (link : Link) (s : Store R) (id : Text) (r : CommitRequest)
      → r.ordinal ≢ o
      → Stays s
      → Stays (commit R link s id r).0
  unfolding commit
  commit-Stays link s id r ne h =
      if_holds (λ (x : Store R × Option LedgerError). Stays x.0) _ _ _ h
        (commit_named-Stays link s r (terminal_of r) ne h)

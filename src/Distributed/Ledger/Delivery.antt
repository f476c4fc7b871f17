-- ===== src/Distributed/Ledger/Delivery.antt =====
-- internal/distributed/ledger.go: which attempts Begin grants.
use personalized_email_pipel.Prelude.{
  ℕ, ◌≡◌, refl, sym, ◌∙◌, Bool, true, false, List, [], ◌∷◌, some, ◌⊎◌, inl, inr, arith, Bool-cases,
  ◌||◌, not,
}
use personalized_email_pipel.Prelude.Int64.{lt64}
use personalized_email_pipel.Campaign.Model.{Text}
use personalized_email_pipel.Distributed.Answers.{
  LedgerError, Transition, BeginResult, granted, retry_granted, begin_answer, map_begin_result,
  reply_code,
}
use personalized_email_pipel.Distributed.Ledger.Effects.{Operation, perform_all, perform_all-run}
use personalized_email_pipel.Distributed.Ledger.{
  Link, answered, reply_lost, unreachable, run_script, begin_reply, begin, begin_named,
}
use personalized_email_pipel.Distributed.Model.{AttemptKind, one_shot_delivery}
use personalized_email_pipel.Distributed.Redis.{Redis}
use personalized_email_pipel.Distributed.Requests.{
  BeginRequest, KindName, kind, other_kind, millis, valid_id, is_zero,
}
use personalized_email_pipel.Distributed.Scripts.Begin.Replies.{grants}
use personalized_email_pipel.Distributed.Scripts.Begin.{begin_script}
use personalized_email_pipel.Distributed.Scripts.Calls.{Call}
use personalized_email_pipel.Distributed.Scripts.Calls.Delivery.{begin_script-grants_once}
use personalized_email_pipel.Distributed.Scripts.Invariant.{run, IsWellFormed}
use personalized_email_pipel.Distributed.Scripts.Store.{Meta, Store, Reply}

-- The worker that asked may deliver.
abbrev pub is_granting : BeginResult → Bool
is_granting granted = true
is_granting retry_granted = true
is_granting _ = false

abbrev pub is_granted : LedgerError ⊎ Transition → Bool
is_granted (inl e) = false
is_granted (inr t) = is_granting t.result

is_granted-begin_answer :
    (o : ℕ) (reply : Reply)
    → is_granted (begin_answer o reply (map_begin_result (reply_code reply))) ≡ grants reply
unfolding begin_answer
is_granted-begin_answer o [] = refl
is_granted-begin_answer o (c ∷ rest) = ground arith

module _ (R : Redis) where
  abbrev begun : Store R → BeginRequest → AttemptKind → Store R × Reply
  begun s r k = begin_script R s r.ordinal k (millis r.now)

  -- The first of two attempts was granted by the script.
  abbrev GrantedBy : Store R → BeginRequest → Store R → Type 0
  GrantedBy s r s' = (k : AttemptKind) × (s' ≡ (begun s r k).0) × (grants (begun s r k).1 ≡ true)

  named_granted :
      (link : Link) (s : Store R) (r : BeginRequest) (name : KindName)
      → is_granted (begin_named R link s r name).1 ≡ true
      → GrantedBy s r (begin_named R link s r name).0
  unfolding begin_named begin_reply run_script
  named_granted answered s r (kind k) h =
      (k, refl, sym (is_granted-begin_answer r.ordinal (begun s r k).1) ∙ h)
  named_granted reply_lost s r (kind k) h = ground arith
  named_granted unreachable s r (kind k) h = ground arith
  named_granted link s r other_kind h = ground arith

  begin_granted :
      (link : Link) (s : Store R) (id : Text) (r : BeginRequest)
      → is_granted (begin R link s id r).1 ≡ true
      → GrantedBy s r (begin R link s id r).0
  unfolding begin
  begin_granted link s id r h =
      elim (Bool-cases (not (valid_id id) || lt64 r.ordinal 1 || is_zero r.now)) [
        | inl e ↦ absurd (refused e)
        | inr e ↦ rw e (named_granted link s r r.kind_name (rw e at h))
      ]
    where
      refused : not (valid_id id) || lt64 r.ordinal 1 || is_zero r.now ≡ true → ⊥
      refused e = let k = rw e at h in ground arith

  named_refused :
      (link : Link) (s : Store R) (r : BeginRequest) (name : KindName)
      → ((k : AttemptKind) → grants (begun s r k).1 ≡ false)
      → is_granted (begin_named R link s r name).1 ≡ false
  unfolding begin_named begin_reply run_script
  named_refused answered s r (kind k) h = is_granted-begin_answer r.ordinal (begun s r k).1 ∙ h k
  named_refused reply_lost s r (kind k) h = refl
  named_refused unreachable s r (kind k) h = refl
  named_refused link s r other_kind h = refl

  begin_refused :
      (link : Link) (s : Store R) (id : Text) (r : BeginRequest)
      → ((k : AttemptKind) → grants (begun s r k).1 ≡ false)
      → is_granted (begin R link s id r).1 ≡ false
  unfolding begin
  begin_refused link s id r h =
      elim (Bool-cases (not (valid_id id) || lt64 r.ordinal 1 || is_zero r.now)) [
        | inl e ↦ rw e refl
        | inr e ↦ rw e (named_refused link s r r.kind_name h)
      ]

later_refused :
    (R : Redis) (s : Store R) (m : Meta) (id : Text) (link : Link) (r r' : BeginRequest)
    (s1 s2 : Store R) (k : AttemptKind) (cs : List Call)
    → IsWellFormed R s
    → s.meta ≡ some m
    → m.policy ≡ one_shot_delivery
    → r'.ordinal ≡ r.ordinal
    → grants (begun R s r k).1 ≡ true
    → s1 ≡ (begun R s r k).0
    → s2 ≡ run R s1 cs
    → is_granted (begin R link s2 id r').1 ≡ false
later_refused R s m id link r r' s1 s2 k cs w e pol same g here later =
    begin_refused R link s2 id r' (λ k'.
      rw (later, here, same)
        (begin_script-grants_once R s m r.ordinal k k' (millis r.now) (millis r'.now) cs w e pol g))

-- Once Begin has granted an attempt at an ordinal of a one-shot campaign, from a well-formed store,
-- no later Begin for that ordinal grants one, whatever operations of the ledger come between, with
-- replies lost and scripts that are never reached.
pub begin-grants_once :
    (R : Redis) (s : Store R) (m : Meta) (id : Text) (link link' : Link) (r r' : BeginRequest)
    (os : List (Link × Operation))
    → IsWellFormed R s
    → s.meta ≡ some m
    → m.policy ≡ one_shot_delivery
    → r'.ordinal ≡ r.ordinal
    → is_granted (begin R link s id r).1 ≡ true
    → is_granted (begin R link' (perform_all R (begin R link s id r).0 os) id r').1 ≡ false
begin-grants_once R s m id link link' r r' os w e pol same g =
    let (k, here, gr) = begin_granted R link s id r g in
    let (cs, later) = perform_all-run R (begin R link s id r).0 os in
    later_refused R s m id link' r r' (begin R link s id r).0
      (perform_all R (begin R link s id r).0 os) k cs w e pol same gr here later

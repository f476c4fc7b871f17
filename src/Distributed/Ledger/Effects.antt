-- ===== src/Distributed/Ledger/Effects.antt =====
-- internal/distributed/ledger.go: the scripts that an operation runs.
use personalized_email_pipel.Prelude.{
  ℕ, ◌≡◌, refl, ◌∙◌, ap, Bool, true, false, List, [], ◌∷◌, ◌++◌, Option, none, some, if◌then◌else◌,
}
use personalized_email_pipel.Campaign.Model.{Text}
use personalized_email_pipel.Distributed.Answers.{LedgerError, acknowledge_error, terminal_of}
use personalized_email_pipel.Distributed.Ledger.{
  Link, answered, reply_lost, unreachable, run_script, error_of, begin_reply, create, create_named,
  acknowledge, begin, begin_named, commit, commit_named, close, close_named, settle, settle_named,
}
use personalized_email_pipel.Distributed.Model.{Terminal}
use personalized_email_pipel.Distributed.Redis.{Redis}
use personalized_email_pipel.Distributed.Requests.{
  CampaignTerms, AcknowledgeRequest, BeginRequest, CommitRequest, CloseRequest, PolicyName, policy,
  other_policy, KindName, kind, other_kind, ReasonName, no_reason, reason, other_reason, millis,
}
use personalized_email_pipel.Distributed.Scripts.Acknowledge.{acknowledge_script}
use personalized_email_pipel.Distributed.Scripts.Calls.{Call, call}
use personalized_email_pipel.Distributed.Scripts.Invariant.{run}
use personalized_email_pipel.Distributed.Scripts.Store.{Store, Reply}

pub data Operation : Type 0 where
  op_create : CampaignTerms → Operation
  op_acknowledge : Text → AcknowledgeRequest → Operation
  op_begin : Text → BeginRequest → Operation
  op_commit : Text → CommitRequest → Operation
  op_close : Text → CloseRequest → Operation
  op_settle : Text → CloseRequest → Operation

module _ (R : Redis) where
  abbrev pub perform : Store R → Link × Operation → Store R
  perform s (link, op_create c) = (create R link s c).0
  perform s (link, op_acknowledge id r) = (acknowledge R link s id r).0
  perform s (link, op_begin id r) = (begin R link s id r).0
  perform s (link, op_commit id r) = (commit R link s id r).0
  perform s (link, op_close id r) = (close R link s id r).0
  perform s (link, op_settle id r) = (settle R link s id r).0

  -- The store after a sequence of operations, each with what became of its script.
  abbrev pub perform_all : Store R → List (Link × Operation) → Store R
  perform_all s [] = s
  perform_all s (o ∷ os) = perform_all (perform s o) os

  abbrev HasRun : Store R → Store R → Type 0
  HasRun s s' = (cs : List Call) × (s' ≡ run R s cs)

  stays : (s : Store R) → HasRun s s
  unfolding run
  stays s = ([], refl)

  one : (s : Store R) (c : Call) → HasRun s (call R s c).0
  unfolding run
  one s c = (c ∷ [], refl)

  if-HasRun :
      {E : Type 0} (s : Store R) (b : Bool) (x y : Store R × E)
      → HasRun s x.0
      → HasRun s y.0
      → HasRun s (if b then x else y).0
  if-HasRun s true x y h k = h
  if-HasRun s false x y h k = k

  error_of-HasRun :
      (link : Link) (read : Reply → Option LedgerError) (s : Store R) (c : Call)
      → HasRun s (error_of R read (run_script R link s (call R s c))).0
  unfolding error_of run_script
  error_of-HasRun answered read s c = one s c
  error_of-HasRun reply_lost read s c = one s c
  error_of-HasRun unreachable read s c = stays s

  begin_reply-HasRun :
      (link : Link) (o : ℕ) (s : Store R) (c : Call)
      → HasRun s (begin_reply R o (run_script R link s (call R s c))).0
  unfolding begin_reply run_script
  begin_reply-HasRun answered o s c = one s c
  begin_reply-HasRun reply_lost o s c = one s c
  begin_reply-HasRun unreachable o s c = stays s

  create_named-HasRun :
      (link : Link) (s : Store R) (c : CampaignTerms) (p : PolicyName)
      → HasRun s (create_named R link s c p).0
  unfolding create_named call
  create_named-HasRun link s c (policy p) = error_of-HasRun link _ s (
      Call.create c.version c.algorithm c.seed c.total (millis c.created) (millis c.deadline) p
        c.delivery_limit)
  create_named-HasRun link s c other_policy = stays s

  begin_named-HasRun :
      (link : Link) (s : Store R) (r : BeginRequest) (k : KindName)
      → HasRun s (begin_named R link s r k).0
  unfolding begin_named call
  begin_named-HasRun link s r (kind k) =
      begin_reply-HasRun link r.ordinal s (Call.begin r.ordinal k (millis r.now))
  begin_named-HasRun link s r other_kind = stays s

  commit_named-HasRun :
      (link : Link) (s : Store R) (r : CommitRequest) (t : Option Terminal)
      → HasRun s (commit_named R link s r t).0
  unfolding commit_named call
  commit_named-HasRun link s r none = stays s
  commit_named-HasRun link s r (some t) =
      error_of-HasRun link _ s (Call.commit r.ordinal t r.work (millis r.now))

  close_named-HasRun :
      (link : Link) (s : Store R) (r : CloseRequest) (x : ReasonName)
      → HasRun s (close_named R link s r x).0
  unfolding close_named call
  close_named-HasRun link s r (reason x) = error_of-HasRun link _ s (Call.close (millis r.now) x)
  close_named-HasRun link s r no_reason = stays s
  close_named-HasRun link s r other_reason = stays s

  settle_named-HasRun :
      (link : Link) (s : Store R) (r : CloseRequest) (x : ReasonName)
      → HasRun s (settle_named R link s r x).0
  unfolding settle_named call
  settle_named-HasRun link s r (reason x) = error_of-HasRun link _ s (Call.settle (millis r.now) x)
  settle_named-HasRun link s r no_reason = stays s
  settle_named-HasRun link s r other_reason = stays s

  acknowledged-HasRun :
      (link : Link) (s : Store R) (r : AcknowledgeRequest)
      → HasRun s
          (error_of R acknowledge_error
            (run_script R link s (acknowledge_script R s r.start r.end_ (millis r.now)))).0
  unfolding call
  acknowledged-HasRun link s r =
      error_of-HasRun link acknowledge_error s (Call.acknowledge r.start r.end_ (millis r.now))

  perform-HasRun : (s : Store R) (o : Link × Operation) → HasRun s (perform s o)
  unfolding create acknowledge begin commit close settle
  perform-HasRun s (link, op_create c) =
      if-HasRun s _ _ _ (stays s) (create_named-HasRun link s c c.policy_name)
  perform-HasRun s (link, op_acknowledge id r) =
      if-HasRun s _ _ _ (stays s) (acknowledged-HasRun link s r)
  perform-HasRun s (link, op_begin id r) =
      if-HasRun s _ _ _ (stays s) (begin_named-HasRun link s r r.kind_name)
  perform-HasRun s (link, op_commit id r) =
      if-HasRun s _ _ _ (stays s) (commit_named-HasRun link s r (terminal_of r))
  perform-HasRun s (link, op_close id r) =
      if-HasRun s _ _ _ (stays s) (close_named-HasRun link s r r.reason_name)
  perform-HasRun s (link, op_settle id r) =
      if-HasRun s _ _ _ (stays s) (settle_named-HasRun link s r r.reason_name)

  run-append : (s : Store R) (cs ds : List Call) → run R (run R s cs) ds ≡ run R s (cs ++ ds)
  unfolding run
  run-append s [] ds = refl
  run-append s (c ∷ cs) ds = run-append (call R s c).0 cs ds

  -- Any sequence of operations, with replies lost and scripts that are never reached, leaves the
  -- store that some sequence of calls of the scripts leaves.
  pub perform_all-run :
      (s : Store R) (os : List (Link × Operation))
      → (cs : List Call) × (perform_all s os ≡ run R s cs)
  perform_all-run s [] = stays s
  perform_all-run s (o ∷ os) =
      let (cs, e) = perform-HasRun s o in
      let (ds, f) = perform_all-run (perform s o) os in
      (cs ++ ds, f ∙ (ap (λ q. run R q ds) e ∙ run-append s cs ds))

-- ===== src/Distributed/Scripts/Calls.antt =====
-- internal/distributed/scripts.go: the scripts as the steps of one machine, which runs them one at
-- a time in any order, and the machine of phases that it refines.
pub mod Terms
pub mod Delivery
use personalized_email_pipel.Prelude.{
  ℕ, ◌≡◌, ◌<◌, ◌^◌, Bool, true, false, ◌&&◌, List, [], ◌∷◌, Option, none, some, arith, ◌==◌,
  if◌then◌else◌,
}
use personalized_email_pipel.Distributed.Model.{
  FailureReason, AttemptPolicy, AttemptKind, Terminal, initial, retry, completes, fails,
  CampaignState, state_open, closed,
}
use personalized_email_pipel.Distributed.Redis.{Redis}
use personalized_email_pipel.Distributed.Scripts.Acknowledge.Phases.{
  acknowledge_phase, acknowledge_due, acknowledge_script-IsAt,
}
use personalized_email_pipel.Distributed.Scripts.Acknowledge.{acknowledge_script}
use personalized_email_pipel.Distributed.Scripts.Begin.Phases.{begin_phase, begin_script-IsAt}
use personalized_email_pipel.Distributed.Scripts.Begin.{begin_script}
use personalized_email_pipel.Distributed.Scripts.Close.Phases.{
  close_phase, settle_phase, close_script-IsAt, settle_script-IsAt,
}
use personalized_email_pipel.Distributed.Scripts.Close.{close_script, settle_script}
use personalized_email_pipel.Distributed.Scripts.Commit.Phases.{commit_phase, commit_script-IsAt}
use personalized_email_pipel.Distributed.Scripts.Commit.{commit_script}
use personalized_email_pipel.Distributed.Scripts.Create.{create_script, create_script-some}
use personalized_email_pipel.Distributed.Scripts.Phase.{
  in_span, Phase, absent, acknowledged, started, completed, failed, unprocessed, IsAt, Move, moves,
  stay,
}
use personalized_email_pipel.Distributed.Scripts.Store.{Meta, Store, Reply}

-- A call of a script with its arguments.
pub data Call : Type 0 where
  create : ℕ → List ℕ → ℕ → ℕ → ℕ → ℕ → AttemptPolicy → ℕ → Call
  acknowledge : ℕ → ℕ → ℕ → Call
  begin : ℕ → AttemptKind → ℕ → Call
  commit : ℕ → Terminal → ℕ → ℕ → Call
  close : ℕ → FailureReason → Call
  settle : ℕ → FailureReason → Call

-- What a call does to the phase of an ordinal of an existing campaign.
abbrev pub call_phase : Meta → Call → ℕ → Phase → Phase
call_phase m (create v a sd t c d p l) o = λ q. q
call_phase m (acknowledge first last now) o = acknowledge_phase (acknowledge_due m first last o)
call_phase m (begin x kind now) o =
    λ q. if in_span 1 m.total x && x == o then begin_phase m kind q else q
call_phase m (commit x t work now) o =
    λ q. if in_span 1 m.total x && x == o then commit_phase t q else q
call_phase m (close now reason) o = close_phase m.state
call_phase m (settle now reason) o = settle_phase m now

if_Move : (b : Bool) (p q : Phase) → Move p q → Move p (if b then q else p)
if_Move true p q m = m
if_Move false p q m = stay

acknowledge_phase-Move : (b : Bool) (p : Phase) → Move p (acknowledge_phase b p)
acknowledge_phase-Move true absent = Move.acknowledges
acknowledge_phase-Move false p = stay
acknowledge_phase-Move true p = stay

begin_initial-Move :
    (b c : Bool)
    → Move acknowledged (if b then unprocessed else if c then acknowledged else started)
begin_initial-Move true c = Move.drops
begin_initial-Move false true = stay
begin_initial-Move false false = Move.begins

begin_phase-Move : (m : Meta) (kind : AttemptKind) (p : Phase) → Move p (begin_phase m kind p)
begin_phase-Move m initial acknowledged = begin_initial-Move _ _
begin_phase-Move m retry p = stay
begin_phase-Move m initial p = stay

commit_phase-Move : (t : Terminal) (p : Phase) → Move p (commit_phase t p)
commit_phase-Move (completes d) started = Move.completes
commit_phase-Move (fails r) started = Move.fails
commit_phase-Move (completes d) p = stay
commit_phase-Move (fails r) p = stay

close_phase-Move : (st : CampaignState) (p : Phase) → Move p (close_phase st p)
close_phase-Move state_open acknowledged = Move.drops
close_phase-Move closed p = stay
close_phase-Move state_open p = stay

settle_started-Move :
    (b c : Bool) → Move started (if b then started else if c then failed else started)
settle_started-Move true c = stay
settle_started-Move false true = Move.fails
settle_started-Move false false = stay

settle_phase-Move : (m : Meta) (now : ℕ) (p : Phase) → Move p (settle_phase m now p)
settle_phase-Move m now started = settle_started-Move _ _
settle_phase-Move m now absent = stay
settle_phase-Move m now p = stay

-- Each call makes one move of the diagram at most with each ordinal: no script skips a phase or
-- leaves a terminal one.
pub call_phase-Move : (m : Meta) (c : Call) (o : ℕ) (p : Phase) → Move p (call_phase m c o p)
call_phase-Move m (create v a sd t c d pl l) o p = stay
call_phase-Move m (acknowledge first last now) o p = acknowledge_phase-Move _ p
call_phase-Move m (begin x kind now) o p = if_Move _ p _ (begin_phase-Move m kind p)
call_phase-Move m (commit x t work now) o p = if_Move _ p _ (commit_phase-Move t p)
call_phase-Move m (close now reason) o p = close_phase-Move m.state p
call_phase-Move m (settle now reason) o p = settle_phase-Move m now p

module _ (R : Redis) where
  unfoldable pub call : Store R → Call → Store R × Reply
  call s (create v a sd t c d p l) = create_script R s v a sd t c d p l
  call s (acknowledge first last now) = acknowledge_script R s first last now
  call s (begin x kind now) = begin_script R s x kind now
  call s (commit x t work now) = commit_script R s x t work now
  call s (close now reason) = close_script R s now reason
  call s (settle now reason) = settle_script R s now reason

  -- The calls over ordinals as numbers, whatever the total.
  pub call-IsAt_any :
      (s : Store R) (m : Meta) (c : Call) (o : ℕ) (p : Phase)
      → s.meta ≡ some m
      → IsAt R s o p
      → IsAt R (call s c).0 o (call_phase m c o p)
  unfolding call
  call-IsAt_any s m (create v a sd t c d pl l) o p e h =
      rw (create_script-some R s m v a sd t c d pl l e) h
  call-IsAt_any s m (acknowledge first last now) o p e h =
      acknowledge_script-IsAt R s m first last now o p e h
  call-IsAt_any s m (begin x kind now) o p e h = begin_script-IsAt R s m x o kind now p e h
  call-IsAt_any s m (commit x t work now) o p e h = commit_script-IsAt R s m x o t work now p e h
  call-IsAt_any s m (close now reason) o p e h = close_script-IsAt R s m now reason o p e h
  call-IsAt_any s m (settle now reason) o p e h = settle_script-IsAt R s m now reason o p e h

  -- The scripts refine the machine of phases: whatever call is made of an existing campaign whose
  -- total is below 10 ^ 14, an ordinal in one phase is, after it, in the phase that the
  -- specification says. Up to that total, Lua's tostring of an ordinal is its decimal text.
  pub call-IsAt :
      (s : Store R) (m : Meta) (c : Call) (o : ℕ) (p : Phase)
      → m.total < 10 ^ 14
      → s.meta ≡ some m
      → IsAt R s o p
      → IsAt R (call s c).0 o (call_phase m c o p)
  call-IsAt s m c o p few = call-IsAt_any s m c o p

-- ===== src/Command/Options/Campaigns.antt =====
-- cmd/email-pipeline: NewProducer on the campaigns of distributed runs.
use personalized_email_pipel.Prelude.{
  ℕ, zero, suc, ◌+◌, ◌/◌, ◌%◌, ◌≤◌, ◌<◌, ◌≡◌, refl, Bool, true, false, not, ◌&&◌, ◌||◌, [], ◌∷◌,
  ◌++◌, ◌==◌, if◌then◌else◌, length, length-append, arith, Bool-cases, ltb, inl, inr,
}
use personalized_email_pipel.Prelude.Int64.{modulus, lt64, is_negative}
use personalized_email_pipel.Campaign.Model.{Text}
use personalized_email_pipel.Campaign.Render.{decimal_from}
use personalized_email_pipel.Campaign.Report.{
  backend_asynq, Sink, sink_dry_run, sink_test_inbox, sink_other,
}
use personalized_email_pipel.Campaign.Text.{codes, every, text_eq}
use personalized_email_pipel.Command.Options.{
  RunOptions, valid_options, producer_config, is_dry_run, is_test_inbox, policy_of, limit_of,
  task_sink_of,
}
use personalized_email_pipel.RecipientCsv.Fixture.{fixture_algorithm_v1}
use personalized_email_pipel.Distributed.Producer.{valid_producer, producer_sink_matches}
use personalized_email_pipel.Distributed.Requests.{
  id_rune, policy, valid_policy, valid_id, valid_campaign, max_acknowledge_range,
}

every-append : (p : ℕ → Bool) (s t : Text) → every p (s ++ t) ≡ (every p s && every p t)
every-append p [] t = refl
every-append p (c ∷ s) t = rw (every-append p s t) (and_assoc (p c) (every p s) (every p t))
  where
    and_assoc : (a b c : Bool) → (a && (b && c)) ≡ ((a && b) && c)
    and_assoc a b c = ground arith

-- A digit may stand in a campaign's id.
digit_rune : (d : ℕ) → d < 10 → id_rune (b'0' + d) ≡ true
digit_rune d h = ground arith

every-decimal_from : (fuel n : ℕ) → every id_rune (decimal_from fuel n) ≡ true
unfolding decimal_from
every-decimal_from zero n = refl
every-decimal_from (suc fuel) n = elim (Bool-cases (ltb n 10)) [
  | inl e ↦ rw (e, digit_rune n (ground arith)) refl
  | inr e ↦
      rw
        (
          e,
          every-append id_rune (decimal_from fuel (n / 10)) ((b'0' + n % 10) ∷ []),
          every-decimal_from fuel (n / 10),
          digit_rune (n % 10) (omega arith),
        )
        refl
]

length-decimal_from : (fuel n : ℕ) → length (decimal_from fuel n) ≤ fuel
unfolding decimal_from
length-decimal_from zero n = omega arith
length-decimal_from (suc fuel) n = elim (Bool-cases (ltb n 10)) [
  | inl e ↦ rw e (omega arith)
  | inr e ↦
      rw (e, length-append (decimal_from fuel (n / 10)) ((b'0' + n % 10) ∷ []))
        (omega (arith, length-decimal_from fuel (n / 10)))
]

campaign_id_valid : (now : ℕ) → valid_id (codes "campaign-" ++ decimal_from 20 now) ≡ true
unfolding valid_id
campaign_id_valid now = rw (every-decimal_from 20 now) (ground (arith, length-decimal_from 20 now))

-- What the guard of a distributed run lets through.
record IsAllowed (o : RunOptions) : Type 0 where
  named : (length o.algorithm == 0) ≡ false
  counted : lt64 o.count 1 ≡ false
  sized : lt64 o.task_size 1 ≡ false
  retried : is_negative o.max_retry ≡ false
  timed : lt64 0 o.completion_deadline ≡ true
  known : (is_dry_run o.sink || is_test_inbox o.sink) ≡ true
  few : (is_test_inbox o.sink && lt64 10 o.count) ≡ false

named_algorithm : (s : Text) → text_eq s fixture_algorithm_v1 ≡ true → (length s == 0) ≡ false
named_algorithm [] h = ground arith
named_algorithm (c ∷ s) h = ground arith

valid_options-IsAllowed :
    (o : RunOptions) → valid_options o ≡ true → o.backend ≡ backend_asynq → IsAllowed o
unfolding valid_options
valid_options-IsAllowed o h e =
    let k = rw e at h in
    record {
      named = named_algorithm o.algorithm (ground arith);
      counted = ground arith;
      sized = ground arith;
      retried = ground arith;
      timed = ground arith;
      known = ground arith;
      few = ground arith;
    }

timed_after : (now d : ℕ) → d < modulus → lt64 0 d ≡ true → ltb now (now + d) ≡ true
timed_after now d r h = ground arith

not_negative : (n : ℕ) → n < modulus → lt64 n 1 ≡ false → is_negative n ≡ false
not_negative n r h = ground arith

sink_policy :
    (s : Sink) (count : ℕ)
    → (is_dry_run s || is_test_inbox s) ≡ true
    → (is_test_inbox s && lt64 10 count) ≡ false
    → lt64 count 1 ≡ false
    → (valid_policy (policy (policy_of s)) count (limit_of s) ≡ true)
      × (producer_sink_matches (task_sink_of s) (policy (policy_of s)) ≡ true)
sink_policy sink_dry_run count k f c = (refl, refl)
sink_policy sink_test_inbox count k f c = (ground arith, refl)
sink_policy sink_other count k f c = ground arith

-- Options that pass validate for a distributed run make a campaign that NewProducer accepts, at any
-- time, if a task is no longer than a range that Acknowledge accepts: so runDistributed refuses only
-- such a task size as invalid configuration. The numbers are below 2 ^ 64.
pub valid_options-valid_producer :
    (o : RunOptions) (now : ℕ)
    → valid_options o ≡ true
    → o.backend ≡ backend_asynq
    → o.count < modulus
    → o.completion_deadline < modulus
    → valid_producer (producer_config o now) ≡ not (lt64 max_acknowledge_range o.task_size)
unfolding valid_producer valid_campaign
valid_options-valid_producer o now h e small short =
    let a = valid_options-IsAllowed o h e in
    let (p, m) = sink_policy o.sink o.count a.known a.few a.counted in
    rw
      (
        campaign_id_valid now,
        a.named,
        not_negative o.count small a.counted,
        p,
        timed_after now o.completion_deadline short a.timed,
        a.sized,
        a.retried,
        m,
      )
      (last (lt64 max_acknowledge_range o.task_size))
  where
    last : (b : Bool) → (if b || false || false || false || false then false else true) ≡ not b
    last b = ground arith

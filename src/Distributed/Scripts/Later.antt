-- ===== src/Distributed/Scripts/Later.antt =====
-- internal/distributed/scripts.go: the terms of a campaign that is created.
use personalized_email_pipel.Prelude.{◌≤◌, ◌≡◌, false, Option, none, some}
use personalized_email_pipel.Distributed.Model.{is_open}
use personalized_email_pipel.Distributed.Scripts.Store.{Meta}

-- `m'` is the same campaign as `m`, later: its terms are unchanged, a closed campaign stays closed,
-- the counters only rise, and the reserved deliveries stay within the limit.
pub record IsLater (m m' : Meta) : Type 0 where
  pub same_version : m'.version ≡ m.version
  pub same_algorithm : m'.algorithm ≡ m.algorithm
  pub same_seed : m'.seed ≡ m.seed
  pub same_total : m'.total ≡ m.total
  pub same_created : m'.created_ms ≡ m.created_ms
  pub same_deadline : m'.deadline_ms ≡ m.deadline_ms
  pub same_policy : m'.policy ≡ m.policy
  pub same_limit : m'.delivery_limit ≡ m.delivery_limit
  pub stays_closed : is_open m.state ≡ false → is_open m'.state ≡ false
  pub attempts_rise : m.attempts ≤ m'.attempts
  pub retries_rise : m.retries ≤ m'.retries
  pub duplicates_rise : m.duplicates ≤ m'.duplicates
  pub work_rises : m.work_nanos ≤ m'.work_nanos
  pub reserved_rises : m.delivery_reserved ≤ m'.delivery_reserved
  pub reserved_bounded :
      m.delivery_reserved ≤ m.delivery_limit → m'.delivery_reserved ≤ m.delivery_limit

abbrev pub Continues : Meta → Option Meta → Type 0
Continues m none = ⊥
Continues m (some m') = IsLater m m'

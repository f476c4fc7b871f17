-- ===== src/Command/Options.antt =====
-- cmd/email-pipeline/config.go: the options of the run command and the Redis configuration; and how
-- runDistributed of cmd/email-pipeline/run_command.go makes a campaign of them. strconv.Atoi is a
-- parameter. Numbers are 64-bit patterns, durations in nanoseconds.
pub mod Campaigns
use personalized_email_pipel.Prelude.{
  ℕ, ◌+◌, Bool, true, false, not, ◌&&◌, ◌||◌, List, [], ◌∷◌, ◌++◌, Option, none, some, ◌==◌,
  if◌then◌else◌, length,
}
use personalized_email_pipel.Prelude.Int64.{lt64, is_negative}
use personalized_email_pipel.Campaign.Model.{Text}
use personalized_email_pipel.Campaign.Render.{Format, decimal_from}
use personalized_email_pipel.Campaign.Report.{
  Backend, backend_local, backend_asynq, Sink, sink_dry_run, sink_test_inbox,
}
use personalized_email_pipel.Campaign.Text.{codes, text_eq, trim_space}
use personalized_email_pipel.Distributed.Model.{AttemptPolicy, retryable, one_shot_delivery}
use personalized_email_pipel.Distributed.Producer.{ProducerConfig}
use personalized_email_pipel.Distributed.Requests.{
  since_epoch, policy, ledger_version, max_delivery_limit,
}
use personalized_email_pipel.Distributed.Task.{TaskSink, task_sink_dry_run, task_sink_test_inbox}
use personalized_email_pipel.RecipientCsv.Fixture.{fixture_algorithm_v1}

abbrev pub test_inbox_confirmation : Text
test_inbox_confirmation = codes "SEND_SYNTHETIC_TEST"

pub record RunOptions : Type 0 where
  pub input : Text
  pub backend : Backend
  pub sink : Sink
  pub format : Format
  pub count : ℕ
  pub seed : ℕ
  pub algorithm : Text
  pub workers : ℕ
  pub settlement : ℕ
  pub confirmation : Text
  pub task_size : ℕ
  pub max_retry : ℕ
  pub completion_deadline : ℕ
  pub expose_mode : Bool

abbrev pub is_local : Backend → Bool
is_local backend_local = true
is_local _ = false

abbrev is_asynq : Backend → Bool
is_asynq backend_asynq = true
is_asynq _ = false

abbrev pub is_dry_run : Sink → Bool
is_dry_run sink_dry_run = true
is_dry_run _ = false

abbrev pub is_test_inbox : Sink → Bool
is_test_inbox sink_test_inbox = true
is_test_inbox _ = false

abbrev pub is_blank : Text → Bool
is_blank [] = true
is_blank (c ∷ s) = false

-- runOptions.validate.
unfoldable pub valid_options : RunOptions → Bool
valid_options o =
    if not (lt64 0 o.workers)
      || not (lt64 0 o.settlement)
      || not (text_eq o.algorithm fixture_algorithm_v1)
      || not (is_local o.backend) && not (is_asynq o.backend)
      || not (is_dry_run o.sink) && not (is_test_inbox o.sink)
    then false
    else if is_local o.backend && is_dry_run o.sink
    then not (is_blank o.input || not (o.count == 0))
    else if not (is_blank o.input)
        || lt64 o.count 1
        || lt64 o.task_size 1
        || is_negative o.max_retry
        || not (lt64 0 o.completion_deadline)
    then false
    else if is_test_inbox o.sink
        && (lt64 10 o.count || not (text_eq o.confirmation test_inbox_confirmation))
    then false
    else true

pub record RedisConfig : Type 0 where
  pub address : Text
  pub username : Text
  pub password : Text
  pub db : ℕ

abbrev checked_db : Option ℕ → Option ℕ
checked_db none = none
checked_db (some db) = if is_negative db then none else some db

-- redisConfigFromEnvironment; a variable that is not set is empty.
redis_config_of : (Text → Text) → Option ℕ → Option RedisConfig
redis_config_of env none = none
redis_config_of env (some db) =
    let address = trim_space (env (codes "EMAIL_PIPELINE_REDIS_ADDR")) in
    if is_blank address
    then none
    else some (record {
      address = address;
      username = env (codes "EMAIL_PIPELINE_REDIS_USERNAME");
      password = env (codes "EMAIL_PIPELINE_REDIS_PASSWORD");
      db = db;
    })

unfoldable pub redis_config_from_environment :
    (Text → Option ℕ) → (Text → Text) → Option RedisConfig
unfolding redis_config_of
redis_config_from_environment atoi env =
    let raw = trim_space (env (codes "EMAIL_PIPELINE_REDIS_DB")) in
    redis_config_of env (if is_blank raw then some 0 else checked_db (atoi raw))

-- The policy, the delivery limit and the sink of the tasks.
abbrev policy_of : Sink → AttemptPolicy
policy_of sink_test_inbox = one_shot_delivery
policy_of _ = retryable

abbrev limit_of : Sink → ℕ
limit_of sink_test_inbox = max_delivery_limit
limit_of _ = 0

abbrev task_sink_of : Sink → TaskSink
task_sink_of sink_test_inbox = task_sink_test_inbox
task_sink_of _ = task_sink_dry_run

-- The configuration that runDistributed gives to NewProducer at a time, in nanoseconds since 1970.
abbrev pub producer_config : RunOptions → ℕ → ProducerConfig
producer_config o now = record {
  campaign = record {
    id = codes "campaign-" ++ decimal_from 20 now;
    algorithm = o.algorithm;
    seed = o.seed;
    total = o.count;
    deadline = since_epoch (now + o.completion_deadline);
    created = since_epoch now;
    version = ledger_version;
    policy_name = policy (policy_of o.sink);
    delivery_limit = limit_of o.sink;
  };
  sink = task_sink_of o.sink;
  format = o.format;
  task_size = o.task_size;
  max_retry = o.max_retry;
  retention = 3600000000000;
  enqueue_timeout = 5000000000;
}

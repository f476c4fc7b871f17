-- ===== src/Command/Run.antt =====
-- cmd/email-pipeline/run_command.go and the sink of config.go: the run command. os.Stat, the files, the
-- certificates and the signals are inputs, as are the rounds of Run, of Enqueue and of Wait.
pub mod Interrupted
pub mod Inbox
use personalized_email_pipel.Prelude.{
  ℕ, ◌+◌, Bool, true, false, not, ◌&&◌, ◌||◌, List, [], ◌∷◌, Option, none, some, ◌⊎◌, inl, inr,
  ◌==◌, if◌then◌else◌, length, zero, suc,
}
use personalized_email_pipel.Prelude.Int64.{inc64}
use personalized_email_pipel.Campaign.Loop.{Next, gives, ends, Turn, RunConfig, Loop, initial_loop}
use personalized_email_pipel.Campaign.Model.{Text}
use personalized_email_pipel.Campaign.Render.{Format, parse_format, synthetic_sample}
use personalized_email_pipel.Campaign.Report.{
  RunReport, Backend, Sink, backend_local, sink_dry_run, sink_test_inbox, ModeEvidence,
  TestDeliveryEvidence, marshal_report, report_of, write_run_report, is_none,
}
use personalized_email_pipel.Campaign.Runner.{run_turns, is_running}
use personalized_email_pipel.Campaign.Text.{codes, trim_space}
use personalized_email_pipel.Command.DistributedReport.{distributed_report, run_error}
use personalized_email_pipel.Command.Exit.{Exit, static_error, silent}
use personalized_email_pipel.Command.LocalFile.{LocalRun, run_local_file, source_record}
use personalized_email_pipel.Command.Options.{
  RunOptions, RedisConfig, valid_options, redis_config_from_environment, producer_config, is_local,
  is_dry_run, is_test_inbox, is_blank,
}
use personalized_email_pipel.Distributed.Ledger.{Link}
use personalized_email_pipel.Distributed.Producer.{
  ProducerConfig, ProducerError, CloseRound, PollRound, RangeRound, Produced, Enqueued,
  valid_producer, enqueue,
}
use personalized_email_pipel.Distributed.Redis.{Redis}
use personalized_email_pipel.Distributed.Scripts.Store.{Store}
use personalized_email_pipel.Distributed.Task.{Codec}
use personalized_email_pipel.Distributed.Waiting.{wait}
use personalized_email_pipel.RecipientCsv.Fixture.{
  Random, Record, GeneratedSource, new_generated_source, drain,
}
use personalized_email_pipel.RecipientCsv.Reader.{Csv, Slice}
use personalized_email_pipel.TestInbox.{
  Strings, Config, ConfigError, invalid_config, DeliveryStatus, delivery_confirmed,
  delivery_rejected, delivery_transport, delivery_indeterminate, delivery_other, parse_config,
  validate_config,
}

-- The process's environment variables, empty if not set; ReadFile; whether SystemCertPool fails; and
-- AppendCertsFromPEM.
pub record Environment : Type 0 where
  pub get_env : Text → Text
  pub read_file : Text → Option Text
  pub no_cert_pool : Bool
  pub append_certs : Text → Bool

module _ (S : Strings) (E : Environment) where
  with_certificates : Config → Option Text → ConfigError ⊎ Config
  with_certificates c none = inl invalid_config
  with_certificates c (some pem) =
      if E.no_cert_pool || not (E.append_certs pem) then inl invalid_config else validate_config S c

  sink_for : ConfigError ⊎ Config → ConfigError ⊎ Config
  sink_for (inl e) = inl e
  sink_for (inr c) =
      let ca_file = trim_space (E.get_env (codes "EMAIL_PIPELINE_SMTP_CA_FILE")) in
      if is_blank ca_file then validate_config S c else with_certificates c (E.read_file ca_file)

  -- smtpSinkFromEnvironment with smtpConfigFromEnvironment: the configuration of the sink.
  unfoldable pub smtp_sink_from_environment : ConfigError ⊎ Config
  unfolding sink_for with_certificates
  smtp_sink_from_environment = sink_for (parse_config S E.get_env)

-- writeRunReport, with the reason that it prints.
unfoldable pub report_exit : RunReport → Bool → Exit
report_exit r written =
    if is_none (marshal_report r)
    then static_error (codes "untrustworthy_accounting")
    else if not written
    then static_error (codes "report_write_failed")
    else silent (write_run_report r written)

-- The four atomic counters of runLocal.
unfoldable pub tally : List DeliveryStatus → TestDeliveryEvidence
tally [] = record { confirmed = 0; rejected = 0; transport = 0; indeterminate = 0 }
tally (s ∷ ss) =
    let e = tally ss in
    elim s [
      | delivery_confirmed ↦ record e { confirmed = inc64 e.confirmed }
      | delivery_indeterminate ↦ record e { indeterminate = inc64 e.indeterminate }
      | delivery_transport ↦ record e { transport = inc64 e.transport }
      | _ ↦ record e { rejected = inc64 e.rejected }
    ]

-- What the deliveries of the first recipients that were granted came to, the last of them first.
unfoldable pub returned_deliveries : (ℕ → DeliveryStatus) → ℕ → List DeliveryStatus
returned_deliveries deliveries zero = []
returned_deliveries deliveries (suc n) = deliveries n ∷ returned_deliveries deliveries n

-- The report of a local run with the test inbox, from what the delivery of each recipient came to, in
-- the order of their grants. A worker calls the sink once for each grant, and Run waits for its workers
-- (runner.go:171-172) before it returns: each delivery that was started has returned and is counted
-- when the counters are read, also one that was under way at the settlement deadline.
abbrev pub inbox_report : LocalRun → ModeEvidence → (ℕ → DeliveryStatus) → Loop → RunReport
inbox_report run mode deliveries s =
    record (report_of run.config s run.elapsed run.peak run.response_bound run.measured) {
      mode = some mode;
      test_delivery = some (tally (returned_deliveries deliveries s.started));
    }

-- The configuration that Run is called with.
abbrev options_config : RunOptions → RunConfig
options_config o = record {
  workers = o.workers;
  settlement = o.settlement;
  sample_text = λ ordinal category. synthetic_sample ordinal category;
}

-- The answers of the generated source, up to its end.
unfoldable pub records_source : List Record → List Next
records_source [] = ends ∷ []
records_source (r ∷ rs) =
    gives (record (source_record r) { parser_reason = none }) ∷ records_source rs

module _ (M : Random) where
  run_inbox :
      RunOptions → LocalRun → (ℕ → DeliveryStatus) → Bool → Option (GeneratedSource M) → Option Exit
  run_inbox o run deliveries written none = some (static_error (codes "invalid_configuration"))
  run_inbox o run deliveries written (some source) =
      let s =
        run_turns run.config (initial_loop (records_source (drain M (o.count + 1) source).records))
          run.turns in
      let mode : ModeEvidence = record { backend = o.backend; sink = o.sink } in
      if is_running s then none else some (report_exit (inbox_report run mode deliveries s) written)

  inbox_sink :
      RunOptions → LocalRun → (ℕ → DeliveryStatus) → Bool → ConfigError ⊎ Config → Option Exit
  inbox_sink o run deliveries written (inl e) = some (static_error (codes "guard_refused"))
  inbox_sink o run deliveries written (inr c) =
      run_inbox o (record run { config = options_config o }) deliveries written
        (new_generated_source M
          (record { algorithm = o.algorithm; seed = o.seed; count = o.count }))

  -- runLocal with the test inbox: `none` if Run goes on behind the rounds.
  unfoldable pub run_local_inbox :
      Strings → Environment → RunOptions → LocalRun → (ℕ → DeliveryStatus) → Bool → Option Exit
  unfolding inbox_sink run_inbox
  run_local_inbox S E o run deliveries written =
      inbox_sink o run deliveries written (smtp_sink_from_environment S E)

-- The input file of a local dry run.
pub data InputFile : Type 0 where
  cannot_open not_regular : InputFile
  regular : List Slice → InputFile

module _ (C : Csv) where
  file_exit : Bool → Option RunReport → Option Exit
  file_exit written none = none
  file_exit written (some r) = some (report_exit r written)

  -- runLocalFile with the checks of the file.
  unfoldable pub run_input_file : RunOptions → LocalRun → InputFile → Bool → Option Exit
  unfolding file_exit
  run_input_file o run cannot_open written = some (static_error (codes "input_unavailable"))
  run_input_file o run not_regular written = some (static_error (codes "input_not_regular"))
  run_input_file o run (regular input) written =
      let mode : ModeEvidence = record { backend = o.backend; sink = o.sink } in
      file_exit written (
        run_local_file C
          (record run {
            config = options_config o;
            mode = if o.expose_mode then some mode else none;
          })
          input)

abbrev is_refused : ConfigError ⊎ Config → Bool
is_refused (inl e) = true
is_refused (inr c) = false

-- What lies outside runDistributed: the time, what happens around Create, Enqueue and Wait, and whether
-- the report can be printed.
pub record DistributedRun : Type 0 where
  pub now : ℕ
  pub create_link : Link
  pub rounds : ℕ → RangeRound
  pub closing : CloseRound
  pub polls : List PollRound
  pub written : Bool

module _ (R : Redis) (J : Codec) where
  -- Enqueue, and Wait if it returns no error.
  awaited :
      ProducerConfig → List PollRound → Produced R → Option ProducerError → Option (Produced R)
  awaited c polls p (some e) = some p
  awaited c polls p none = wait R c polls p.store p.result

  unfoldable pub produce : RunOptions → DistributedRun → Store R → Option (Produced R)
  unfolding awaited
  produce o d s =
      let c = producer_config o d.now in
      let p = (enqueue R J c d.create_link d.rounds d.closing s).produced in
      awaited c d.polls p p.error

  produced_exit : RunOptions → Bool → Option (Produced R) → Option Exit
  produced_exit o written none = none
  produced_exit o written (some p) =
      some (report_exit (distributed_report o.backend o.sink p.result (run_error p.error)) written)

  redis_run : RunOptions → DistributedRun → Store R → Option RedisConfig → Option Exit
  redis_run o d s none = some (static_error (codes "distributed_unavailable"))
  redis_run o d s (some config) =
      if not (valid_producer (producer_config o d.now))
      then some (static_error (codes "invalid_configuration"))
      else produced_exit o d.written (produce o d s)

  -- runDistributed: `none` if Wait goes on behind the polls.
  unfoldable pub run_distributed :
      Strings → Environment → RunOptions → DistributedRun → Store R → Option Exit
  unfolding redis_run produced_exit
  run_distributed S E o d s =
      if is_test_inbox o.sink && is_refused (smtp_sink_from_environment S E)
      then some (static_error (codes "guard_refused"))
      else redis_run o d s (redis_config_from_environment S.atoi E.get_env)

-- The flags of the run command: the options but the format, which is still a text.
pub record RunFlags : Type 0 where
  pub parse_failed : Bool
  pub rest : ℕ
  pub format : Text
  pub options : RunOptions

-- What lies outside a run, for each of its three kinds.
pub record Outside : Type 0 where
  pub local : LocalRun
  pub file : InputFile
  pub deliveries : ℕ → DeliveryStatus
  pub remote : DistributedRun

module _ (S : Strings) (E : Environment) (M : Random) (C : Csv) (R : Redis) (J : Codec) where
  -- runLocal.
  run_local : RunOptions → Outside → Option Exit
  run_local o x =
      if is_dry_run o.sink
      then run_input_file C o x.local x.file x.remote.written
      else run_local_inbox M S E o x.local x.deliveries x.remote.written

  run_valid : RunOptions → Outside → Store R → Option Exit
  run_valid o x s =
      if not (valid_options o)
      then some (static_error (codes "guard_refused"))
      else if is_local o.backend
      then run_local o x
      else run_distributed R J S E o x.remote s

  run_format : RunOptions → Option Format → Outside → Store R → Option Exit
  run_format o none x s = some (static_error (codes "guard_refused"))
  run_format o (some format) x s = run_valid (record o { format = format }) x s

  -- runCommand: `none` if the run goes on.
  unfoldable pub run_command : RunFlags → Outside → Store R → Option Exit
  unfolding run_format run_valid run_local
  run_command flags x s =
      if flags.parse_failed || not (flags.rest == 0)
      then some (static_error (codes "invalid_configuration"))
      else run_format flags.options (parse_format flags.format) x s

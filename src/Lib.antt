-- ===== src/Lib.antt =====
-- email-pipeline reads a recipient list, refuses bad and repeated addresses, renders one message per
-- recipient and accounts for every record. A run is local (worker goroutines of one process) or
-- distributed (tasks on a queue, with a ledger in Redis that every worker consults).
--
-- The modules:
--   Prelude                 Booleans, lists, options and 64-bit counters that all parts share.
--   Campaign.Model          internal/campaign/model.go: Counts.Validate, DeriveOutcome, the reasons.
--   Campaign.Accounting     what the check of the counters accepts, and what an outcome says.
--   Campaign.Text           the functions of Go's strings package that the next module calls.
--   Campaign.Normalize      internal/campaign/normalize.go: NormalizeEmail, UsableName.
--   Campaign.Metrics        internal/campaign/metrics.go: addReason (Totals: its counts). An index out
--                           of the range of a slice is `none`.
--   Campaign.Samples        internal/campaign/model.go: Samples.Add and For (Order: sorted
--                           and bounded).
--   Campaign.Runner         internal/campaign/runner.go: the loop of Run. `turn` is one round,
--                           `run_turns` the loop over a list of rounds. The variables of the
--                           loop and a round's inputs stand in Campaign.Loop.
--     Books, Rule, Rounds   the invariant of the loop's accounts.
--     Scopes                how its scope and its fatal flag go together.
--     Whole                 what it has read of a source that does not fail.
--   Campaign.Report         internal/campaign/report.go: MarshalReport; writeRunReport of
--                           cmd/email-pipeline/run_command.go.
--     Refusals, Runs        which reports are refused, and the reports of runs.
--   Campaign.Render         internal/campaign/render.go: RenderMessage, SyntheticSample (Lines: what
--                           a name can add to a message).
--   Distributed.Redis       the sets and hashes of Redis that the scripts use: operations and laws.
--   Distributed.Members     how many members disjoint sets of bounded numbers have.
--   Distributed.Model       internal/distributed/model.go: states, policies, reasons.
--   Distributed.Scripts     internal/distributed/scripts.go: a module for each Lua script (Create,
--                           Acknowledge, Begin, Commit, Close with settle, Snapshot), over the store
--                           of one campaign (Store). Phase is the specification: the five sets of
--                           ordinals are five phases, and Calls says which moves each script makes.
--   Distributed.Requests    internal/distributed/model.go: campaigns, requests and their checks.
--   Distributed.Answers     internal/distributed/ledger.go: how the reply of a script is read.
--   Distributed.Ledger      the rest of ledger.go: Create, Acknowledge, Begin, Commit, Close, Settle
--                           and Snapshot, each over a link that may lose the reply or never reach
--                           the script (Effects: what they do to the store; Delivery: what Begin
--                           grants; Records: what the calls for one ordinal leave of the others;
--                           Reads: what Snapshot returns).
--   Distributed.Task        internal/distributed/task.go: NewTask and DecodeTask; encoding/json is a
--                           parameter (`Codec`).
--   Distributed.Snapshots   internal/distributed/model.go: Snapshot and its check.
--   Distributed.Worker      internal/distributed/worker.go: processRecord; ProcessTask and HandleError
--                           (Tasks; Isolation: which recipients); what a record's attempt leads to
--                           (Deliveries, Commits). A `Round` is what lies outside one attempt.
--   Distributed.Producer    internal/distributed/producer.go: NewProducer's checks and Enqueue (Ranges,
--                           Tiles: the tasks it makes; Closes: what its close returns).
--   Distributed.Waiting     internal/distributed/producer.go: Wait, waitClosed and settle, over a list
--                           of polls (Ends: what Wait returns; Returns: when).
--   RecipientCsv.Fixture    internal/recipientcsv/fixture.go: the generated source and Generate (Totals:
--                           how many records it gives; Written: what Generate has written); math/rand/v2
--                           and the writer of encoding/csv are parameters.
--   RecipientCsv.Reader     internal/recipientcsv/reader.go: NewReader, Next, parseLine, readLine. Its input
--                           is what ReadSlice answers; encoding/csv is a parameter (Lines, Records:
--                           lines in fragments, and their records; Numbering: Next on any input).
--   TestInbox               internal/testinbox: the configuration (Safety) and what deliver returns
--                           (Deliveries: what the worker commits for it); the mail library's answers are
--                           inputs.
--   Command.LocalFile       runLocalFile of cmd/email-pipeline/run_command.go: the reader, the loop of Run
--                           and the report together (Reports).
--   Command.Generate        cmd/email-pipeline/generate_command.go (Files: what it leaves at its path).
--   Command.Run             runCommand, runLocal and runDistributed of cmd/email-pipeline/run_command.go,
--                           and the sink of cmd/email-pipeline/config.go (Interrupted, Inbox: how runs
--                           over the queue and with the test inbox end).
--   Command.Options         cmd/email-pipeline/config.go: the checks of the options, and the campaign that
--                           runDistributed makes of them (Campaigns).
--   Command.DistributedReport
--                           distributedReport of cmd/email-pipeline/run_command.go (Accepted, Waited,
--                           Refused: which reports are accepted).
--   Command.Web             cmd/email-pipeline/web_input.go (Evaluations) and web_origin.go (Origins): which
--                           forms and which browsers the web console accepts.
--   Command.Controller      cmd/email-pipeline/web_controller.go.
--   Command.Handler         cmd/email-pipeline/web_handler.go, web_response.go, web_view.go: the pages
--                           (Pages), evaluate with its run and report (Evaluation), and the other
--                           handlers and ServeHTTP (Routes). A `Visit` is a request and what lies
--                           outside the handlers while it is served; the templates are a parameter.
--   Command.Server          cmd/email-pipeline/web.go: the web command and the check of a request's Host
--                           (Hosts). Command.Exit is how a command ends.
--   Tests                   the theorems at concrete inputs, with Redis as lists (RedisLists).
--
-- A counter is a 64-bit pattern (Prelude.Int64): a natural number below 2 ^ 64 whose upper half is
-- negative. A text is its list of code points. A round of the loop takes what lies outside it from a
-- `Turn`: the clock, the context, what the channels hold and what the blocking select takes. So a
-- run over any list of rounds covers any order in which workers finish and any moment of
-- cancellation; the loop has no fuel of its own, it goes on as long as rounds are given. Likewise a
-- wait goes over the polls it is given. The loop of Enqueue has fuel for one round more than there are
-- recipients, since a round takes one ordinal at least; the loop over a generated source for one more
-- than its records; and the loop over a file for one more than its fragments, since a line takes one
-- at least. A local run with the test inbox is given what the delivery of each granted recipient came
-- to: Run waits for its workers, so each has returned when the counters are read.
-- The laws of Redis (an instance of `Redis`) are its documentation: membership behind SADD, SREM and
-- SMOVE, and that SCARD and SMEMBERS are those of a set. HINCRBY is an addition without a bound.
-- A member of a set is the ordinal's number. In acknowledgeLua it is Lua's tostring of a number, which
-- is the decimal text of an ordinal below 10 ^ 14 and has an exponent from there on: in the modules of
-- the ledger, a campaign of 10 ^ 14 records or more is not followed as Redis spells it.
--
-- Not modelled: goroutines and channels other than through the rounds, the heap sampler, JSON
-- encoding, a client of Redis that runs a script twice on its own account, and the parts that are not
-- named above (flags and signals, the headers of the web console's responses, SMTP itself, and the queue itself).
pub mod Prelude
pub mod Campaign
pub mod RecipientCsv
pub mod TestInbox
pub mod Distributed
pub mod Command
mod Tests

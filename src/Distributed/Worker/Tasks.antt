-- ===== src/Distributed/Worker/Tasks.antt =====
-- internal/distributed/worker.go: ProcessTask, which takes the records of a task from the generated
-- source, and HandleError.
pub mod Isolation
use personalized_email_pipel.Prelude.{
  ℕ, ◌+◌, Bool, false, not, ◌&&◌, ◌||◌, Option, none, some, ltb, if◌then◌else◌,
}
use personalized_email_pipel.Prelude.Int64.{lt64}
use personalized_email_pipel.Distributed.Answers.{unavailable}
use personalized_email_pipel.Distributed.Ledger.{
  Link, SnapshotResult, no_snapshot, unknown_snapshot, read_snapshot, commit, snapshot,
}
use personalized_email_pipel.Distributed.Model.{AttemptKind, initial, retry}
use personalized_email_pipel.Distributed.Redis.{Redis}
use personalized_email_pipel.Distributed.Requests.{Time}
use personalized_email_pipel.Distributed.Scripts.Store.{Store}
use personalized_email_pipel.Distributed.Task.{Codec, Task, TaskPayload, decode_task}
use personalized_email_pipel.RecipientCsv.Fixture.{
  Random, GeneratedSource, new_generated_source, drain,
}
use personalized_email_pipel.Distributed.Worker.{
  Sha, Round, WorkerError, ledger_failed, record_failed, permanent, payload_matches_snapshot,
  is_test_inbox, is_dry_run, exhausted_commit, process_records,
}

module _ (R : Redis) (H : Sha) (J : Codec) (M : Random) where
  abbrev kind_of : ℕ → AttemptKind
  kind_of retry_count = if ltb 0 retry_count then retry else initial

  source_records :
      Store R
      → TaskPayload
      → ℕ
      → (ℕ → Round)
      → Option (GeneratedSource M)
      → Store R × Option WorkerError
  source_records s p retry_count rounds none = (s, some permanent)
  source_records s p retry_count rounds (some source) =
      process_records R H s p (kind_of retry_count) rounds (drain M (p.count + 1) source).records

  -- The source is drained to the end of the payload's count; the loop stops behind its last ordinal.
  process_payload :
      Store R → TaskPayload → Bool → ℕ → (ℕ → Round) → SnapshotResult → Store R × Option WorkerError
  process_payload s p has_deliver retry_count rounds (no_snapshot e) = (s, some (ledger_failed e))
  process_payload s p has_deliver retry_count rounds (unknown_snapshot id) =
      (s, some (ledger_failed unavailable))
  process_payload s p has_deliver retry_count rounds (read_snapshot snap (some e)) =
      (s, some (ledger_failed e))
  process_payload s p has_deliver retry_count rounds (read_snapshot snap none) =
      if not (payload_matches_snapshot p snap) || is_test_inbox p.sink && not has_deliver
      then (s, some permanent)
      else source_records s p retry_count rounds (
          new_generated_source M
            (record { algorithm = p.algorithm; seed = p.seed; count = p.count }))

  process_decoded :
      Store R → Option TaskPayload → Link → Bool → ℕ → (ℕ → Round) → Store R × Option WorkerError
  process_decoded s none link has_deliver retry_count rounds = (s, some permanent)
  process_decoded s (some p) link has_deliver retry_count rounds =
      process_payload s p has_deliver retry_count rounds (snapshot R link s p.campaign_id)

  -- ProcessTask: the link is that of its snapshot, `has_deliver` tells whether there is a delivery
  -- function, and the count of retries is asynq's, 0 if there is none.
  unfoldable pub process_task :
      Store R → Task J → Link → Bool → ℕ → (ℕ → Round) → Store R × Option WorkerError
  unfolding process_decoded process_payload source_records
  process_task s task link has_deliver retry_count rounds =
      process_decoded s (decode_task J task) link has_deliver retry_count rounds

  -- HandleError: the commit of a record whose last attempt has failed. The counts are asynq's, if it
  -- knows them.
  abbrev is_last : Option ℕ → Option ℕ → Bool
  is_last (some retry_count) (some max_retry) = not (ltb retry_count max_retry)
  is_last _ _ = false

  handle_payload : Store R → Option TaskPayload → ℕ → Link → Time → Store R
  handle_payload s none ordinal link now = s
  handle_payload s (some p) ordinal link now =
      if not (is_dry_run p.sink) || lt64 ordinal p.first || lt64 p.last ordinal
      then s
      else (commit R link s p.campaign_id (exhausted_commit ordinal now)).0

  unfoldable pub handle_error :
      Store R → Task J → WorkerError → Option ℕ → Option ℕ → Link → Time → Store R
  unfolding handle_payload
  handle_error s task permanent retry_count max_retry link now = s
  handle_error s task (ledger_failed e) retry_count max_retry link now = s
  handle_error s task (record_failed ordinal e) retry_count max_retry link now =
      if is_last retry_count max_retry
      then handle_payload s (decode_task J task) ordinal link now
      else s

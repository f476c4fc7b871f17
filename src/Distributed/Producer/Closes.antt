-- ===== src/Distributed/Producer/Closes.antt =====
-- internal/distributed/producer.go: what close returns.
use personalized_email_pipel.Prelude.{◌≡◌, refl, true, Option, none, some, ◌⊎◌, inl, inr}
use personalized_email_pipel.Campaign.Model.{Text}
use personalized_email_pipel.Distributed.Answers.{LedgerError}
use personalized_email_pipel.Distributed.Ledger.Checked.{IsChecked, snapshot-IsChecked}
use personalized_email_pipel.Distributed.Ledger.Effects.{perform_all}
use personalized_email_pipel.Distributed.Ledger.{
  SnapshotResult, no_snapshot, unknown_snapshot, read_snapshot, good,
}
use personalized_email_pipel.Distributed.Model.{FailureReason}
use personalized_email_pipel.Distributed.Producer.{
  ProducerConfig, ProducerResult, ProducerError, unknown_state, CloseRound, Produced,
  close_campaign, closed_store, closed_snapshot,
}
use personalized_email_pipel.Distributed.Redis.{Redis}
use personalized_email_pipel.Distributed.Scripts.Store.{Store}
use personalized_email_pipel.Distributed.Snapshots.{valid_snapshot}

module _ (R : Redis) where
  -- The state is unknown, or a checked snapshot is returned with the error that was asked for.
  abbrev pub IsReadable : Option ProducerError → Produced R → Type 0
  IsReadable err p =
      (p.error ≡ some unknown_state) ⊎ ((p.error ≡ err) × (valid_snapshot p.result.snapshot ≡ true))

  closed_snapshot-IsReadable :
      (s : Store R) (r : ProducerResult) (err : Option ProducerError) (x : SnapshotResult)
      → IsChecked (good x)
      → IsReadable err (closed_snapshot R s r err x)
  unfolding closed_snapshot
  closed_snapshot-IsReadable s r err (read_snapshot snap none) v = inr (refl, v)
  closed_snapshot-IsReadable s r err (read_snapshot snap (some e)) v = inl refl
  closed_snapshot-IsReadable s r err (no_snapshot e) v = inl refl
  closed_snapshot-IsReadable s r err (unknown_snapshot id) v = inl refl

  closed_store-IsReadable :
      (id : Text) (b : Store R × Option LedgerError) (r : ProducerResult)
      (err : Option ProducerError) (t : CloseRound)
      → IsReadable err (closed_store R id b r err t)
  unfolding closed_store
  closed_store-IsReadable id (s, some e) r err t = inl refl
  closed_store-IsReadable id (s, none) r err t =
      closed_snapshot-IsReadable (perform_all R s t.close_others) r err _
        (snapshot-IsChecked R t.close_snapshot (perform_all R s t.close_others) id)

  pub close_campaign-IsReadable :
      (c : ProducerConfig) (s : Store R) (r : ProducerResult) (x : FailureReason)
      (err : Option ProducerError) (t : CloseRound)
      → IsReadable err (close_campaign R c s r x err t)
  unfolding close_campaign
  close_campaign-IsReadable c s r x err t = closed_store-IsReadable c.campaign.id _ r err t

-- ===== src/Distributed/Ledger/Checked.antt =====
-- internal/distributed/ledger.go: the check of a snapshot that is returned.
use personalized_email_pipel.Prelude.{◌≡◌, true, Option, none, some, Bool-cases, inl, inr}
use personalized_email_pipel.Campaign.Model.{Text}
use personalized_email_pipel.Distributed.Ledger.{
  Link, answered, reply_lost, unreachable, good, snapshot, snapshot_over, snapshot_result,
  checked_snapshot, decode_snapshot,
}
use personalized_email_pipel.Distributed.Redis.{Redis}
use personalized_email_pipel.Distributed.Requests.{valid_id, ledger_version}
use personalized_email_pipel.Distributed.Scripts.Snapshot.{
  SnapshotReply, no_campaign, inconsistent, values, snapshot_script,
}
use personalized_email_pipel.Distributed.Scripts.Store.{Store}
use personalized_email_pipel.Distributed.Snapshots.{Snapshot, valid_snapshot}

-- A snapshot, if there is one, passes its check.
abbrev pub IsChecked : Option Snapshot → Type 0
IsChecked none = Unit {0}
IsChecked (some s) = valid_snapshot s ≡ true

checked_snapshot-IsChecked : (o : Option Snapshot) → IsChecked (good (checked_snapshot o))
unfolding checked_snapshot
checked_snapshot-IsChecked none = tt
checked_snapshot-IsChecked (some s) = elim (Bool-cases (valid_snapshot s)) [
  | inl e ↦ rw e e
  | inr e ↦ rw e tt
]

snapshot_result-IsChecked :
    (id : Text) (r : SnapshotReply) → IsChecked (good (snapshot_result id r))
unfolding snapshot_result
snapshot_result-IsChecked id no_campaign = tt
snapshot_result-IsChecked id inconsistent = tt
snapshot_result-IsChecked id (values v) = checked_snapshot-IsChecked (decode_snapshot id v)

snapshot_over-IsChecked :
    (R : Redis) (link : Link) (s : Store R) (id : Text)
    → IsChecked (good (snapshot_over R link s id))
unfolding snapshot_over
snapshot_over-IsChecked R answered s id =
    snapshot_result-IsChecked id (snapshot_script R s ledger_version)
snapshot_over-IsChecked R reply_lost s id = tt
snapshot_over-IsChecked R unreachable s id = tt

pub snapshot-IsChecked :
    (R : Redis) (link : Link) (s : Store R) (id : Text) → IsChecked (good (snapshot R link s id))
unfolding snapshot
snapshot-IsChecked R link s id = elim (Bool-cases (valid_id id)) [
  | inl e ↦ rw e (snapshot_over-IsChecked R link s id)
  | inr e ↦ rw e tt
]

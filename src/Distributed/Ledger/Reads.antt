-- ===== src/Distributed/Ledger/Reads.antt =====
-- internal/distributed/ledger.go: what Snapshot returns of a store that the operations have left.
use personalized_email_pipel.Prelude.{
  ℕ, ◌+◌, ◌≤◌, ◌<◌, ◌≡◌, refl, true, false, List, Option, none, some, arith, ltb, ap, sym, ◌∙◌,
}
use personalized_email_pipel.Prelude.Int64.{sign_bit, modulus, is_negative, lt64}
use personalized_email_pipel.Campaign.Model.{Text}
use personalized_email_pipel.Distributed.Ledger.Effects.{Operation, perform_all, perform_all-run}
use personalized_email_pipel.Distributed.Ledger.{
  Link, answered, snapshot, snapshot_over, snapshot_result, checked_snapshot, read_snapshot,
  decode_snapshot, parse_int,
}
use personalized_email_pipel.Distributed.Snapshots.{
  Snapshot, trust_full, valid_snapshot, known_enqueued,
}
use personalized_email_pipel.Distributed.Redis.{Redis}
use personalized_email_pipel.Distributed.Requests.{valid_id, ledger_version}
use personalized_email_pipel.Distributed.Scripts.Invariant.{
  IsWellFormed, IsWithinLimit, run-IsWellFormed, empty_store-IsWellFormed, total_of,
}
use personalized_email_pipel.Distributed.Scripts.Snapshot.Trust.{
  snapshot_of_IsWellFormed, card_sum-le,
}
use personalized_email_pipel.Distributed.Scripts.Snapshot.{
  Values, values_of, card_sum, snapshot_script,
}
use personalized_email_pipel.Distributed.Scripts.Store.{Meta, Store, empty_store}

-- Every number that the script returns is an int64, and the seed a uint64.
pub record IsInRange (v : Values) : Type 0 where
  pub seed_range : v.seed < modulus
  pub total_range : v.total < sign_bit
  pub created_range : v.created_ms < sign_bit
  pub deadline_range : v.deadline_ms < sign_bit
  pub attempts_range : v.attempts < sign_bit
  pub retries_range : v.retries < sign_bit
  pub duplicates_range : v.duplicates < sign_bit
  pub work_range : v.work_nanos < sign_bit
  pub updated_range : v.updated_ms < sign_bit
  pub limit_range : v.delivery_limit < sign_bit
  pub rejected_range : v.rejected < sign_bit
  pub indeterminate_range : v.indeterminate < sign_bit
  pub transport_range : v.transport < sign_bit

-- The five sets, as the script counts them.
abbrev counted : Values → ℕ
counted v = v.acknowledged + v.started + v.completed + v.failed + v.unprocessed

-- The numbers of the script, as they are.
abbrev pub snapshot_of : Text → Values → Snapshot
snapshot_of id v = record {
  campaign_id = id;
  state = v.state;
  trust = trust_full;
  algorithm = v.algorithm;
  seed = v.seed;
  total = v.total;
  acknowledged = v.acknowledged;
  started = v.started;
  completed = v.completed;
  failed = v.failed;
  unprocessed = v.unprocessed;
  attempts = v.attempts;
  retries = v.retries;
  duplicates = v.duplicates;
  work = v.work_nanos;
  created = v.created_ms;
  deadline = v.deadline_ms;
  updated = v.updated_ms;
  policy = v.policy;
  delivery_limit = v.delivery_limit;
  delivery_reserved = v.delivery_reserved;
  delivery_rejected = v.rejected;
  delivery_unknown = v.indeterminate;
  delivery_transport = v.transport;
}

parsed : (n : ℕ) → n < sign_bit → parse_int n ≡ n
parsed n h = ground arith

decoded :
    (id : Text) (v : Values)
    → IsInRange v
    → counted v ≤ v.total
    → v.delivery_reserved ≤ v.delivery_limit
    → decode_snapshot id v ≡ some (snapshot_of id v)
unfolding decode_snapshot
decoded id v r c d =
    rw
      (
        seed_fits,
        parsed v.total r.total_range,
        parsed v.acknowledged (omega (arith, c, r.total_range)),
        parsed v.started (omega (arith, c, r.total_range)),
        parsed v.completed (omega (arith, c, r.total_range)),
        parsed v.failed (omega (arith, c, r.total_range)),
        parsed v.unprocessed (omega (arith, c, r.total_range)),
        parsed v.attempts r.attempts_range,
        parsed v.retries r.retries_range,
        parsed v.duplicates r.duplicates_range,
        parsed v.work_nanos r.work_range,
        parsed v.created_ms r.created_range,
        parsed v.deadline_ms r.deadline_range,
        parsed v.updated_ms r.updated_range,
        parsed v.delivery_limit r.limit_range,
        parsed v.delivery_reserved (omega (arith, d, r.limit_range)),
        parsed v.rejected r.rejected_range,
        parsed v.indeterminate r.indeterminate_range,
        parsed v.transport r.transport_range,
      )
      refl
  where
    seed_fits : ltb v.seed modulus ≡ true
    seed_fits = ground (arith, r.seed_range)

known_enqueued_exact :
    (id : Text) (v : Values)
    → IsInRange v
    → counted v ≤ v.total
    → known_enqueued (snapshot_of id v) ≡ counted v
known_enqueued_exact id v r c = omega (arith, r.total_range)

not_negative : (n : ℕ) → n < sign_bit → is_negative n ≡ false
not_negative n h = ground arith

not_less : (a b : ℕ) → a < sign_bit → b ≤ a → lt64 a b ≡ false
not_less a b h k = ground arith

snapshot_of_valid :
    (id : Text) (v : Values)
    → valid_id id ≡ true
    → IsInRange v
    → counted v ≤ v.total
    → v.delivery_reserved ≤ v.delivery_limit
    → valid_snapshot (snapshot_of id v) ≡ true
unfolding valid_snapshot
snapshot_of_valid id v i r c d =
    rw
      (
        i,
        not_negative v.total r.total_range,
        not_negative v.acknowledged (omega (arith, c, r.total_range)),
        not_negative v.started (omega (arith, c, r.total_range)),
        not_negative v.completed (omega (arith, c, r.total_range)),
        not_negative v.failed (omega (arith, c, r.total_range)),
        not_negative v.unprocessed (omega (arith, c, r.total_range)),
        not_negative v.attempts r.attempts_range,
        not_negative v.retries r.retries_range,
        not_negative v.duplicates r.duplicates_range,
        not_negative v.delivery_limit r.limit_range,
        not_negative v.delivery_reserved (omega (arith, d, r.limit_range)),
        not_less v.delivery_limit v.delivery_reserved r.limit_range d,
        not_negative v.rejected r.rejected_range,
        not_negative v.indeterminate r.indeterminate_range,
        not_negative v.transport r.transport_range,
        not_negative v.work_nanos r.work_range,
        known_enqueued_exact id v r c,
        not_less v.total (counted v) r.total_range c,
      )
      refl

within_limit_of :
    (m : Meta) (mo : Option Meta)
    → mo ≡ some m
    → IsWithinLimit mo
    → m.delivery_reserved ≤ m.delivery_limit
within_limit_of m mo e w = rw e at w

snapshot_of_store :
    (R : Redis) (s : Store R) (m : Meta) (id : Text)
    → IsWellFormed R s
    → s.meta ≡ some m
    → m.version ≡ ledger_version
    → valid_id id ≡ true
    → IsInRange (values_of R s m)
    → (snapshot R answered s id ≡ read_snapshot (snapshot_of id (values_of R s m)) none)
      × (known_enqueued (snapshot_of id (values_of R s m)) ≡ card_sum R s)
      × (card_sum R s ≤ m.total)
unfolding snapshot snapshot_over snapshot_result checked_snapshot
snapshot_of_store R s m id w e ver i r =
    let v = values_of R s m in
    let c = rw (ap total_of e) at (card_sum-le R s w) in
    let d = within_limit_of m s.meta e w.within_limit in
    (
      rw
          (
            i,
            sym (ap (snapshot_script R s) ver) ∙ snapshot_of_IsWellFormed R s w m e,
            decoded id v r c d,
            snapshot_of_valid id v i r c d,
          )
          refl,
      known_enqueued_exact id v r c,
      c,
    )

-- After any operations of the ledger on an empty store, with replies lost and scripts that are
-- never reached, a Snapshot that is answered, of a campaign of this version whose numbers are in
-- range, returns the numbers of the ledger and no error: the snapshot passes its own check, and
-- what it counts as enqueued is the sizes of the five sets, no more than the total.
pub snapshot-perform_all :
    (R : Redis) (os : List (Link × Operation)) (m : Meta) (id : Text)
    → let s = perform_all R (empty_store R) os in
      let v = values_of R s m in
      s.meta ≡ some m
      → m.version ≡ ledger_version
      → valid_id id ≡ true
      → IsInRange v
      → (snapshot R answered s id ≡ read_snapshot (snapshot_of id v) none)
        × (known_enqueued (snapshot_of id v) ≡ card_sum R s)
        × (card_sum R s ≤ m.total)
snapshot-perform_all R os m id e ver i r =
    let s = perform_all R (empty_store R) os in
    let (cs, f) = perform_all-run R (empty_store R) os in
    let w : IsWellFormed R s =
      rw f (run-IsWellFormed R (empty_store R) cs (empty_store-IsWellFormed R)) in
    snapshot_of_store R s m id w e ver i r

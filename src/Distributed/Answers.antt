-- ===== src/Distributed/Answers.antt =====
-- internal/distributed/ledger.go: how each operation reads the reply of its script.
use personalized_email_pipel.Prelude.{
  ℕ, zero, suc, ◌||◌, [], ◌∷◌, Option, none, some, ◌⊎◌, inl, inr, ◌==◌, if◌then◌else◌, length,
}
use personalized_email_pipel.Campaign.Model.{Text}
use personalized_email_pipel.Distributed.Model.{Terminal, completes, fails}
use personalized_email_pipel.Distributed.Requests.{
  CommitRequest, StateName, terminal_completed, terminal_failed, ReasonName, no_reason, reason,
  valid_digest,
}
use personalized_email_pipel.Distributed.Scripts.Store.{Reply}

pub data LedgerError : Type 0 where
  invalid_request not_found already_exists ledger_closed not_due unavailable broken : LedgerError

pub data BeginResult : Type 0 where
  granted retry_granted inert_completed inert_failed begin_unprocessed : BeginResult
  not_acknowledged expired reserved limit_exceeded : BeginResult

pub record Transition : Type 0 where
  pub result : BeginResult
  pub ordinal : ℕ
  pub attempts : ℕ
  pub retries : ℕ
  pub duplicates : ℕ

-- -1, which a value that is missing is read as.
abbrev pub minus_one : ℕ
minus_one = 18446744073709551615

-- integer, on the integers of a reply.
abbrev pub integer : Reply → ℕ → ℕ
integer [] index = minus_one
integer (v ∷ vs) zero = v
integer (v ∷ vs) (suc index) = integer vs index

abbrev pub reply_code : Reply → ℕ
reply_code values = integer values 0

-- mapBeginResult.
abbrev pub map_begin_result : ℕ → Option BeginResult
map_begin_result value =
    if value == 0
    then some granted
    else if value == 1
    then some retry_granted
    else if value == 2
    then some inert_completed
    else if value == 3
    then some inert_failed
    else if value == 4
    then some begin_unprocessed
    else if value == 5
    then some not_acknowledged
    else if value == 6
    then some expired
    else if value == 7
    then some reserved
    else if value == 8
    then some limit_exceeded
    else none

-- The errors that each operation makes of the reply.
unfoldable pub create_error : Reply → Option LedgerError
create_error values = if reply_code values == 1 then some already_exists else none

unfoldable pub acknowledge_error : Reply → Option LedgerError
acknowledge_error values =
    if reply_code values == 0
    then none
    else if reply_code values == 1
    then some not_found
    else if reply_code values == 2
    then some ledger_closed
    else some invalid_request

unfoldable pub begin_answer : ℕ → Reply → Option BeginResult → LedgerError ⊎ Transition
begin_answer ordinal values none =
    if reply_code values == 9 then inl not_found else inl invalid_request
begin_answer ordinal values (some result) = inr (record {
  result = result;
  ordinal = ordinal;
  attempts = integer values 1;
  retries = integer values 2;
  duplicates = integer values 3;
})

unfoldable pub commit_error : Reply → Option LedgerError
commit_error values =
    if reply_code values == 0 || reply_code values == 1
    then none
    else if reply_code values == 2
    then some invalid_request
    else if reply_code values == 3
    then some not_found
    else some invalid_request

unfoldable pub close_error : Reply → Option LedgerError
close_error values = if reply_code values == 2 then some not_found else none

unfoldable pub settle_error : Reply → Option LedgerError
settle_error values =
    if reply_code values == 0 || reply_code values == 2
    then none
    else if reply_code values == 1
    then some not_due
    else if reply_code values == 3
    then some ledger_closed
    else if reply_code values == 4
    then some not_found
    else some broken

-- The checks on the words of a request: what goes on to the script, if anything does.
abbrev pub terminal_of : CommitRequest → Option Terminal
terminal_of r = terminal_from r.state r.reason_name r.digest
  where
    terminal_from : StateName → ReasonName → Text → Option Terminal
    terminal_from terminal_completed no_reason digest =
        if valid_digest digest then some (completes digest) else none
    terminal_from terminal_failed (reason x) digest =
        if length digest == 0 then some (fails x) else none
    terminal_from _ _ digest = none

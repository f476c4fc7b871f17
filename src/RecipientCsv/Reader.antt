-- ===== src/RecipientCsv/Reader.antt =====
-- internal/recipientcsv/reader.go: the reader of recipient files. A line is a list of bytes; the input
-- is what bufio's ReadSlice('\n') answers, call by call, and goes on with io.EOF behind the last.
-- The check of UTF-8 and the reader of encoding/csv are parameters; fields are texts of code points.
pub mod Lines
pub mod Records
pub mod Numbering
use personalized_email_pipel.Prelude.{
  ℕ, zero, suc, ◌+◌, Bool, true, false, not, ◌&&◌, ◌||◌, List, [], ◌∷◌, ◌++◌, Option, none, some,
  ◌⊎◌, inl, inr, ltb, ◌==◌, ◌≡◌, if◌then◌else◌, length,
}
use personalized_email_pipel.Prelude.Int64.{inc64}
use personalized_email_pipel.Campaign.Model.{
  Text, Reason, blank_record, invalid_utf8, field_count, invalid_csv, oversized_record,
  missing_email,
}
use personalized_email_pipel.Campaign.Text.{codes, text_eq, trim_space, last_or}
use personalized_email_pipel.RecipientCsv.Fixture.{Record}

abbrev pub Bytes : Type 0
Bytes = List ℕ

abbrev pub max_record_bytes : ℕ
max_record_bytes = 1048576

-- The fragment and the error of a ReadSlice: nil, bufio.ErrBufferFull, io.EOF, or another.
pub data SliceError : Type 0 where
  no_error buffer_full at_eof other_failure : SliceError

pub record Slice : Type 0 where
  pub fragment : Bytes
  pub error : SliceError

-- What a first Read of a csv.Reader with FieldsPerRecord = 2 returns: the fields, and whether a second
-- one returns io.EOF; ErrFieldCount; or another error.
pub data CsvAnswer : Type 0 where
  csv_row : List Text → Bool → CsvAnswer
  wrong_field_count csv_failed : CsvAnswer

pub record Csv : Type 0 where
  pub valid_utf8 : Bytes → Bool
  pub read_row : Bytes → CsvAnswer
  pub length-read_row :
      (line : Bytes) (fields : List Text) (ended : Bool)
      → read_row line ≡ csv_row fields ended
      → length fields ≡ 2

-- s[:len(s)-1], and the same if the last byte is '\r'.
abbrev pub without_last : Bytes → Bytes
without_last [] = []
without_last (c ∷ []) = []
without_last (c ∷ d ∷ ds) = c ∷ without_last (d ∷ ds)

unfoldable pub without_return : Bytes → Bytes
without_return p = if last_or 0 p == b'\r' then without_last p else p

unfoldable pub payload_of : Bytes → Bytes
payload_of fragment =
    if last_or 0 fragment == b'\n' then without_return (without_last fragment) else fragment

-- The variables of readLine's loop.
pub record LineState : Type 0 where
  pub line : Bytes
  pub oversized : Bool
  pub read_any : Bool

unfoldable pub add_payload : LineState → Bytes → LineState
add_payload s p =
    if s.oversized
    then s
    else if ltb max_record_bytes (length s.line + length p)
    then record s { oversized = true; line = [] }
    else record s { line = s.line ++ p }

unfoldable pub add_fragment : LineState → Bytes → LineState
add_fragment s [] = s
add_fragment s (c ∷ cs) = add_payload (record s { read_any = true }) (payload_of (c ∷ cs))

-- A line and whether it was oversized, the end of the input, or an error.
pub data LineAnswer : Type 0 where
  line_read : Bytes → Bool → LineAnswer
  line_end line_failed : LineAnswer

abbrev end_answer : LineState → LineAnswer
end_answer s = if s.read_any then line_read s.line s.oversized else line_end

-- The switch behind a fragment: `more` is the rest of the loop.
abbrev after_slice :
    LineState → SliceError → List Slice → LineAnswer × List Slice → LineAnswer × List Slice
after_slice s no_error rest more = (line_read s.line s.oversized, rest)
after_slice s buffer_full rest more = more
after_slice s at_eof rest more = (end_answer s, rest)
after_slice s other_failure rest more = (line_failed, rest)

unfoldable pub read_line_from : LineState → List Slice → LineAnswer × List Slice
read_line_from s [] = (end_answer s, [])
read_line_from s (t ∷ ts) =
    let s' = add_fragment s t.fragment in
    let more = read_line_from s' ts in after_slice s' t.error ts more

-- readLine.
abbrev pub read_line : List Slice → LineAnswer × List Slice
read_line = read_line_from (record { line = []; oversized = false; read_any = false })

-- bytes.HasPrefix and bytes.TrimPrefix.
unfoldable pub has_prefix : Bytes → Bytes → Bool
has_prefix [] s = true
has_prefix (c ∷ cs) [] = false
has_prefix (c ∷ cs) (d ∷ ds) = let rest = has_prefix cs ds in c == d && rest

abbrev drop : ℕ → Bytes → Bytes
drop zero s = s
drop (suc n) [] = []
drop (suc n) (c ∷ cs) = drop n cs

abbrev pub trim_prefix : Bytes → Bytes → Bytes
trim_prefix s prefix = if has_prefix prefix s then drop (length prefix) s else s

abbrev pub byte_order_mark : Bytes
byte_order_mark = 0xef ∷ 0xbb ∷ 0xbf ∷ []

abbrev is_empty : List ℕ → Bool
is_empty [] = true
is_empty (c ∷ cs) = false

pub record Reader : Type 0 where
  pub ordinal : ℕ
  pub input : List Slice

-- What Next returns: ErrFatalInput, the end, a record, or a panic of fields[1].
pub data NextAnswer : Type 0 where
  next_failed next_end next_panics : NextAnswer
  next_record : Record → NextAnswer

abbrev refused : ℕ → Reason → Record
refused ordinal reason = record { ordinal = ordinal; email = []; name = []; reason = some reason }

abbrev fields_record : ℕ → Text → Text → Record
fields_record ordinal email name =
    if is_empty (trim_space email)
    then refused ordinal missing_email
    else record { ordinal = ordinal; email = email; name = name; reason = none }

module _ (C : Csv) where
  -- parseLine: the fields, or a reason.
  parsed_row : CsvAnswer → List Text ⊎ Reason
  parsed_row (csv_row fields true) = inl fields
  parsed_row (csv_row fields false) = inr invalid_csv
  parsed_row wrong_field_count = inr field_count
  parsed_row csv_failed = inr invalid_csv

  unfoldable pub parse_line : Bytes → List Text ⊎ Reason
  unfolding parsed_row
  parse_line line =
      if is_empty line
      then inr blank_record
      else if not (C.valid_utf8 line) || has_prefix byte_order_mark line
      then inr invalid_utf8
      else parsed_row (C.read_row line)

  record_of_parsed : ℕ → List Text ⊎ Reason → NextAnswer
  record_of_parsed ordinal (inr reason) = next_record (refused ordinal reason)
  record_of_parsed ordinal (inl (email ∷ name ∷ rest)) =
      next_record (fields_record ordinal email name)
  record_of_parsed ordinal (inl fields) = next_panics

  next_line : ℕ → LineAnswer × List Slice → Reader × NextAnswer
  next_line ordinal (line_failed, rest) = (record { ordinal = ordinal; input = rest }, next_failed)
  next_line ordinal (line_end, rest) = (record { ordinal = ordinal; input = rest }, next_end)
  next_line ordinal (line_read line true, rest) = (
    record { ordinal = inc64 ordinal; input = rest },
    next_record (refused (inc64 ordinal) oversized_record),
  )
  next_line ordinal (line_read line false, rest) = (
    record { ordinal = inc64 ordinal; input = rest },
    record_of_parsed (inc64 ordinal) (parse_line line),
  )

  -- Reader.Next.
  unfoldable pub next_of : Reader → Reader × NextAnswer
  unfolding next_line record_of_parsed
  next_of r = next_line r.ordinal (read_line r.input)

  -- The calls of Next up to the first that gives no record, `fuel` of them at most; `stopped` is what
  -- that call returned.
  pub record ReadAll : Type 0 where
    pub records : List Record
    pub stopped : Option NextAnswer
    pub reader : Reader

  abbrev add_record : NextAnswer → Reader → ReadAll → ReadAll
  add_record (next_record r) reader rest = record rest { records = r ∷ rest.records }
  add_record answer reader rest = record { records = []; stopped = some answer; reader = reader }

  unfoldable pub read_all : ℕ → Reader → ReadAll
  read_all zero r = record { records = []; stopped = none; reader = r }
  read_all (suc fuel) r =
      let (r', answer) = next_of r in let rest = read_all fuel r' in add_record answer r' rest

  -- NewReader.
  abbrev is_header : List Text ⊎ Reason → Bool
  is_header (inl (a ∷ b ∷ [])) = text_eq a (codes "email") && text_eq b (codes "name")
  is_header _ = false

  header_line : LineAnswer × List Slice → Option Reader
  header_line (line_read header false, rest) =
      if is_header (parse_line (trim_prefix header byte_order_mark))
      then some (record { ordinal = 0; input = rest })
      else none
  header_line _ = none

  unfoldable pub new_reader : List Slice → Option Reader
  unfolding header_line
  new_reader input = header_line (read_line input)

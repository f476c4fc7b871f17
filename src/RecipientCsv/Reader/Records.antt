-- ===== src/RecipientCsv/Reader/Records.antt =====
-- internal/recipientcsv/reader.go: which records a file gives.
use personalized_email_pipel.Prelude.{
  ℕ, suc, ◌+◌, ◌<◌, ◌≡◌, refl, ap, subst, Bool, true, false, not, ◌||◌, List, [], ◌∷◌, none, some,
  ◌⊎◌, inl, inr, if◌then◌else◌, length, All, arith, Bool-cases,
}
use personalized_email_pipel.Prelude.Int64.{sign_bit, inc64, inc64_exact}
use personalized_email_pipel.Campaign.Model.{
  Text, Reason, oversized_record, missing_email, blank_record, invalid_utf8,
}
use personalized_email_pipel.Campaign.Text.{trim_space}
use personalized_email_pipel.RecipientCsv.Fixture.{Record}
use personalized_email_pipel.RecipientCsv.Reader.Lines.{
  Chopped, IsChopped, slices_from, last_slice, slices_of, bytes_of, is_oversized, line_of,
  read_line-Chopped,
}
use personalized_email_pipel.RecipientCsv.Reader.{
  Bytes, Slice, CsvAnswer, csv_row, wrong_field_count, csv_failed, Csv, Reader, next_end,
  next_record, refused, is_empty, has_prefix, byte_order_mark, parsed_row, parse_line,
  record_of_parsed, next_line, next_of, read_all, read_line_from,
}

passed :
    (b : Bool) (x : Reason) (y : List Text ⊎ Reason) (fields : List Text)
    → (if b then inr x else y) ≡ inl fields
    → y ≡ inl fields
passed true x y fields h = ground arith
passed false x y fields h = h

module _ (C : Csv) where
  -- The record of a line, the line's number being its ordinal: an oversized line, one that is not
  -- parsed, and one with a blank address are refused with the reason; all else is kept.
  pub data Gives : ℕ → Bytes → Record → Type 0 where
    too_long :
        {o : ℕ} {line : Bytes}
        → is_oversized line ≡ true
        → Gives o line (refused o oversized_record)
    not_parsed :
        {o : ℕ} {line : Bytes} (x : Reason)
        → is_oversized line ≡ false
        → parse_line C line ≡ inr x
        → Gives o line (refused o x)
    no_address :
        {o : ℕ} {line : Bytes} (email name : Text)
        → is_oversized line ≡ false
        → parse_line C line ≡ inl (email ∷ name ∷ [])
        → is_empty (trim_space email) ≡ true
        → Gives o line (refused o missing_email)
    kept :
        {o : ℕ} {line : Bytes} (email name : Text)
        → is_oversized line ≡ false
        → parse_line C line ≡ inl (email ∷ name ∷ [])
        → is_empty (trim_space email) ≡ false
        → Gives o line (record { ordinal = o; email = email; name = name; reason = none })

  -- A record for each line, with the ordinals from `o` on.
  abbrev pub Lists : ℕ → List Chopped → List Record → Type 0
  Lists o [] [] = Unit {0}
  Lists o [] (r ∷ rs) = ⊥
  Lists o (c ∷ cs) [] = ⊥
  Lists o (c ∷ cs) (r ∷ rs) = Gives o (bytes_of c) r × Lists (o + 1) cs rs

  -- A parsed line has two fields.
  parsed_row_pair :
      (a : CsvAnswer) (fields : List Text)
      → ((fs : List Text) (e : Bool) → a ≡ csv_row fs e → length fs ≡ 2)
      → parsed_row C a ≡ inl fields
      → length fields ≡ 2
  unfolding parsed_row
  parsed_row_pair (csv_row fs true) fields h e =
      let q : fs ≡ fields = cc in subst (λ x. length x ≡ 2) q (h fs true refl)
  parsed_row_pair (csv_row fs false) fields h e = ground arith
  parsed_row_pair wrong_field_count fields h e = ground arith
  parsed_row_pair csv_failed fields h e = ground arith

  pub parse_line_pair :
      (line : Bytes) (fields : List Text) → parse_line C line ≡ inl fields → length fields ≡ 2
  unfolding parse_line
  parse_line_pair line fields e =
      parsed_row_pair (C.read_row line) fields (λ fs b. C.length-read_row line fs b)
        (passed (not (C.valid_utf8 line) || has_prefix byte_order_mark line) invalid_utf8 _ fields
          (passed (is_empty line) blank_record _ fields e))

  -- What Next returns for a line that is read.
  parsed-Gives :
      (o : ℕ) (line : Bytes) (p : List Text ⊎ Reason)
      → is_oversized line ≡ false
      → parse_line C line ≡ p
      → ((fields : List Text) → p ≡ inl fields → length fields ≡ 2)
      → (r : Record) × (record_of_parsed C o p ≡ next_record r) × Gives o line r
  unfolding record_of_parsed
  parsed-Gives o line (inr x) h e two = (refused o x, refl, not_parsed x h e)
  parsed-Gives o line (inl []) h e two = let q = two [] refl in ground arith
  parsed-Gives o line (inl (a ∷ [])) h e two = let q = two (a ∷ []) refl in ground arith
  parsed-Gives o line (inl (a ∷ b ∷ [])) h e two = elim (Bool-cases (is_empty (trim_space a))) [
    | inl q ↦ (refused o missing_email, rw q refl, no_address a b h e q)
    | inr q ↦
        (record { ordinal = o; email = a; name = b; reason = none }, rw q refl, kept a b h e q)
  ]
  parsed-Gives o line (inl (a ∷ b ∷ c ∷ cs)) h e two =
      let q = two (a ∷ b ∷ c ∷ cs) refl in ground arith

  abbrev after : ℕ → List Slice → Reader
  after o rest = record { ordinal = inc64 o; input = rest }

  next_line-Gives :
      (o : ℕ) (line : Bytes) (rest : List Slice)
      → (r : Record) × (next_line C o (line_of line, rest) ≡ (after o rest, next_record r))
        × Gives (inc64 o) line r
  unfolding next_line
  next_line-Gives o line rest = elim (Bool-cases (is_oversized line)) [
    | inl e ↦ (refused (inc64 o) oversized_record, rw e refl, too_long e)
    | inr e ↦
        let (r, q, g) =
          parsed-Gives (inc64 o) line (parse_line C line) e refl (parse_line_pair line) in
        (r, rw e (ap (λ x. (after o rest, x)) q), g)
  ]

  next_of-Gives :
      (o : ℕ) (c : Chopped) (rest : List Slice)
      → IsChopped c
      → (r : Record) × (next_of C
            (record { ordinal = o; input = slices_from c.full (last_slice c) rest })
          ≡ (after o rest, next_record r))
        × Gives (inc64 o) (bytes_of c) r
  unfolding next_of
  next_of-Gives o c rest h = rw (read_line-Chopped c rest h) (next_line-Gives o (bytes_of c) rest)

  at_end_next :
      (o : ℕ)
      → next_of C (record { ordinal = o; input = [] })
        ≡ (record { ordinal = o; input = [] }, next_end)
  unfolding next_of next_line read_line_from
  at_end_next o = refl

  -- What a reader of `n` calls makes of the lines.
  abbrev IsRead : ℕ → List Chopped → ℕ → Type 0
  IsRead o cs n =
      let d = read_all C n (record { ordinal = o; input = slices_of cs }) in
      (d.stopped ≡ some next_end) × Lists (o + 1) cs d.records × (d.reader.ordinal ≡ o + length cs)

  lines-IsRead :
      (cs : List Chopped) (o : ℕ)
      → All IsChopped cs
      → o + length cs < sign_bit
      → IsRead o cs (suc (length cs))
  unfolding read_all
  lines-IsRead [] o h small = rw (at_end_next o) (refl, tt, omega arith)
  lines-IsRead (c ∷ cs) o h small =
      let (r, q, g) = next_of-Gives o c (slices_of cs) h.0 in
      let e = inc64_exact o (omega arith) in
      let (stop, listed, count) = lines-IsRead cs (o + 1) h.1 (omega arith) in
      rw (q, e) (stop, (rw e at g, listed), omega (arith, count))

  -- The reader of a file whose lines are those of `cs`, whatever fragments they come in, gives one
  -- record for each line, in that order and with the ordinals from `o` + 1 on, and then the end: it
  -- does not fail, and parseLine's fields never are too few. One call of Next for each line and one
  -- more are enough, and the ordinals do not overflow below 2 ^ 63.
  pub read_all-Lists :
      (cs : List Chopped) (o : ℕ)
      → All IsChopped cs
      → o + length cs < sign_bit
      → let d = read_all C (length cs + 1) (record { ordinal = o; input = slices_of cs }) in
        (d.stopped ≡ some next_end)
        × Lists (o + 1) cs d.records
        × (d.reader.ordinal ≡ o + length cs)
  read_all-Lists cs o h small = subst (IsRead o cs) (omega arith) (lines-IsRead cs o h small)

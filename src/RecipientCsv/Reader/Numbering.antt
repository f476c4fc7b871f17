-- ===== src/RecipientCsv/Reader/Numbering.antt =====
-- internal/recipientcsv/reader.go: Next on any input.
use personalized_email_pipel.Prelude.{
  ℕ, ◌+◌, ◌≤◌, ◌≡◌, refl, subst, Bool, true, false, List, [], ◌∷◌, none, some, ◌⊎◌, inl, inr,
  if◌then◌else◌, length, arith, Bool-cases,
}
use personalized_email_pipel.Prelude.Int64.{inc64}
use personalized_email_pipel.Campaign.Model.{Text, Reason}
use personalized_email_pipel.Campaign.Text.{trim_space}
use personalized_email_pipel.RecipientCsv.Reader.Records.{parse_line_pair}
use personalized_email_pipel.RecipientCsv.Reader.{
  Slice, SliceError, no_error, buffer_full, at_eof, other_failure, Csv, LineState, add_fragment,
  LineAnswer, line_read, line_end, line_failed, end_answer, after_slice, read_line_from, read_line,
  Reader, NextAnswer, next_failed, next_end, next_panics, next_record, is_empty, parse_line,
  record_of_parsed, next_line, next_of, new_reader, header_line, is_header, trim_prefix,
  byte_order_mark,
}

-- A line takes one fragment at least, and without any there is no line.
abbrev Shrinks : List Slice → LineAnswer × List Slice → Type 0
Shrinks ts (line_read line oversized, rest) = length rest + 1 ≤ length ts
Shrinks ts (line_end, rest) = Unit {0}
Shrinks ts (line_failed, rest) = Unit {0}

Shrinks-end : (s : LineState) (t : Slice) (ts : List Slice) → Shrinks (t ∷ ts) (end_answer s, ts)
Shrinks-end s t ts = elim (Bool-cases s.read_any) [ inl e ↦ rw e (omega arith) | inr e ↦ rw e tt ]

Shrinks-cons :
    (t : Slice) (ts : List Slice) (a : LineAnswer × List Slice) → Shrinks ts a → Shrinks (t ∷ ts) a
Shrinks-cons t ts (line_read line oversized, rest) h = omega (arith, h)
Shrinks-cons t ts (line_end, rest) h = tt
Shrinks-cons t ts (line_failed, rest) h = tt

after_slice-Shrinks :
    (s : LineState) (t : Slice) (x : SliceError) (ts : List Slice) (more : LineAnswer × List Slice)
    → ((x ≡ buffer_full) → Shrinks (t ∷ ts) more)
    → Shrinks (t ∷ ts) (after_slice s x ts more)
after_slice-Shrinks s t no_error ts more h = omega arith
after_slice-Shrinks s t buffer_full ts more h = h refl
after_slice-Shrinks s t at_eof ts more h = Shrinks-end s t ts
after_slice-Shrinks s t other_failure ts more h = tt

-- The same behind some fragments.
abbrev ShrinksOn : List Slice → LineAnswer × List Slice → Type 0
ShrinksOn ts (line_read line oversized, rest) = length rest ≤ length ts
ShrinksOn ts (line_end, rest) = Unit {0}
ShrinksOn ts (line_failed, rest) = Unit {0}

ShrinksOn-cons :
    (t : Slice) (ts : List Slice) (a : LineAnswer × List Slice)
    → ShrinksOn ts a
    → Shrinks (t ∷ ts) a
ShrinksOn-cons t ts (line_read line oversized, rest) h = omega (arith, h)
ShrinksOn-cons t ts (line_end, rest) h = tt
ShrinksOn-cons t ts (line_failed, rest) h = tt

ShrinksOn-Shrinks : (ts : List Slice) (a : LineAnswer × List Slice) → Shrinks ts a → ShrinksOn ts a
ShrinksOn-Shrinks ts (line_read line oversized, rest) h = omega (arith, h)
ShrinksOn-Shrinks ts (line_end, rest) h = tt
ShrinksOn-Shrinks ts (line_failed, rest) h = tt

ShrinksOn-end : (s : LineState) → ShrinksOn [] (end_answer s, [])
ShrinksOn-end s = elim (Bool-cases s.read_any) [ inl e ↦ rw e (omega arith) | inr e ↦ rw e tt ]

read_line_from-ShrinksOn : (s : LineState) (ts : List Slice) → ShrinksOn ts (read_line_from s ts)
unfolding read_line_from
read_line_from-ShrinksOn s [] = ShrinksOn-end s
read_line_from-ShrinksOn s (t ∷ ts) =
    let s' = add_fragment s t.fragment in
    ShrinksOn-Shrinks (t ∷ ts) (after_slice s' t.error ts (read_line_from s' ts)) (
      after_slice-Shrinks s' t t.error ts (read_line_from s' ts)
        (λ e. ShrinksOn-cons t ts (read_line_from s' ts) (read_line_from-ShrinksOn s' ts)))

read_line-Shrinks : (ts : List Slice) → Shrinks ts (read_line ts)
unfolding read_line_from
read_line-Shrinks [] = tt
read_line-Shrinks (t ∷ ts) =
    let s' = add_fragment (record { line = []; oversized = false; read_any = false }) t.fragment in
    after_slice-Shrinks s' t t.error ts (read_line_from s' ts)
      (λ e. ShrinksOn-cons t ts (read_line_from s' ts) (read_line_from-ShrinksOn s' ts))

-- What Next gives for a reader with the ordinal `o` before `n` fragments: no panic, and a record has
-- the next ordinal and takes a fragment.
abbrev pub Numbers : ℕ → ℕ → Reader × NextAnswer → Type 0
Numbers o n (r, next_record x) =
    (x.ordinal ≡ inc64 o) × (r.ordinal ≡ inc64 o) × (length r.input + 1 ≤ n)
Numbers o n (r, next_panics) = ⊥
Numbers o n (r, next_end) = Unit {0}
Numbers o n (r, next_failed) = Unit {0}

module _ (C : Csv) where
  parsed-Numbers :
      (o n : ℕ) (rest : List Slice) (p : List Text ⊎ Reason)
      → ((fields : List Text) → p ≡ inl fields → length fields ≡ 2)
      → length rest + 1 ≤ n
      → Numbers o n (record { ordinal = inc64 o; input = rest }, record_of_parsed C (inc64 o) p)
  unfolding record_of_parsed
  parsed-Numbers o n rest (inr x) two h = (refl, refl, h)
  parsed-Numbers o n rest (inl []) two h = let q = two [] refl in ground arith
  parsed-Numbers o n rest (inl (a ∷ [])) two h = let q = two (a ∷ []) refl in ground arith
  parsed-Numbers o n rest (inl (a ∷ b ∷ cs)) two h = elim (Bool-cases (is_empty (trim_space a))) [
    | inl e ↦ rw e (refl, refl, h)
    | inr e ↦ rw e (refl, refl, h)
  ]

  next_line-Numbers :
      (o : ℕ) (ts : List Slice) (a : LineAnswer × List Slice)
      → Shrinks ts a
      → Numbers o (length ts) (next_line C o a)
  unfolding next_line
  next_line-Numbers o ts (line_failed, rest) h = tt
  next_line-Numbers o ts (line_end, rest) h = tt
  next_line-Numbers o ts (line_read line true, rest) h = (refl, refl, h)
  next_line-Numbers o ts (line_read line false, rest) h =
      parsed-Numbers o (length ts) rest (parse_line C line) (parse_line_pair C line) h

  pub next_of-Numbers : (r : Reader) → Numbers r.ordinal (length r.input) (next_of C r)
  unfolding next_of
  next_of-Numbers r =
      next_line-Numbers r.ordinal r.input (read_line r.input) (read_line-Shrinks r.input)

  -- Behind the header, no record has been read.
  header_line_starts :
      (ts : List Slice) (a : LineAnswer × List Slice) (r : Reader)
      → Shrinks ts a
      → header_line C a ≡ some r
      → (r.ordinal ≡ 0) × (length r.input ≤ length ts)
  unfolding header_line
  header_line_starts ts (line_read header false, rest) r s h =
      kept (is_header C (parse_line C (trim_prefix header byte_order_mark))) h
    where
      kept :
          (b : Bool)
          → (if b then some (record { ordinal = 0; input = rest }) else none) ≡ some r
          → (r.ordinal ≡ 0) × (length r.input ≤ length ts)
      kept true q =
          let e : record { ordinal = 0; input = rest } ≡ r = cc in
          subst (λ x. (x.ordinal ≡ 0) × (length x.input ≤ length ts)) e (refl, omega (arith, s))
      kept false q = ground arith
  header_line_starts ts (line_read header true, rest) r s h = ground arith
  header_line_starts ts (line_end, rest) r s h = ground arith
  header_line_starts ts (line_failed, rest) r s h = ground arith

  pub new_reader_starts :
      (ts : List Slice) (r : Reader)
      → new_reader C ts ≡ some r
      → (r.ordinal ≡ 0) × (length r.input ≤ length ts)
  unfolding new_reader
  new_reader_starts ts r h = header_line_starts ts (read_line ts) r (read_line-Shrinks ts) h

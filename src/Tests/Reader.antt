-- ===== src/Tests/Reader.antt =====
-- The reader at a concrete file: a line in two fragments, an empty one, and one that the input's end
-- ends.
use personalized_email_pipel.Prelude.{
  ◌≡◌, refl, List, [], ◌∷◌, some, inl, inr, true, false, length, All, arith, Bool,
}
use personalized_email_pipel.Campaign.Model.{Text}
use personalized_email_pipel.Campaign.Text.{codes, split_from}
use personalized_email_pipel.RecipientCsv.Reader.Lines.{Chopped, IsChopped, slices_of}
use personalized_email_pipel.RecipientCsv.Reader.Records.{Lists, read_all-Lists}
use personalized_email_pipel.RecipientCsv.Reader.{
  CsvAnswer, csv_row, wrong_field_count, Csv, next_end, read_all,
}

-- Fields without quotes.
abbrev pub row_of : List Text → CsvAnswer
row_of (email ∷ name ∷ []) = csv_row (email ∷ name ∷ []) true
row_of _ = wrong_field_count

pub length-row_of :
    (parts fields : List Text) (ended : Bool)
    → row_of parts ≡ csv_row fields ended
    → length fields ≡ 2
length-row_of [] fields ended h = ground arith
length-row_of (a ∷ []) fields ended h = ground arith
length-row_of (a ∷ b ∷ []) fields ended h = ground arith
length-row_of (a ∷ b ∷ c ∷ cs) fields ended h = ground arith

abbrev pub plain_csv : Csv
plain_csv = record {
  valid_utf8 = λ line. true;
  read_row = λ line. row_of (split_from b',' [] line);
  length-read_row = λ line. length-row_of (split_from b',' [] line);
}

abbrev file : List Chopped
file =
    record { full = codes "ada@ex" ∷ []; last = codes "ample.test,Ada"; terminated = true }
    ∷ record { full = []; last = []; terminated = true }
    ∷ record { full = []; last = codes "bob@example.test,"; terminated = false }
    ∷ []

file-IsChopped : All IsChopped file
file-IsChopped = (first_line, (empty_line, (last_line, tt)))
  where
    first_line :
        IsChopped
          (record { full = codes "ada@ex" ∷ []; last = codes "ample.test,Ada"; terminated = true })
    first_line = record {
      inner = (record { first = b'a'; others = codes "da@ex"; parts = refl; open_end = refl }, tt);
      ends = inl refl;
    }

    empty_line : IsChopped (record { full = []; last = []; terminated = true })
    empty_line = record { inner = tt; ends = inl refl }

    last_line :
        IsChopped (record { full = []; last = codes "bob@example.test,"; terminated = false })
    last_line = record {
      inner = tt;
      ends = inr (
        refl,
        record { first = b'b'; others = codes "ob@example.test,"; parts = refl; open_end = refl },
      );
    }

read_all-Lists_example :
    ((read_all plain_csv 4 (record { ordinal = 0; input = slices_of file })).stopped
      ≡ some next_end)
    × Lists plain_csv 1 file
        (read_all plain_csv 4 (record { ordinal = 0; input = slices_of file })).records
    × ((read_all plain_csv 4 (record { ordinal = 0; input = slices_of file })).reader.ordinal ≡ 3)
read_all-Lists_example = read_all-Lists plain_csv file 0 file-IsChopped (omega arith)

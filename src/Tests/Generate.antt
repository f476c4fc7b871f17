-- ===== src/Tests/Generate.antt =====
-- The generate command at a path that holds nothing, with a report that cannot be printed.
use personalized_email_pipel.Prelude.{true, false, List, [], ◌∷◌, ◌++◌, some}
use personalized_email_pipel.Campaign.Model.{Text}
use personalized_email_pipel.Campaign.Text.{codes}
use personalized_email_pipel.Command.Generate.{GenerateFlags, Disk, absent}
use personalized_email_pipel.RecipientCsv.Fixture.{CsvWriter, fixture_algorithm_v1}
use personalized_email_pipel.Tests.Worker.{random}

-- A writer that keeps the rows.
abbrev rows_writer : CsvWriter
rows_writer = record {
  Output = List (List Text);
  write = λ out row. some (out ++ row ∷ []);
  flush = λ out. some out;
}

abbrev flags : GenerateFlags
flags = record {
  parse_failed = false;
  rest = 0;
  output = codes "recipients.csv";
  count = 3;
  seed = 7;
  algorithm = fixture_algorithm_v1;
}

abbrev disk : Disk random rows_writer
disk = record {
  before = absent;
  opened = some [];
  close_failed = false;
  remove_failed = false;
  encode_failed = true;
}

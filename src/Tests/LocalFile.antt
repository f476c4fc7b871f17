-- ===== src/Tests/LocalFile.antt =====
-- A local run over a file whose header comes in two fragments, and which cannot be read to its end.
use personalized_email_pipel.Prelude.{List, [], ◌∷◌, none, arith}
use personalized_email_pipel.Campaign.Text.{codes}
use personalized_email_pipel.Command.LocalFile.Reports.{
  Reports, source_of_reader, run_local_file-Reports,
}
use personalized_email_pipel.Command.LocalFile.{LocalRun, run_local_file}
use personalized_email_pipel.RecipientCsv.Reader.{
  Slice, no_error, buffer_full, other_failure, new_reader,
}
use personalized_email_pipel.Tests.Reader.{plain_csv}
use personalized_email_pipel.Tests.Runner.{config, turns}

abbrev slices : List Slice
slices =
    record { fragment = codes "email,"; error = buffer_full }
    ∷ record { fragment = codes "name\n"; error = no_error }
    ∷ record { fragment = codes "ada@example.test,Ada\n"; error = no_error }
    ∷ record { fragment = codes "bob@"; error = other_failure }
    ∷ []

abbrev local_run : LocalRun
local_run = record {
  config = config;
  turns = turns;
  mode = none;
  elapsed = 7;
  peak = 8;
  response_bound = 9;
  measured = 10;
}

run_local_file-Reports_example :
    Reports local_run
      (source_of_reader plain_csv (new_reader plain_csv slices))
      (run_local_file plain_csv local_run slices)
run_local_file-Reports_example = run_local_file-Reports plain_csv local_run slices (omega arith) tt

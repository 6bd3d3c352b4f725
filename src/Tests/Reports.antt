-- ===== src/Tests/Reports.antt =====
-- A report over one run.
use foliot.Common.{ℕ, String, pos, ◌≡◌, refl, true, false, Option, none, some, List, [], ◌∷◌}
use foliot.Log.Data.{BenchRun, BenchVerdict, RunRecord, Column, number, word}
use foliot.Bench.Report.{Row, Refusal, arm_unrun, report}
use foliot.Tests.Numbers.{numbers}
use foliot.Tests.Corpora.{task}

abbrev one_run : BenchRun ℕ
one_run = record {
  corpus = "v1";
  corpus_sha = "c0";
  task = "t1";
  class = "defect";
  arm = "bare";
  adapter = "claude-code";
  gate = "";
  repeat = pos 1;
  model = "m";
  provider = "p";
  billing = "api";
  base_sha = "a";
  base_exit = pos 1;
  landed_exit = pos 0;
  benchmark = true;
  cap_usd = 3;
  isolation_proven = true;
  isolation_probe = pos 1;
  history_free = true;
  landed_object_exit = pos 1;
  model_cutoff = "2025-01";
  public_since = "2026-01-01";
  run = "r";
  repository = "u";
  repository_public = some true;
  repository_language = "Go";
  clock_at = "2026-01-02T00:00:00Z";
  clock_offset_ms = pos 0;
}

abbrev columns : List (String × Column ℕ)
columns =
    ("ended_by", word "exit")
    ∷ ("billing", word "api")
    ∷ ("input_tokens", number 1)
    ∷ ("output_tokens", number 2)
    ∷ ("cache_read", number 3)
    ∷ ("cache_write", number 4)
    ∷ ("cost_usd", number 5)
    ∷ ("wall_ms", number 6)
    ∷ ("cpu_ms", number 7)
    ∷ ("load_at_start", number 8)
    ∷ ("denials_in_scope", number 9)
    ∷ ("refusals_routed", number 10)
    ∷ ("questions_after", number 11)
    ∷ ("orchestrator_tokens", number 12)
    ∷ []

abbrev one_verdict : BenchVerdict ℕ
one_verdict = record {
  corpus = "v1";
  task = "t1";
  arm = "bare";
  repeat = pos 1;
  pass = true;
  false_claim = false;
  columns = columns;
  check_exit = pos 0;
  examined = pos 3;
  symlinks_skipped = pos 0;
  week_used = none;
  harness_version = "1";
  check_confined = true;
}

abbrev records : List (RunRecord ℕ)
records = record { seq = pos 1; run = one_run; verdict = some one_verdict } ∷ []

abbrev rows_of : Option (List (Row ℕ) × List Refusal) → List (Row ℕ)
rows_of none = []
rows_of (some (rows, refusals)) = rows

abbrev refusals_of : Option (List (Row ℕ) × List Refusal) → List Refusal
refusals_of none = []
refusals_of (some (rows, refusals)) = refusals

other_arm :
    refusals_of (report numbers "v1" (("t1", task) ∷ []) [] ("other" ∷ []) records)
    ≡ arm_unrun "other" ∷ []
unfolding report
other_arm = refl

-- ===== src/Tests/Bench.antt =====
-- The benchmark at small sweeps.
use foliot.Common.{ℕ, ◌≡◌, ◌↔◌, refl, String, pos, true, false, none, some, List, [], ◌∷◌, map}
use foliot.Log.Event.{Event}
use foliot.Log.Check.{check}
use foliot.Log.Data.{BenchRun, BenchVerdict, BenchEstimate, RunRecord}
use foliot.Log.Fold.{
  Readers, RunKey, run_key, CellKey, cell_key, fold_runs, fold_cells, runs, estimates,
}
use foliot.Common.Assoc.{get}
use foliot.Log.Fold.Keyed.{track, get-fold_runs}
use foliot.Log.Fold.CellCounts.{extended, verdicts_in, get-fold_cells}
use foliot.Bench.Strings.{split_on, trim_space}
use foliot.Bench.Profile.{Arm, parse_arms}
use foliot.Bench.Profile.Arms.{IsResult, parse_arms-IsResult}
use foliot.Bench.Plan.{Task, Planned, plan, resume, projection}
use foliot.Bench.Plan.Resume.{Without, has_verdict, has_no_run, resume-Without}
use foliot.Bench.Plan.Cells.{In, IsPlanned, plan-IsPlanned}
use foliot.Bench.Plan.Budget.{IsRight, projection-IsRight}
use foliot.Bench.Command.{Options, Prepared, prepare_run}
use foliot.Tests.Sample.{sample, Fields}
use foliot.Tests.Numbers.{numbers}

abbrev one_run : BenchRun ℕ
one_run = record {
  corpus = "v1";
  corpus_sha = "c0";
  task = "t1";
  class = "fix";
  arm = "small";
  adapter = "claude-code";
  gate = "none";
  repeat = pos 1;
  model = "m";
  provider = "p";
  billing = "api";
  base_sha = "b";
  base_exit = pos 1;
  landed_exit = pos 0;
  benchmark = true;
  cap_usd = 5;
  isolation_proven = true;
  isolation_probe = pos 1;
  history_free = true;
  landed_object_exit = pos 1;
  model_cutoff = "2025-01";
  public_since = "2026-01-01";
  run = "bench/runs/t1";
  repository = "r";
  repository_public = some true;
  repository_language = "Go";
  clock_at = "2026-01-01T00:00:00Z";
  clock_offset_ms = pos 0;
}

abbrev one_verdict : BenchVerdict ℕ
one_verdict = record {
  corpus = "v1";
  task = "t1";
  arm = "small";
  repeat = pos 1;
  pass = true;
  false_claim = false;
  columns = [];
  check_exit = pos 0;
  examined = pos 3;
  symlinks_skipped = pos 0;
  week_used = none;
  harness_version = "1";
  check_confined = true;
}

abbrev one_estimate : BenchEstimate ℕ
one_estimate = record {
  corpus = "v1";
  arms = "small" ∷ [];
  repeats = pos 1;
  tasks = "t1" ∷ [];
  mean_cost_usd = ("small", 2) ∷ [];
  projected_usd = 4;
  corpus_tasks = pos 2;
}

-- Every datum reads as the same run, verdict and estimate.
abbrev readers : Readers Fields ℕ
readers = record {
  bench_run = λ f. some one_run;
  bench_verdict = λ f. some one_verdict;
  bench_verified = λ f. none;
  bench_estimate = λ f. some one_estimate;
}

abbrev event_at : ℕ → String → List String → Event Fields
event_at n typ keys = record {
  seq = pos n;
  ts = "";
  typ = typ;
  task = none;
  attempt = none;
  actor = "bench";
  cause = none;
  evidence = some [];
  payload = record { keys = keys; seq = none };
  v = pos 1;
}

abbrev run_keys : List String
run_keys =
    "corpus" ∷ "corpus_sha" ∷ "task" ∷ "class" ∷ "arm" ∷ "adapter" ∷ "gate" ∷ "repeat" ∷ "model"
    ∷ "provider" ∷ "billing" ∷ "base_sha" ∷ "base_exit" ∷ "landed_exit" ∷ "benchmark" ∷ "cap_usd"
    ∷ "isolation_proven" ∷ "isolation_probe" ∷ "history_free" ∷ "landed_object_exit"
    ∷ "model_cutoff" ∷ "public_since" ∷ "run" ∷ []

abbrev verdict_keys : List String
verdict_keys =
    "corpus" ∷ "task" ∷ "arm" ∷ "repeat" ∷ "pass" ∷ "false_claim" ∷ "columns" ∷ "check_exit"
    ∷ "examined" ∷ []

abbrev estimate_keys : List String
estimate_keys = "corpus" ∷ "arms" ∷ "repeats" ∷ "tasks" ∷ "mean_cost_usd" ∷ "projected_usd" ∷ []

abbrev history : List (Event Fields)
history =
    event_at 1 "bench.run" run_keys
    ∷ event_at 2 "bench.verdict" verdict_keys
    ∷ event_at 3 "bench.estimate" estimate_keys
    ∷ []

abbrev pub small : Arm ℕ
small = record {
  name = "small";
  adapter = "claude-code";
  model = "m";
  provider = "p";
  cutoff = "2025-01";
  cutoff_source = "card";
  cap_usd = 5;
  repeats = pos 0;
}

abbrev pub task_named : String → Task
task_named id = record {
  id = id;
  class = "fix";
  repository = "r";
  base_sha = "b";
  landed_sha = "l";
  setup = "";
  clock_at = "2026-01-01T00:00:00Z";
}

abbrev pub run_of : String → Planned ℕ
run_of id = record { arm = small; task = task_named id; repeat = pos 1; cap = 5 }

abbrev pub two_runs : List (Planned ℕ)
two_runs = run_of "t1" ∷ run_of "t2" ∷ []

abbrev pub two_tasks : List Task
two_tasks = task_named "t1" ∷ task_named "t2" ∷ []

abbrev cell : RunKey
cell = record { corpus = "v1"; task = "t1"; arm = "small"; repeat = pos 1 }

get-fold_runs_example :
    get cell (fold_runs sample readers [] history) ≡ track sample readers cell none history
unfolding get
get-fold_runs_example = get-fold_runs sample readers cell [] history

abbrev row : CellKey
row = record { class = "fix"; model = "m" }

abbrev scored : List (RunRecord ℕ)
scored = record { seq = pos 1; run = one_run; verdict = some one_verdict } ∷ []

get-fold_cells_example : get row (fold_cells [] scored) ≡ extended row none (verdicts_in row scored)
unfolding get
get-fold_cells_example = get-fold_cells row [] scored

-- The first task's verdict is kept, and the second's run is what is left.
resumed :
    (resume numbers sample readers "v1" "c0" false history two_runs two_tasks).0 ≡ run_of "t2" ∷ []
unfolding resume check
resumed = refl

resume-Without_example :
    Without
      (has_verdict "v1" "c0" false (runs sample readers history))
      two_runs
      (resume numbers sample readers "v1" "c0" false history two_runs two_tasks).0
    × Without
        (has_no_run (resume numbers sample readers "v1" "c0" false history two_runs two_tasks).0)
        two_tasks
        (resume numbers sample readers "v1" "c0" false history two_runs two_tasks).1
resume-Without_example =
    resume-Without numbers sample readers "v1" "c0" false history two_runs two_tasks

projection-IsRight_example :
    IsRight numbers "v1" two_runs
      (small ∷ [])
      4
      (one_estimate ∷ [])
      (projection numbers sample readers "v1" history two_runs (small ∷ []) 4)
unfolding estimates check
projection-IsRight_example =
    projection-IsRight numbers "v1" two_runs (small ∷ []) sample readers history 4

abbrev asked : Options ℕ
asked = record {
  arms = "small";
  tasks = [];
  repeats = pos 1;
  budget_usd = 6;
  cap_usd = 0;
  no_resume = false;
}

asked_starts :
    prepare_run numbers sample readers "v1" "c0" false history
      (small ∷ [])
      two_tasks
      ("t1" ∷ "t2" ∷ [])
      asked
    ≡ Prepared.to_sweep 5 (run_of "t2" ∷ []) (task_named "t2" ∷ [])
unfolding prepare_run check
asked_starts = refl

parse_arms-IsResult_example :
    IsResult
      (small ∷ [])
      []
      (map trim_space (split_on 44 "small, small"))
      (parse_arms (small ∷ []) "small, small")
parse_arms-IsResult_example = parse_arms-IsResult (small ∷ []) "small, small"

plan-IsPlanned_example :
    In (run_of "t2") (plan numbers (small ∷ []) two_tasks (pos 1) 0)
    ↔ IsPlanned numbers (small ∷ []) two_tasks (pos 1) 0 (run_of "t2")
plan-IsPlanned_example = plan-IsPlanned numbers (small ∷ []) two_tasks (pos 1) 0 (run_of "t2")

-- ===== src/Tests/Lines.antt =====
-- Command lines.
use foliot.Common.{ℕ, String, pos, ◌≡◌, refl, Bool, true, false, none, some, List, [], ◌∷◌}
use foliot.Cli.{Flags, Parsed, help, flags, Action, sweep}
use foliot.Cli.Run.{Replay, run}
use foliot.Cli.Ends.{IsEnd, run-IsEnd}
use foliot.Tests.Numbers.{numbers}

abbrev sweep_flags : Flags ℕ
sweep_flags = record {
  verify = false;
  corpus = "v1";
  arms = "ceiling";
  arm = "";
  repeats = pos 2;
  jobs = pos 2;
  budget_usd = 5;
  cap_usd = 0;
  without_isolation = false;
  no_resume = false;
  tasks = [];
  given = "corpus" ∷ "arms" ∷ "repeats" ∷ "budget-usd" ∷ [];
  rest = [];
}

abbrev parse_line : String → List String → Parsed ℕ
parse_line name [] = help
parse_line name (a ∷ args) = flags sweep_flags

abbrev no_log : String → Replay
no_log root = record { verifies = false; first = none; second = none }

abbrev same : String → String
same p = p

abbrev refuses : Action ℕ → Bool
refuses a = false

refused_sweep :
    run numbers same refuses parse_line no_log ("bench" ∷ "run" ∷ "--corpus=v1" ∷ []) "/home" true
    ≡ record { code = 1; started = some (sweep "/home" "v1" sweep_flags) }
unfolding run
refused_sweep = refl

relative_root :
    run numbers same refuses parse_line no_log ("bench" ∷ "run" ∷ "--corpus=v1" ∷ []) "home" true
    ≡ record { code = 2; started = none }
unfolding run
relative_root = refl

planned_family :
    run numbers same refuses parse_line no_log ("submit" ∷ []) "/home" true
    ≡ record { code = 2; started = none }
unfolding run
planned_family = refl

run-IsEnd_example :
    IsEnd numbers same refuses parse_line no_log "/home" (
      run numbers same refuses parse_line no_log
        ("bench" ∷ "run" ∷ "--corpus=v1" ∷ [])
        "/home"
        true)
run-IsEnd_example =
    run-IsEnd numbers same refuses parse_line no_log ("bench" ∷ "run" ∷ "--corpus=v1" ∷ []) "/home"
      true

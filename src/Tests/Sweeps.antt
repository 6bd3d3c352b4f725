-- ===== src/Tests/Sweeps.antt =====
-- One run, one sweep and one probe.
use foliot.Common.{
  ℕ, ◌≡◌, refl, String, pos, true, false, Option, none, some, [], ◌∷◌, ◌<◌, All, ltb, contains,
  ◌=s=◌, if◌then◌else◌,
}
use foliot.Bench.Strings.{includes, byte_length, split_on, trim_space, join_text}
use foliot.Bench.Plan.{Planned}
use foliot.Bench.Probe.{Reading, judge_probe, answer_lines, added_lines, removed_lines, proven}
use foliot.Bench.Probe.Safe.{proven-Hidden}
use foliot.Bench.Run.{Answers, Facts, Session, written, run_one}
use foliot.Bench.Run.Recorded.{IsEnd, run_one-IsEnd}
use foliot.Bench.Sweep.{Probed, sweep}
use foliot.Bench.Sweep.Spend.{IsSafe, sweep-IsSafe}
use foliot.Tests.Numbers.{numbers}
use foliot.Tests.Bench.{run_of, two_runs, two_tasks}

abbrev spoken : Reading ℕ
spoken = record {
  model = "m";
  billing = "api";
  version = "1";
  week_used = none;
  tool_uses = 3;
  denials = 2;
  denied_inputs = [];
  texts = "cat: permission denied" ∷ "clock=2026-01-01T00:00:00Z" ∷ [];
  ended = true;
  ended_by = "exit";
  claimed_done = true;
  cost_usd = some 3;
  input_tokens = none;
  output_tokens = none;
  cache_read = none;
  cache_write = none;
  duration_ms = some (pos 10);
}

abbrev facts : Facts ℕ
facts = record {
  root = "/r";
  real_home = "/h";
  corpus = "v1";
  corpus_sha = "c0";
  harness = "claude-code";
  billing = "api";
  base_exit = pos 1;
  landed_exit = pos 0;
  repository_public = true;
  repository_language = "Go";
  record_path = "bench/runs/t1";
  work_path = "/r/bench/work/t1";
  max_load = 0;
  probe_seq = pos 1;
}

abbrev good_answers : Answers ℕ
good_answers = record {
  history = some (record { landed_object_exit = pos 1; commits = pos 1; refs = pos 0 });
  public_since = "2026-01-01";
  setup_exit = pos 0;
  refused_offset_ms = pos 0;
  clock_offset_ms = some (pos 0);
  record_open = true;
  load = none;
  clock_right = true;
  observed = some (record { wall_ms = 12; cpu_ms = 5; load_at_start = none });
  stream = some spoken;
  scored =
      some (record { check_exit = pos 0; examined = pos 3; symlinks = pos 0; confined = true });
}

abbrev fresh : Session ℕ
fresh = record { next_seq = 2; appended = []; week_used = none }

run_one-IsEnd_example :
    IsEnd numbers
      (λ n. written)
      facts
      good_answers
      (run_of "t1")
      fresh
      (run_one numbers (λ n. written) facts good_answers (run_of "t1") fresh)
run_one-IsEnd_example = run_one-IsEnd numbers (λ n. written) facts good_answers (run_of "t1") fresh

-- The answers to a run: one whose cap is under 3 has no stream.
abbrev answers_to : Planned ℕ → Answers ℕ
answers_to r = if ltb r.cap 3 then record good_answers { stream = none } else good_answers

abbrev check_text : String
check_text = "set -u\ngrep -q the_hidden_needle src/main.c\n"

abbrev diff_text : String
diff_text =
    "--- a/x\n+++ b/x\n-old line that is removed here\n+int answer = the_secret_value(42);\n"

judged_proven :
    proven (judge_probe check_text (answer_lines diff_text) "token-1" spoken) (some "2026-01-01")
    ≡ true
unfolding judge_probe answer_lines proven
judged_proven = refl

abbrev probed : Option (Probed ℕ)
probed = some (record {
  reading = judge_probe check_text (answer_lines diff_text) "token-1" spoken;
  day = some "2026-01-01";
  cost_usd = some 1;
})

sweep-IsSafe_example :
    IsSafe numbers
      (λ n. written)
      80
      (λ r. facts)
      answers_to
      10
      true
      (λ t. true)
      probed
      5
      two_runs
      two_tasks
      (sweep numbers
        (λ n. written)
        80
        (λ r. facts)
        answers_to
        10
        true
        (λ t. true)
        probed
        fresh
        two_runs
        two_tasks)
sweep-IsSafe_example =
    sweep-IsSafe numbers (λ n. written) 80 (λ r. facts) answers_to 10 true (λ t. true) probed fresh
      (run_of "t1") (run_of "t2" ∷ []) two_tasks

proven-Hidden_example :
    All
      (λ l.
        ltb (byte_length (trim_space l)) 16 ≡ false
        → includes (join_text "\n" spoken.texts) (trim_space l) ≡ false)
      (split_on 10 check_text)
    × ((l : String)
        → contains l (added_lines (split_on 10 diff_text)) ≡ true
        → contains l (removed_lines (split_on 10 diff_text)) ≡ false
        → includes (join_text "\n" spoken.texts) l ≡ false)
    × (("token-1" =s= "") ≡ false → includes (join_text "\n" spoken.texts) "token-1" ≡ false)
    × (0 < spoken.tool_uses)
    × (0 < spoken.denials)
proven-Hidden_example =
    proven-Hidden check_text diff_text "token-1" spoken (some "2026-01-01") judged_proven

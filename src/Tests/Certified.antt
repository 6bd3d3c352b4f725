-- ===== src/Tests/Certified.antt =====
-- One task with a certification in the log, and one without.
use foliot.Common.{ℕ, String, pos, ◌≡◌, refl, Bool, true, false, Option, none, some, List, [], ◌∷◌}
use foliot.Log.Data.{BenchVerified, VisibleReading}
use foliot.Log.Fold.{VerifiedKey}
use foliot.Bench.Plan.{Task}
use foliot.Bench.Verify.{Result, unread}
use foliot.Bench.Verify.Summary.{Verified, verified}
use foliot.Bench.Certify.{Exits, certify}
use foliot.Bench.Certify.Reused.{Shares, IsDone, certify-IsDone}

abbrev task_named : String → Task
task_named id = record {
  id = id;
  class = "defect";
  repository = "r";
  base_sha = "a";
  landed_sha = "b";
  setup = "";
  clock_at = "2026-01-02T00:00:00Z";
}

abbrev seen : VisibleReading ℕ
seen = record {
  exit = pos 0;
  examined = pos 4;
  wall_ms = pos 1;
  cpu_ms = pos 1;
  load_at_start = none;
}

abbrev known : BenchVerified ℕ
known = record {
  corpus = "v1";
  corpus_sha = "c0";
  task = "t1";
  task_sha = "s";
  base_exit = pos 1;
  landed_exit = pos 0;
  examined = pos 3;
  visible = some (seen, seen);
  clock_at = "2026-01-02T00:00:00Z";
  clock_offset_ms = pos 0;
}

abbrev in_log : Option (List (VerifiedKey × BenchVerified ℕ))
in_log = some ((record { corpus = "v1"; task = "t1"; task_sha = "s" }, known) ∷ [])

abbrev anew : Result ℕ
anew = record {
  id = "t2";
  class = "defect";
  base = pos 2;
  landed = pos 0;
  additions = pos 1;
  visible_base = unread;
  visible_landed = unread;
  same_as_base = false;
  examined = pos 1;
  refusals = [];
  task_sha = "s";
  clock_at = "2026-01-02T00:00:00Z";
  clock_offset_ms = pos 0;
}

abbrev verify_all : List String → Verified ℕ
verify_all need = verified (record {
  examined = 1;
  accepted = 1;
  refused = 0;
  of_class = λ c. 1;
  corpus_sha = "c1";
  dirty = false;
  partial = true;
  problems = [];
  results = anew ∷ [];
})

abbrev digest_of : String → Option String
digest_of id = some "s"

abbrev always : BenchVerified ℕ → Bool
always v = true

abbrev tasks : List Task
tasks = task_named "t1" ∷ task_named "t2" ∷ []

taken_and_anew :
    (certify ("c1", false) "v1" in_log digest_of verify_all always tasks).exits
    ≡ ("t1", (pos 1, pos 0)) ∷ ("t2", (pos 2, pos 0)) ∷ []
unfolding certify
taken_and_anew = refl

certify-IsDone_example :
    (done : List (VerifiedKey × BenchVerified ℕ)) × (reused : Exits) × (need : List String)
    × (in_log ≡ some done)
    × Shares false "v1" done digest_of tasks reused need
    × IsDone always "v1" "c1" verify_all need reused
        (certify ("c1", false) "v1" in_log digest_of verify_all always tasks)
unfolding certify
certify-IsDone_example =
    certify-IsDone "c1" false "v1" in_log digest_of verify_all always tasks refl

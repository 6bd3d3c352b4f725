-- ===== src/Tests/Corpora.antt =====
-- A corpus of one task, and what the machine answers to its verification.
use foliot.Common.{
  ℕ, String, ℤ, pos, ◌≡◌, ◌↔◌, refl, true, false, Option, none, some, List, [], ◌∷◌, if◌then◌else◌,
  ◌=s=◌, get_elem?, contains,
}
use foliot.Bench.Strings.{includes, has_prefix}
use foliot.Bench.Corpus.{Packages, TaskRecord, Manifest, ManifestFile, loaded, load_manifest}
use foliot.Bench.Corpus.Load.{load_task, file, set_at}
use foliot.Bench.Corpus.Sound.{IsSound, load_task-IsSound}
use foliot.Bench.Verify.{Phase, base, landed, additions, at_base, at_landed, Result}
use foliot.Bench.Verify.History.{Git, corpus_version}
use foliot.Bench.Verify.Task.{PhaseAnswers, TaskAnswers, Suite, verify_task}
use foliot.Bench.Verify.Certified.{Certified, verify_task-Certified}
use foliot.Bench.Verify.Visible.{VisibleKey, SuiteAnswers, key_of, run_visible, verify_visible}
use foliot.Bench.Verify.Given.{reading}
use foliot.Bench.Verify.Passed.{Green, verify_visible-Green}
use foliot.Bench.Verify.Env.{merge_env, is_set}
use foliot.Bench.Verify.Child.{entries, merge_env-entries}
use foliot.Bench.Verify.Whole.{passes-Certified, Frame, RanGreen}
use foliot.Bench.Verify.Succeeds.{verify-Certified}
use foliot.Bench.Verify.Summary.{Summary, passes, success, summarise, verify}
use foliot.Bench.Verify.Summary.Sound.{IsCorpusSound, success-IsCorpusSound}

-- A pattern is a text to find, and a time is any text that is not empty.
abbrev packages : Packages
packages = record {
  Regexp = String;
  compile = λ p. some p;
  groups = λ p. 1;
  finds = λ p t. includes t p;
  last_group = λ p t. if includes t p then some "12" else none;
  pull_request = λ t. if has_prefix t "https://github.com/" then some "7" else none;
  has_diff = λ t. includes t "diff --git ";
  has_network = λ t. includes t "curl ";
  merges = λ n t. includes t "(#7)";
  parse_time = λ t. if t =s= "" then none else some (pos 0);
  digest = λ t. "d";
}

abbrev manifest_file : ManifestFile
manifest_file = record {
  classes = ("defect", pos 1) ∷ [];
  history_refusals = ("a credential", "password") ∷ [];
  visible_examined_from = "tests";
  clock_kind = "node";
}

abbrev manifest : Manifest packages
manifest = record {
  classes = ("defect", pos 1) ∷ [];
  refusals = record { what = "a credential"; re = "password" } ∷ [];
  visible_re = "tests";
}

manifest_loads : load_manifest packages (some manifest_file) ≡ loaded manifest
unfolding load_manifest
manifest_loads = refl

abbrev pub task : TaskRecord
task = record {
  id = "t1";
  class = "defect";
  request = "The list is empty after a reload.";
  request_sha256 = "d";
  repository = "https://github.com/a/b";
  base_sha = "aaaaaaaaaaaaaaaaaaaaaaaaaaaaaaaaaaaaaaaa";
  landed_sha = "bbbbbbbbbbbbbbbbbbbbbbbbbbbbbbbbbbbbbbbb";
  pull_request = "https://github.com/a/b/pull/7";
  setup = "npm ci";
  visible_check = "npm test";
  scope = record { files = []; discover = true };
  history = record { source = "s"; item = "i"; text = "see https://github.com/a/b/pull/7" };
  clock_at = "2026-01-02T00:00:00Z";
  at = pos 0;
}

abbrev sound : load_task packages manifest "t1" (some task) ≡ (some (set_at packages task), [])
unfolding load_task
sound = refl

load_task-IsSound_example :
    ((load_task packages manifest "t1" (some task)).1 ≡ []) ↔ IsSound packages manifest "t1" task
load_task-IsSound_example = load_task-IsSound packages manifest "t1" task

-- git knows both commits, and the landed one adds a file.
abbrev of_diff : String → Option String
of_diff option =
    if option =s= "--name-status" then some "A\0new.js" else some "+++ b/new.js\n+reload();"

abbrev git : Git
git (verb ∷ option ∷ args) =
    if verb =s= "merge-base"
    then some ""
    else if verb =s= "log"
    then some "Fix the list (#7)"
    else if verb =s= "ls-tree"
    then some "100644 blob c1\tREADME"
    else if verb =s= "show"
    then some "2026-01-01T00:00:00Z"
    else if verb =s= "diff"
    then of_diff option
    else none
git args = none

abbrev phase_answers : Phase → PhaseAnswers
phase_answers p = record {
  checked_out = true;
  setup_exit = pos 0;
  copied = true;
  clock_offset_ms = some (pos 5);
  clock_right = true;
  check_exit = exit_of p;
  log = some "examined=3\n";
}
  where
    exit_of : Phase → ℤ
    exit_of base = pos 1
    exit_of landed = pos 0
    exit_of additions = pos 1

abbrev answers : TaskAnswers
answers = record {
  record_file = some task;
  check_regular = true;
  check_walk = file "check.sh" (some "node check.js") ∷ [];
  mirror = true;
  git = git;
  hash_object = λ p. some "c2";
  blob = λ p. some "x";
  work_cleared = true;
  work_made = true;
  at_phase = phase_answers;
  digest = some "s";
}

abbrev first_pass : Result ℕ × Suite
first_pass = verify_task packages manifest "/root" "t1" answers

verify_task-Certified_example :
    Certified packages manifest "t1" answers first_pass.0 (set_at packages task)
unfolding verify_task
verify_task-Certified_example =
    verify_task-Certified packages manifest "/root" "t1" answers first_pass.0 (set_at packages task)
      refl

abbrev suite_answers : VisibleKey → SuiteAnswers ℕ × SuiteAnswers ℕ
suite_answers key = (good, good)
  where
    good : SuiteAnswers ℕ
    good = record {
      cloned = true;
      setup_exit = pos 0;
      clock_right = true;
      exit = pos 0;
      log = some "12 tests";
      wall_ms = pos 9;
      cpu_ms = pos 8;
      load_at_start = none;
    }

abbrev second_pass : List (Result ℕ)
second_pass = verify_visible packages "tests" suite_answers (first_pass.0 ∷ []) (some task ∷ [])

abbrev head_or : Result ℕ → List (Result ℕ) → Result ℕ
head_or r [] = r
head_or r (x ∷ xs) = x

abbrev final : Result ℕ
final = head_or first_pass.0 second_pass

verify_visible-Green_example :
    (reading at_landed final
      ≡ (run_visible packages "tests"
          (key_of task at_landed)
          (suite_answers (key_of task at_landed)).0
          (suite_answers (key_of task at_landed)).1).run)
    × Green (reading at_landed final)
unfolding verify_task verify_visible
verify_visible-Green_example =
    verify_visible-Green packages "tests" suite_answers (first_pass.0 ∷ []) (some task ∷ []) 0
      at_landed task final refl refl refl

abbrev over_both : List (Result ℕ)
over_both = passes packages manifest "/root" (λ id. answers) suite_answers ("t1" ∷ [])

passes-Certified_example :
    (t : TaskRecord) × (r : Result ℕ) × (verify_task packages manifest "/root" "t1" answers
      ≡ (r, some t))
    × Certified packages manifest "t1" answers r t
    × Frame r (head_or first_pass.0 over_both)
    × RanGreen packages manifest suite_answers at_base t (head_or first_pass.0 over_both)
    × RanGreen packages manifest suite_answers at_landed t (head_or first_pass.0 over_both)
unfolding verify_task verify_visible
passes-Certified_example =
    passes-Certified packages manifest "/root" (λ id. answers) suite_answers ("t1" ∷ []) 0 "t1"
      (head_or first_pass.0 over_both) refl refl refl

-- The benchmark's repository, with nothing uncommitted.
abbrev clean : Git
clean args = some (if contains "rev-parse" args then "c0" else "")

abbrev whole : Summary ℕ
whole = summarise packages manifest (corpus_version clean) false over_both

verify-Certified_example :
    (r' : Result ℕ) × (get_elem? whole.results 0 ≡ some r')
    × (t : TaskRecord) × (r : Result ℕ) × Certified packages manifest "t1" answers r t
    × Frame r r'
    × Green (reading at_base r')
    × Green (reading at_landed r')
unfolding load_manifest corpus_version verify_task verify_visible verify success
verify-Certified_example =
    verify-Certified packages (some manifest_file) manifest ("t1" ∷ []) clean "/root" []
      (λ id. answers) suite_answers whole 0 "t1" refl refl refl refl

success-IsCorpusSound_example :
    (success (summarise packages manifest ("c0", false) false second_pass) ≡ true)
    ↔ IsCorpusSound packages manifest false false second_pass
success-IsCorpusSound_example = success-IsCorpusSound packages manifest "c0" false false second_pass

merge_env-entries_example : entries (65 ∷ []) (merge_env ("A=1" ∷ "B=2" ∷ []) ("A=3" ∷ [])) ≡ (
    if is_set (65 ∷ []) ("A=3" ∷ [])
    then entries (65 ∷ []) ("A=3" ∷ [])
    else entries (65 ∷ []) ("A=1" ∷ "B=2" ∷ []))
merge_env-entries_example = merge_env-entries (65 ∷ []) ("A=1" ∷ "B=2" ∷ []) ("A=3" ∷ [])

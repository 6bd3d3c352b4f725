-- ===== src/Bench/Verify.antt =====
-- src/core/bench/verify.go: what the certification of a corpus keeps. A refusal is kept as what it
-- says of which text, not as the sentence that is printed.
pub mod Env
pub mod Child
pub mod History
pub mod Task
pub mod Phases
pub mod Certified
pub mod Visible
pub mod Holders
pub mod Given
pub mod Passed
pub mod Whole
pub mod Succeeds
pub mod Summary
use foliot.Common.{String, ℤ, pos, negsuc, Bool, true, false, Option, none, some, List, [], ◌∷◌}
use foliot.Bench.Corpus.Load.{Refusal}

-- The phases of a hidden check, and those of a visible suite.
pub data Phase : Type 0 where
  base : Phase
  landed : Phase
  additions : Phase

pub data Side : Type 0 where
  at_base : Side
  at_landed : Side

-- `notRun`
abbrev pub not_run : ℤ
not_run = negsuc 999

-- Why a visible suite refuses a task: the `failure` of a `visibleOutcome`, with what it names.
pub data Failure : Type 0 where
  clone : Failure
  setup : ℤ → Failure
  clock : Failure
  zero_tests : Failure
  killed : Failure
  red : Failure
  flaky : Failure

-- A refusal of `verifyTask`, `historyRefusals` or `verifyVisible`.
pub data Why : Type 0 where
  of_record : Refusal → Why
  check_names_sha : String → Why
  no_mirror : Why
  base_not_ancestor : Why
  landed_off_default : Why
  message_names_no_pull : String → Why
  tree_unread : Why
  copied_from_repository : String → Why
  diff_unread : Why
  quotes_diff : String → Why
  base_time_unread : Why
  clock_before_base : Why
  additions_unread : Why
  no_work : Why
  no_checkout : Phase → Why
  setup_failed : Phase → ℤ → Why
  check_not_copied : Phase → Why
  clock_wrong : Phase → Why
  passes_at_base : Why
  fails_at_landed : ℤ → Why
  examines_nothing : Why
  passes_on_additions : Why
  no_digest : Why
  visible : Side → Failure → Why

-- `VisibleRun`, less the re-run, which is a column of the reading it belongs to.
pub record SuiteRun (F : Type 0) : Type 0 where
  pub exit : ℤ
  pub examined : ℤ
  pub wall_ms : ℤ
  pub cpu_ms : ℤ
  pub load_at_start : Option F

pub record VisibleRun (F : Type 0) : Type 0 where
  pub first : SuiteRun F
  pub rerun : Option (SuiteRun F)

abbrev pub unread_suite : {F : Type 0} → SuiteRun F
unread_suite = record {
  exit = not_run;
  examined = pos 0;
  wall_ms = pos 0;
  cpu_ms = pos 0;
  load_at_start = none;
}

abbrev pub unread : {F : Type 0} → VisibleRun F
unread = record { first = unread_suite; rerun = none }

-- `Result`
pub record Result (F : Type 0) : Type 0 where
  pub id : String
  pub class : String
  pub base : ℤ
  pub landed : ℤ
  pub additions : ℤ
  pub visible_base : VisibleRun F
  pub visible_landed : VisibleRun F
  pub same_as_base : Bool
  pub examined : ℤ
  pub refusals : List Why
  pub task_sha : String
  pub clock_at : String
  pub clock_offset_ms : ℤ

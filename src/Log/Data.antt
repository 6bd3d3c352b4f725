-- ===== src/Log/Data.antt =====
-- src/core/log/fold.go: the data of the benchmark's events. A float64 is a value of a type `F` that
-- the code's user gives, with its operations (`Common/Float.antt`).
use foliot.Common.{ℕ, String, ℤ, Bool, Option, List}

pub record BenchRun (F : Type 0) : Type 0 where
  pub corpus : String
  pub corpus_sha : String
  pub task : String
  pub class : String
  pub arm : String
  pub adapter : String
  pub gate : String
  pub repeat : ℤ
  pub model : String
  pub provider : String
  pub billing : String
  pub base_sha : String
  pub base_exit : ℤ
  pub landed_exit : ℤ
  pub benchmark : Bool
  pub cap_usd : F
  pub isolation_proven : Bool
  pub isolation_probe : ℤ
  pub history_free : Bool
  pub landed_object_exit : ℤ
  pub model_cutoff : String
  pub public_since : String
  pub run : String
  pub repository : String
  pub repository_public : Option Bool
  pub repository_language : String
  pub clock_at : String
  pub clock_offset_ms : ℤ

-- A column's value: null, a float64 or a string. A number of a decoded map is a float64.
pub data Column (F : Type 0) : Type 0 where
  null : Column F
  number : F → Column F
  word : String → Column F

pub record BenchVerdict (F : Type 0) : Type 0 where
  pub corpus : String
  pub task : String
  pub arm : String
  pub repeat : ℤ
  pub pass : Bool
  pub false_claim : Bool
  pub columns : List (String × Column F)
  pub check_exit : ℤ
  pub examined : ℤ
  pub symlinks_skipped : ℤ
  pub week_used : Option F
  pub harness_version : String
  pub check_confined : Bool

pub record BenchProbe (F : Type 0) : Type 0 where
  pub corpus : String
  pub task : String
  pub arm : String
  pub model : String
  pub isolation : String
  pub check_lines : ℕ
  pub lines_seen : ℕ
  pub denials : ℕ
  pub attempts : ℕ
  pub diff_lines : ℕ
  pub diff_seen : ℕ
  pub token_seen : Bool
  pub proven : Bool
  pub cost_usd : Option F
  pub run : String

pub record BenchEstimate (F : Type 0) : Type 0 where
  pub corpus : String
  pub arms : List String
  pub repeats : ℤ
  pub tasks : List String
  pub mean_cost_usd : List (String × F)
  pub projected_usd : F
  pub corpus_tasks : ℤ

pub record VisibleReading (F : Type 0) : Type 0 where
  pub exit : ℤ
  pub examined : ℤ
  pub wall_ms : ℤ
  pub cpu_ms : ℤ
  pub load_at_start : Option F

pub record BenchVerified (F : Type 0) : Type 0 where
  pub corpus : String
  pub corpus_sha : String
  pub task : String
  pub task_sha : String
  pub base_exit : ℤ
  pub landed_exit : ℤ
  pub examined : ℤ
  pub visible : Option (VisibleReading F × VisibleReading F)  -- at base and at landed
  pub clock_at : String
  pub clock_offset_ms : ℤ

-- `RunRecord`: one run with the verdict that ended it, none while none has.
pub record RunRecord (F : Type 0) : Type 0 where
  pub seq : ℤ
  pub run : BenchRun F
  pub verdict : Option (BenchVerdict F)

pub record BenchCell (F : Type 0) : Type 0 where
  pub pass_rate : F
  pub n : ℕ
  pub cost_median : Option F

-- ===== src/Bench/Report/Complete.antt =====
-- What a report without a refusal rests on (src/core/bench/report.go).
use foliot.Common.{String, true, false, some, List, [], ◌∷◌, contains, All, ◌≡◌, ◌⊎◌}
use foliot.Common.Float.{Float}
use foliot.Log.Data.{RunRecord, number, word}
use foliot.Bench.Corpus.{classes}
use foliot.Bench.Report.{
  Kind, mean, median, counts, report_columns, value_of, runs_of_class, is_empty_runs,
}

module _ (fl : Float) where
  -- A run with a reading of a column, as a number or as a word.
  abbrev pub HasNumber : String → List (RunRecord fl.F) → Type 0
  HasNumber name [] = ⊥
  HasNumber name (r ∷ rs) =
      ((x : fl.F) × (value_of fl r.verdict name ≡ some (number x))) ⊎ HasNumber name rs

  abbrev pub HasWord : String → List (RunRecord fl.F) → Type 0
  HasWord name [] = ⊥
  HasWord name (r ∷ rs) =
      ((w : String) × (value_of fl r.verdict name ≡ some (word w))) ⊎ HasWord name rs

  abbrev pub HasReading : String × Kind → List (RunRecord fl.F) → Type 0
  HasReading (name, counts) rs = HasWord name rs
  HasReading (name, mean) rs = HasNumber name rs
  HasReading (name, median) rs = HasNumber name rs

  -- Runs with a reading in every column.
  abbrev pub IsRead : List (RunRecord fl.F) → Type 0
  IsRead rs = (is_empty_runs fl rs ≡ false) × All (λ c. HasReading c rs) report_columns

  abbrev pub IsCovered : List String → List (RunRecord fl.F) → Type 0
  IsCovered in_scope rs =
      IsRead rs
      × All (λ class. contains class in_scope ≡ true → IsRead (runs_of_class fl class rs)) classes

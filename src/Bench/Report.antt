-- ===== src/Bench/Report.antt =====
-- src/core/bench/report.go: the rows of `Report` and its refusals. A figure is kept as what it says, not
-- as it is printed.
pub mod Complete
use foliot.Common.{
  ℕ, zero, suc, ◌+◌, ◌-◌, ◌/◌, ◌%◌, String, ℤ, ◌==ℤ◌, ltb, ◌==◌, Bool, true, false, not, ◌&&◌, ◌||◌,
  Option, none, some, List, [], ◌∷◌, ◌++◌, map, if◌then◌else◌, ◌=s=◌, contains, lookup, length,
  get_elem?, is_none,
}
use foliot.Common.Float.{Float}
use foliot.Log.Data.{BenchRun, BenchVerdict, RunRecord, Column, null, number, word}
use foliot.Log.Fold.{sort_floats, median as float_median}
use foliot.Bench.Corpus.{TaskRecord, classes}
use foliot.Bench.Corpus.Load.{when}

-- How a column is aggregated, and `reportColumns`.
pub data Kind : Type 0 where
  mean : Kind
  median : Kind
  counts : Kind

abbrev pub report_columns : List (String × Kind)
report_columns =
    ("pass_rate", mean)
    ∷ ("false_claim_rate", mean)
    ∷ ("input_tokens", mean)
    ∷ ("output_tokens", mean)
    ∷ ("cache_read", mean)
    ∷ ("cache_write", mean)
    ∷ ("cost_usd", mean)
    ∷ ("wall_ms", median)
    ∷ ("cpu_ms", median)
    ∷ ("load_at_start", median)
    ∷ ("ended_by", counts)
    ∷ ("denials_in_scope", mean)
    ∷ ("refusals_routed", mean)
    ∷ ("questions_after", mean)
    ∷ ("orchestrator_tokens", mean)
    ∷ ("billing", counts)
    ∷ []

pub data Refusal : Type 0 where
  no_arm : Refusal
  arm_unrun : String → Refusal
  class_unrun : String → String → Refusal
  column_unread : String → String → String → Refusal

-- A figure of a row: refused, the counts of a column's words, or a number with its spread over the
-- repeats, if there are more than one, and the number of runs without a reading.
pub data Figure (F : Type 0) : Type 0 where
  refused : Figure F
  counted : List (String × ℕ) → Figure F
  figure : F → Option F → ℕ → Figure F

pub record Row (F : Type 0) : Type 0 where
  pub arm : String
  pub label : String
  pub runs : ℕ
  pub figures : List (String × Figure F)

-- The words of a column, counted.
abbrev pub count_word : String → List (String × ℕ) → List (String × ℕ)
count_word w [] = (w, 1) ∷ []
count_word w ((v, n) ∷ ws) =
    let rest = count_word w ws in if v =s= w then (v, n + 1) ∷ ws else (v, n) ∷ rest

module _ (fl : Float) where
  abbrev pub of_bool : Bool → fl.F
  of_bool b = if b then fl.of_ℕ 1 else fl.of_ℕ 0

  -- A column's reading that is a number or a word; null and a missing one are none.
  abbrev pub known_column : Option (Column fl.F) → Option (Column fl.F)
  known_column none = none
  known_column (some null) = none
  known_column (some (number x)) = some (number x)
  known_column (some (word w)) = some (word w)

  -- `value`. The runs that are reported have a verdict.
  abbrev pub value_of : Option (BenchVerdict fl.F) → String → Option (Column fl.F)
  value_of none name = none
  value_of (some v) name =
      if name =s= "pass_rate"
      then some (number (of_bool v.pass))
      else if name =s= "false_claim_rate"
      then some (number (of_bool v.false_claim))
      else known_column (lookup name v.columns)

  abbrev pub add_number : ℤ → Option (Column fl.F) → List (ℤ × fl.F) → List (ℤ × fl.F)
  add_number r none xs = xs
  add_number r (some null) xs = xs
  add_number r (some (number x)) xs = (r, x) ∷ xs
  add_number r (some (word w)) xs = xs

  -- `all`, each with its repeat.
  abbrev pub numbers_of : String → List (RunRecord fl.F) → List (ℤ × fl.F)
  numbers_of name [] = []
  numbers_of name (r ∷ rs) = add_number r.run.repeat (value_of r.verdict name) (numbers_of name rs)

  abbrev pub add_word : Option (Column fl.F) → List (String × ℕ) → List (String × ℕ)
  add_word none ws = ws
  add_word (some null) ws = ws
  add_word (some (number x)) ws = ws
  add_word (some (word w)) ws = count_word w ws

  -- `counts`
  abbrev pub words_of : String → List (RunRecord fl.F) → List (String × ℕ)
  words_of name [] = []
  words_of name (r ∷ rs) = add_word (value_of r.verdict name) (words_of name rs)

  abbrev sum_of : fl.F → List fl.F → fl.F
  sum_of n [] = n
  sum_of n (x ∷ xs) = sum_of (fl.add n x) xs

  abbrev or_zero : Option fl.F → fl.F
  or_zero none = fl.zero_f
  or_zero (some x) = x

  -- `aggregate`, of at least one number.
  unfoldable pub aggregate : Kind → List fl.F → fl.F
  unfolding sort_floats float_median
  aggregate median xs = or_zero (float_median fl xs)
  aggregate mean xs = fl.div (sum_of fl.zero_f (sort_floats fl xs)) (fl.of_ℕ (length xs))
  aggregate counts xs = fl.div (sum_of fl.zero_f (sort_floats fl xs)) (fl.of_ℕ (length xs))

  -- `byRepeat`
  abbrev pub add_repeat : ℤ → fl.F → List (ℤ × List fl.F) → List (ℤ × List fl.F)
  add_repeat r x [] = (r, x ∷ []) ∷ []
  add_repeat r x ((q, xs) ∷ gs) =
      let rest = add_repeat r x gs in if q ==ℤ r then (q, x ∷ xs) ∷ gs else (q, xs) ∷ rest

  abbrev pub by_repeat : List (ℤ × fl.F) → List (ℤ × List fl.F)
  by_repeat [] = []
  by_repeat ((r, x) ∷ xs) = add_repeat r x (by_repeat xs)

  abbrev values_only : List (ℤ × fl.F) → List fl.F
  values_only xs = map (λ p. p.1) xs

  abbrev pub lowest : fl.F → List fl.F → fl.F
  lowest lo [] = lo
  lowest lo (x ∷ xs) = lowest (if fl.lt_f x lo then x else lo) xs

  abbrev pub highest : fl.F → List fl.F → fl.F
  highest hi [] = hi
  highest hi (x ∷ xs) = highest (if fl.lt_f hi x then x else hi) xs

  abbrev pub range_of : List fl.F → Option fl.F
  range_of [] = none
  range_of (x ∷ []) = none
  range_of (x ∷ y ∷ xs) = some (fl.sub (highest x (y ∷ xs)) (lowest x (y ∷ xs)))

  -- The spread: of the aggregates of the repeats, if there is more than one repeat.
  abbrev pub spread_of : Kind → List (ℤ × fl.F) → Option fl.F
  spread_of k xs = range_of (map (λ g. aggregate k g.1) (by_repeat xs))

  abbrev pub number_figure : Kind → ℕ → List (ℤ × fl.F) → Figure fl.F
  number_figure k n [] = refused
  number_figure k n (x ∷ xs) =
      figure (aggregate k (values_only (x ∷ xs))) (spread_of k (x ∷ xs)) (n - length (x ∷ xs))

  abbrev pub word_figure : List (String × ℕ) → Figure fl.F
  word_figure [] = refused
  word_figure (w ∷ ws) = counted (w ∷ ws)

  abbrev pub figure_of : String × Kind → List (RunRecord fl.F) → Figure fl.F
  figure_of (name, counts) rs = word_figure (words_of name rs)
  figure_of (name, mean) rs = number_figure mean (length rs) (numbers_of name rs)
  figure_of (name, median) rs = number_figure median (length rs) (numbers_of name rs)

  abbrev pub is_refused : Figure fl.F → Bool
  is_refused refused = true
  is_refused (counted ws) = false
  is_refused (figure x s n) = false

  -- `row`: a refusal for every column with no known value.
  abbrev pub figures_of : List (String × Kind) → List (RunRecord fl.F) → List (String × Figure fl.F)
  figures_of [] rs = []
  figures_of (c ∷ cs) rs = (c.0, figure_of c rs) ∷ figures_of cs rs

  abbrev pub figure_refusals : String → String → List (String × Figure fl.F) → List Refusal
  figure_refusals arm label [] = []
  figure_refusals arm label ((name, f) ∷ fs) =
      when (is_refused f) (column_unread arm label name) ++ figure_refusals arm label fs

  abbrev pub row : String → String → List (RunRecord fl.F) → Row fl.F × List Refusal
  row arm label rs =
      let figures = figures_of report_columns rs in
      (
        record { arm = arm; label = label; runs = length rs; figures = figures },
        figure_refusals arm label figures,
      )

  abbrev pub runs_of_arm : String → List (RunRecord fl.F) → List (RunRecord fl.F)
  runs_of_arm arm [] = []
  runs_of_arm arm (r ∷ rs) =
      let rest = runs_of_arm arm rs in if r.run.arm =s= arm then r ∷ rest else rest

  abbrev pub runs_of_class : String → List (RunRecord fl.F) → List (RunRecord fl.F)
  runs_of_class class [] = []
  runs_of_class class (r ∷ rs) =
      let rest = runs_of_class class rs in if r.run.class =s= class then r ∷ rest else rest

  abbrev pub is_empty_runs : List (RunRecord fl.F) → Bool
  is_empty_runs [] = true
  is_empty_runs (r ∷ rs) = false

  abbrev pub label_of : String → String
  label_of class = if class =s= "defect" then "defect(gating)" else class

  -- The rows of an arm by class, of the classes in scope.
  abbrev pub class_row : String → String → List (RunRecord fl.F) → List (Row fl.F) × List Refusal
  class_row arm class rs =
      if is_empty_runs rs
      then ([], class_unrun arm class ∷ [])
      else (let (line, refusals) = row arm (label_of class) rs in (line ∷ [], refusals))

  abbrev pub both_of :
      List (Row fl.F) × List Refusal
      → List (Row fl.F) × List Refusal
      → List (Row fl.F) × List Refusal
  both_of (a, b) (c, d) = (a ++ c, b ++ d)

  abbrev pub class_rows :
      String → List String → List String → List (RunRecord fl.F) → List (Row fl.F) × List Refusal
  class_rows arm in_scope [] rs = ([], [])
  class_rows arm in_scope (class ∷ cs) rs =
      let rest = class_rows arm in_scope cs rs in
      if not (contains class in_scope)
      then rest
      else both_of (class_row arm class (runs_of_class class rs)) rest

  abbrev pub arm_rows :
      String → List String → List (RunRecord fl.F) → List (Row fl.F) × List Refusal
  arm_rows arm in_scope rs =
      if is_empty_runs rs
      then ([], arm_unrun arm ∷ [])
      else (let (line, refusals) = row arm "all" rs in
          both_of (line ∷ [], refusals) (class_rows arm in_scope classes rs))

  abbrev pub all_rows :
      List String → List String → List (RunRecord fl.F) → List (Row fl.F) × List Refusal
  all_rows [] in_scope rs = ([], [])
  all_rows (arm ∷ arms) in_scope rs =
      both_of (arm_rows arm in_scope (runs_of_arm arm rs)) (all_rows arms in_scope rs)

  -- Every arm with a run in scope, in the order each first ran.
  abbrev pub arms_run : List String → List (RunRecord fl.F) → List String
  arms_run seen [] = []
  arms_run seen (r ∷ rs) =
      let rest = arms_run (if contains r.run.arm seen then seen else r.run.arm ∷ seen) rs in
      if contains r.run.arm seen then rest else r.run.arm ∷ rest

  abbrev pub arms_of : List String → List (RunRecord fl.F) → List String
  arms_of [] rs = arms_run [] rs
  arms_of (a ∷ arms) rs = a ∷ arms

  abbrev pub no_arms : List String → List Refusal
  no_arms [] = no_arm ∷ []
  no_arms (a ∷ arms) = []

  -- The runs of the corpus in scope that have a verdict.
  abbrev pub in_report : String → List String → List (RunRecord fl.F) → List (RunRecord fl.F)
  in_report corpus scope [] = []
  in_report corpus scope (r ∷ rs) =
      let rest = in_report corpus scope rs in
      if (r.run.corpus =s= corpus) && (contains r.run.task scope && not (is_none r.verdict))
      then r ∷ rest
      else rest

  -- tasks[id], under the name of its directory, with the record that LoadTask returns, whatever it refuses.
  abbrev find_class : String → List (String × TaskRecord) → Option String
  find_class id [] = none
  find_class id ((dir, t) ∷ ts) = if dir =s= id then some t.class else find_class id ts

  -- The classes of the tasks in scope, none if a task is not in the corpus.
  abbrev pub scope_classes : List (String × TaskRecord) → List String → Option (List String)
  scope_classes ts [] = some []
  scope_classes ts (id ∷ ids) =
      let rest = scope_classes ts ids in
      elim (find_class id ts) [
        | none ↦ none
        | some c ↦ elim rest [ none ↦ none | some cs ↦ some (c ∷ cs) ]
      ]

  abbrev pub scope_of : List (String × TaskRecord) → List String → List String
  scope_of ts [] = map (λ p. p.0) ts
  scope_of ts (id ∷ ids) = id ∷ ids

  abbrev pub report_in :
      String
      → List String
      → List String
      → List String
      → List (RunRecord fl.F)
      → List (Row fl.F) × List Refusal
  report_in corpus scope in_scope named records =
      let rs = in_report corpus scope records in
      let arms = arms_of named rs in both_of ([], no_arms arms) (all_rows arms in_scope rs)

  -- `Report`, of the tasks of the corpus under their directories, the tasks and arms that are named, and the runs of the log:
  -- none if a named task is not in the corpus, else the rows and the refusals.
  unfoldable pub report :
      String
      → List (String × TaskRecord)
      → List String
      → List String
      → List (RunRecord fl.F)
      → Option (List (Row fl.F) × List Refusal)
  unfolding aggregate
  report corpus ts tasks arms records = elim (scope_classes ts (scope_of ts tasks)) [
    | none ↦ none
    | some in_scope ↦ some (report_in corpus (scope_of ts tasks) in_scope arms records)
  ]

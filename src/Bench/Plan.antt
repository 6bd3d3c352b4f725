-- ===== src/Bench/Plan.antt =====
-- src/core/bench/runner.go: `plan`, `resume`, `projection` and `selectTasks`.
pub mod Resume
pub mod Budget
pub mod Cells
use mathlib.Core.List.{reverse}
use foliot.Common.{
  ℕ, zero, suc, String, ℤ, pos, negsuc, ltb_ℤ, ◌==ℤ◌, ==ℤ_iff, Bool, true, false, not, ◌||◌, ◌&&◌,
  Option, none, some, List, [], ◌∷◌, ◌++◌, map, is_none, if◌then◌else◌, ◌=s=◌, contains, lookup,
  ◌+◌,
}
use foliot.Common.Float.{Float}
use foliot.Log.Event.{Event}
use foliot.Log.Json.{Json}
use foliot.Log.Data.{BenchRun, BenchVerdict, BenchEstimate, RunRecord}
use foliot.Log.Fold.{Readers, runs, estimates}
use foliot.Bench.Profile.{Arm, repeats_of}

-- What the runner uses of `Task` (corpus.go).
pub record Task : Type 0 where
  pub id : String
  pub class : String
  pub repository : String
  pub base_sha : String
  pub landed_sha : String
  pub setup : String
  pub clock_at : String

-- `plannedRun`
pub record Planned (F : Type 0) : Type 0 where
  pub arm : Arm F
  pub task : Task
  pub repeat : ℤ
  pub cap : F

-- What `projection` returns: the projected cost by its basis, or the refusal with that cost.
pub data Projection (F : Type 0) : Type 0 where
  by_caps : F → Projection F
  by_estimate : F → Projection F
  over_budget : F → Projection F
  no_estimate : F → Projection F

abbrev pub is_zero : ℕ → Bool
is_zero zero = true
is_zero (suc n) = false

-- s.tasks[id]
abbrev pub find_task : List Task → String → Option Task
find_task [] i = none
find_task (t ∷ ts) i = if t.id =s= i then some t else find_task ts i

-- `selectTasks`, given the ids of the corpus if the command names none.
unfoldable pub select_tasks : List Task → List String → Option (List Task)
select_tasks tasks [] = some []
select_tasks tasks (i ∷ ids) =
    let rest = select_tasks tasks ids in
    elim (find_task tasks i) [
      | none ↦ none
      | some t ↦ elim rest [ none ↦ none | some ts ↦ some (t ∷ ts) ]
    ]

-- 1, 2, … up to a number of repeats
abbrev pub count_up : ℕ → ℕ → List ℤ
count_up i zero = []
count_up i (suc n) = pos i ∷ count_up (suc i) n

abbrev pub repeat_list : ℤ → List ℤ
repeat_list (pos n) = count_up 1 n
repeat_list (negsuc n) = []

module _ (fl : Float) where
  abbrev pub cap_for : fl.F → Arm fl.F → fl.F
  cap_for cap a = if fl.lt_f fl.zero_f cap then cap else a.cap_usd

  abbrev pub plan_task : Arm fl.F → ℤ → fl.F → Task → List (Planned fl.F)
  plan_task a repeats cap t =
      map (λ r. record { arm = a; task = t; repeat = r; cap = cap_for cap a })
        (repeat_list (repeats_of a repeats))

  abbrev pub plan_arm : List Task → ℤ → fl.F → Arm fl.F → List (Planned fl.F)
  plan_arm [] repeats cap a = []
  plan_arm (t ∷ ts) repeats cap a = plan_task a repeats cap t ++ plan_arm ts repeats cap a

  -- `plan`
  unfoldable pub plan : List (Arm fl.F) → List Task → ℤ → fl.F → List (Planned fl.F)
  plan [] tasks repeats cap = []
  plan (a ∷ arms) tasks repeats cap = plan_arm tasks repeats cap a ++ plan arms tasks repeats cap

-- `runKey` of runner.go
pub record DoneKey : Type 0 where
  pub task : String
  pub arm : String
  pub model : String
  pub repeat : ℤ

abbrev pub done_eq : DoneKey → DoneKey → Bool
done_eq a b =
    (a.task =s= b.task) && ((a.arm =s= b.arm) && ((a.model =s= b.model) && (a.repeat ==ℤ b.repeat)))

abbrev pub is_in : DoneKey → List DoneKey → Bool
is_in k [] = false
is_in k (d ∷ ds) = done_eq d k || is_in k ds

module _ {F : Type 0} where
  abbrev pub done_key : Planned F → DoneKey
  done_key r = record { task = r.task.id; arm = r.arm.name; model = r.arm.model; repeat = r.repeat }

  abbrev pub is_reusable : String → String → Bool → RunRecord F → Bool
  is_reusable corpus sha dirty rec =
      not (is_none rec.verdict)
      && (not dirty && ((rec.run.corpus =s= corpus) && (rec.run.corpus_sha =s= sha)))

  -- The keys of `done`.
  abbrev pub done_keys : String → String → Bool → List (RunRecord F) → List DoneKey
  done_keys corpus sha dirty [] = []
  done_keys corpus sha dirty (rec ∷ recs) =
      let rest = done_keys corpus sha dirty recs in
      if is_reusable corpus sha dirty rec
      then record {
        task = rec.run.task;
        arm = rec.run.arm;
        model = rec.run.model;
        repeat = rec.run.repeat;
      }
        ∷ rest
      else rest

  abbrev pub keep_runs : List DoneKey → List (Planned F) → List (Planned F)
  keep_runs done [] = []
  keep_runs done (r ∷ rs) =
      let rest = keep_runs done rs in if is_in (done_key r) done then rest else r ∷ rest

  -- The keys of `left`.
  abbrev pub task_ids : List (Planned F) → List String
  task_ids [] = []
  task_ids (r ∷ rs) = r.task.id ∷ task_ids rs

abbrev pub keep_tasks : List String → List Task → List Task
keep_tasks left [] = []
keep_tasks left (t ∷ ts) =
    let rest = keep_tasks left ts in if contains t.id left then t ∷ rest else rest

module _ (fl : Float) where
  abbrev pub sum_caps : fl.F → List (Planned fl.F) → fl.F
  sum_caps acc [] = acc
  sum_caps acc (r ∷ rs) = sum_caps (fl.add acc r.cap) rs

  -- left[name]
  abbrev pub left_of : String → List (Planned fl.F) → ℕ
  left_of name [] = 0
  left_of name (r ∷ rs) =
      let rest = left_of name rs in if r.arm.name =s= name then suc rest else rest

  -- What an estimate projects: none if it does not cover an arm that has a run left.
  abbrev pub project :
      List (String × fl.F) → List (Planned fl.F) → fl.F → List (Arm fl.F) → Option fl.F
  project means planned acc [] = some acc
  project means planned acc (a ∷ arms) =
      if is_zero (left_of a.name planned)
      then project means planned acc arms
      else (elim (lookup a.name means) [
        | none ↦ none
        | some mean ↦
            project means planned (fl.add acc (fl.mul mean (fl.of_ℕ (left_of a.name planned)))) arms
      ])

  -- The newest estimate first: the first that is of the corpus and covers the arms.
  abbrev pub first_projection :
      String → List (Planned fl.F) → List (Arm fl.F) → List (BenchEstimate fl.F) → Option fl.F
  first_projection corpus planned arms [] = none
  first_projection corpus planned arms (est ∷ ests) =
      let rest = first_projection corpus planned arms ests in
      if est.corpus =s= corpus
      then (elim (project est.mean_cost_usd planned fl.zero_f arms) [
        | none ↦ rest
        | some p ↦ some p
      ])
      else rest

module _ (fl : Float) (j : Json) (read : Readers j.Raw fl.F) where
  -- `resume`, given the corpus's name, its sha and whether it is dirty, and the events that `Read` gave.
  unfoldable pub resume :
      String
      → String
      → Bool
      → List (Event j.Raw)
      → List (Planned fl.F)
      → List Task
      → List (Planned fl.F) × List Task
  unfolding runs
  resume corpus sha dirty events planned tasks =
      let keep = keep_runs (done_keys corpus sha dirty (runs j read events)) planned in
      (keep, keep_tasks (task_ids keep) tasks)

  -- `projection`: what it refuses, or what it projects and on what basis.
  unfoldable pub projection :
      String → List (Event j.Raw) → List (Planned fl.F) → List (Arm fl.F) → fl.F → Projection fl.F
  unfolding estimates
  projection corpus events planned arms budget =
      let caps = sum_caps fl fl.zero_f planned in
      if fl.le_f caps budget
      then by_caps caps
      else (elim (first_projection fl corpus planned arms (reverse (estimates j read events))) [
        | none ↦ no_estimate caps
        | some p ↦ if fl.lt_f budget p then over_budget p else by_estimate p
      ])

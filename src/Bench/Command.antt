-- ===== src/Bench/Command.antt =====
-- src/core/bench/runner.go: `Run` once the session is open, and the figures of `Estimate`.
pub mod Started
use foliot.Common.{
  ℕ, String, ℤ, pos, negsuc, Bool, true, false, Option, none, some, List, [], ◌∷◌, ◌++◌, length,
  if◌then◌else◌, ◌=s=◌, ◌==◌, ◌+◌,
}
use foliot.Common.Float.{Float}
use foliot.Log.Event.{Event}
use foliot.Log.Json.{Json}
use foliot.Log.Data.{BenchEstimate}
use foliot.Log.Fold.{Readers}
use foliot.Bench.Profile.{Arm, ArmsError, Parsed, refused, resolved, parse_arms, repeats_of}
use foliot.Bench.Plan.{
  Task, Planned, plan, select_tasks, resume, Projection, by_caps, by_estimate, over_budget,
  no_estimate, projection,
}

-- `SweepOptions`
pub record Options (F : Type 0) : Type 0 where
  pub arms : String
  pub tasks : List String
  pub repeats : ℤ
  pub budget_usd : F
  pub cap_usd : F
  pub no_resume : Bool

-- What `Run` does before its sweep: what it refuses, or the runs and tasks of the sweep (none if
-- every run has its verdict), with the cost that was projected.
pub data Prepared (F : Type 0) : Type 0 where
  arms_refused : ArmsError → Prepared F
  tasks_refused : Prepared F
  cost_refused : Projection F → Prepared F
  nothing_to_run : Prepared F
  to_sweep : F → List (Planned F) → List Task → Prepared F

-- The cost, if a projection lets the sweep start.
abbrev pub accepted : {F : Type 0} → Projection F → Option F
accepted (by_caps p) = some p
accepted (by_estimate p) = some p
accepted (over_budget p) = none
accepted (no_estimate p) = none

abbrev pub to_start : {F : Type 0} → F → List (Planned F) → List Task → Prepared F
to_start p [] tasks = nothing_to_run
to_start p (r ∷ rs) tasks = to_sweep p (r ∷ rs) tasks

-- `if len(ids) == 0 { ids = s.ids }`
abbrev pub ids_or_all : List String → List String → List String
ids_or_all [] all = all
ids_or_all (i ∷ ids) all = i ∷ ids

module _ (fl : Float) (j : Json) (read : Readers j.Raw fl.F) where
  abbrev pub start_planned :
      String
      → List (Event j.Raw)
      → List (Arm fl.F)
      → fl.F
      → List (Planned fl.F) × List Task
      → Prepared fl.F
  start_planned corpus events arms budget (runs, tasks) =
      let p = projection fl j read corpus events runs arms budget in
      elim (accepted p) [ none ↦ cost_refused p | some cost ↦ to_start cost runs tasks ]

  -- The plan, less what was run before unless the command says otherwise.
  abbrev pub planned_runs :
      String
      → String
      → Bool
      → List (Event j.Raw)
      → List (Arm fl.F)
      → List Task
      → Options fl.F
      → List (Planned fl.F) × List Task
  planned_runs corpus sha dirty events arms tasks o =
      let all = plan fl arms tasks o.repeats o.cap_usd in
      if o.no_resume then (all, tasks) else resume fl j read corpus sha dirty events all tasks

  abbrev pub prepare_arms :
      String
      → String
      → Bool
      → List (Event j.Raw)
      → List Task
      → List String
      → Options fl.F
      → Parsed fl.F
      → Prepared fl.F
  prepare_arms corpus sha dirty events tasks ids o (refused e) = arms_refused e
  prepare_arms corpus sha dirty events tasks ids o (resolved arms) =
      elim (select_tasks tasks (ids_or_all o.tasks ids)) [
        | none ↦ tasks_refused
        | some ts ↦
            start_planned corpus events arms o.budget_usd
              (planned_runs corpus sha dirty events arms ts o)
      ]

  -- `Run` up to its sweep, given the corpus with its tasks and ids, the profile's arms and the events.
  unfoldable pub prepare_run :
      String
      → String
      → Bool
      → List (Event j.Raw)
      → List (Arm fl.F)
      → List Task
      → List String
      → Options fl.F
      → Prepared fl.F
  unfolding parse_arms select_tasks plan resume projection
  prepare_run corpus sha dirty events known tasks ids o =
      prepare_arms corpus sha dirty events tasks ids o (parse_arms known o.arms)

module _ (fl : Float) where
  abbrev costs_of : String → List (String × fl.F) → List fl.F
  costs_of name [] = []
  costs_of name ((n, c) ∷ costs) =
      let rest = costs_of name costs in if n =s= name then c ∷ rest else rest

  abbrev sum_of : fl.F → List fl.F → fl.F
  sum_of acc [] = acc
  sum_of acc (x ∷ xs) = sum_of (fl.add acc x) xs

  -- float64 of an int
  abbrev repeats_float : ℤ → fl.F
  repeats_float n = fl.of_ℤ n

  -- The loop of `Estimate` over the arms: none where an arm has not a known cost for each task.
  abbrev pub estimate_arms :
      List (String × fl.F)
      → ℕ
      → ℕ
      → ℤ
      → List (Arm fl.F)
      → BenchEstimate fl.F
      → Option (BenchEstimate fl.F)
  estimate_arms costs tasks all repeats [] est = some est
  estimate_arms costs tasks all repeats (a ∷ arms) est =
      let c = costs_of a.name costs in
      let mean = fl.div (sum_of fl.zero_f c) (fl.of_ℕ (length c)) in
      let rest = estimate_arms costs tasks all repeats arms (record est {
        arms = est.arms ++ (a.name ∷ []);
        mean_cost_usd = est.mean_cost_usd ++ ((a.name, mean) ∷ []);
        projected_usd =
            fl.add est.projected_usd
              (fl.mul (fl.mul mean (fl.of_ℕ all)) (repeats_float (repeats_of a repeats)));
      }) in
      if length c == tasks then rest else none

  -- `Estimate` after its sweep: the data of bench.estimate.
  unfoldable pub estimate :
      String
      → List String
      → List String
      → ℤ
      → List (Arm fl.F)
      → List (String × fl.F)
      → Option (BenchEstimate fl.F)
  estimate corpus all ids repeats arms costs =
      estimate_arms costs (length ids) (length all) repeats arms (record {
        corpus = corpus;
        arms = [];
        repeats = repeats;
        tasks = ids;
        mean_cost_usd = [];
        projected_usd = fl.zero_f;
        corpus_tasks = pos (length all);
      })

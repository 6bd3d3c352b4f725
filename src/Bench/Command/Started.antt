-- ===== src/Bench/Command/Started.antt =====
-- What `Run` has shown when its sweep starts (src/core/bench/runner.go).
use foliot.Common.{String, ◌≡◌, ◌≢◌, ◌⊎◌, ◌↔◌, Bool, true, false, List, [], ◌∷◌, map, ◌=s=◌}
use foliot.Common.Float.{Float}
use foliot.Log.Event.{Event}
use foliot.Log.Json.{Json}
use foliot.Log.Fold.{Readers, runs, estimates}
use foliot.Bench.Strings.{split_on, trim_space}
use foliot.Bench.Profile.{Arm}
use foliot.Bench.Profile.Arms.{Resolves}
use foliot.Bench.Plan.{Task, Planned}
use foliot.Bench.Plan.Budget.{Newest, caps}
use foliot.Bench.Plan.Cells.{In, IsPlanned}
use foliot.Bench.Plan.Resume.{Without, has_verdict, has_no_run}
use foliot.Bench.Command.{Options, Prepared}
use mathlib.Core.List.{reverse}

-- Tasks of a corpus, one with each of the ids, in order.
pub data Picks (tasks : List Task) : List String → List Task → Type 0 where
  no_ids : Picks tasks [] []
  pick :
      {i : String} {ids : List String} {t : Task} {ts : List Task}
      → (t.id =s= i) ≡ true
      → In t tasks
      → Picks tasks ids ts
      → Picks tasks (i ∷ ids) (t ∷ ts)

module _ (fl : Float) (j : Json) (read : Readers j.Raw fl.F) (corpus sha : String) (dirty : Bool)
    (events : List (Event j.Raw)) (known : List (Arm fl.F)) (tasks : List Task) (ids : List String)
    (o : Options fl.F) where
  -- The ids that the command names, or where it names none, those of the corpus.
  abbrev pub Asked : List String → Type 0
  Asked wanted = ((o.tasks ≡ []) × (wanted ≡ ids)) ⊎ ((o.tasks ≢ []) × (wanted ≡ o.tasks))

  -- What is left of a plan and of its tasks: with no_resume all of both, else the runs without a verdict
  -- in the same clean corpus and of the same model, and the tasks with such a run.
  abbrev pub IsLeft : List (Planned fl.F) → List Task → List (Planned fl.F) → List Task → Type 0
  IsLeft whole selected rs left =
      ((o.no_resume ≡ true) × (rs ≡ whole) × (left ≡ selected))
      ⊎ ((o.no_resume ≡ false)
          × Without (has_verdict corpus sha dirty (runs j read events)) whole rs
          × Without (has_no_run rs) selected left)

  -- The runs cost this: their caps added up, or where these are over the budget, what the newest estimate
  -- that covers the arms puts them at.
  abbrev pub Costing : List (Arm fl.F) → List (Planned fl.F) → fl.F → Type 0
  Costing arms rs cost =
      (cost ≡ caps fl corpus rs arms)
      ⊎ ((fl.le_f (caps fl corpus rs arms) o.budget_usd ≡ false)
          × Newest fl corpus rs arms (reverse (estimates j read events)) cost)

  pub record Starts (cost : fl.F) (rs : List (Planned fl.F)) (left : List Task) : Type 0 where
    pub arms : List (Arm fl.F)
    pub wanted : List String
    pub selected : List Task
    pub whole : List (Planned fl.F)
    pub resolved : Resolves known [] (map trim_space (split_on 44 o.arms)) arms
    pub asked : Asked wanted
    pub picked : Picks tasks wanted selected
    pub planned : (r : Planned fl.F) → In r whole ↔ IsPlanned fl arms selected o.repeats o.cap_usd r
    pub not_run : IsLeft whole selected rs left
    pub some_run : rs ≢ []
    pub costing : Costing arms rs cost
    pub affordable : fl.le_f cost o.budget_usd ≡ true

  abbrev pub IsPrepared : Prepared fl.F → Type 0
  IsPrepared (Prepared.to_sweep cost rs left) = Starts cost rs left
  IsPrepared _ = Unit

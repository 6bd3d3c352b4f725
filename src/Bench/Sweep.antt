-- ===== src/Bench/Sweep.antt =====
-- src/core/bench/runner.go: `sweep` and `rateLimitOK`. What `verify`, `control` and the machine of the
-- probe answer are values; each run is `run_one` with the machine's answers to it.
pub mod Spend
use foliot.Common.{
  ℕ, String, Bool, true, false, not, ◌&&◌, Option, none, some, List, [], ◌∷◌, ◌++◌, if◌then◌else◌,
  ◌=s=◌,
}
use foliot.Common.Float.{Float}
use foliot.Bench.Plan.{Task, Planned}
use foliot.Bench.Probe.{ProbeReading, proven}
use foliot.Bench.Run.{Answers, Facts, Session, RunError, Outcome, Appending, failed, ok, run_one}

pub data SweepError : Type 0 where
  no_runs : SweepError
  other_adapter : String → String → SweepError  -- the arm and its adapter
  not_verified : SweepError
  control_failed : String → SweepError
  probe_failed : SweepError
  not_proven : SweepError
  rate_limited : SweepError
  no_fit : SweepError
  run_failed : RunError → SweepError

-- What `probe` returns of the worker's transcript, with the day of the pinned clock and the cost.
pub record Probed (F : Type 0) : Type 0 where
  pub reading : ProbeReading
  pub day : Option String
  pub cost_usd : Option F

-- What a sweep leaves: why it stopped (none at its end), the costs known for each arm in order, what
-- it has spent, the runs that it started, and the session.
pub record Swept (F : Type 0) : Type 0 where
  pub stopped : Option SweepError
  pub costs : List (String × F)
  pub spent : F
  pub started : List (Planned F)
  pub session : Session F

-- The first arm whose adapter is another.
abbrev pub other_arm : {F : Type 0} → String → List (Planned F) → Option (String × String)
other_arm adapter [] = none
other_arm adapter (r ∷ rs) =
    let rest = other_arm adapter rs in
    if r.arm.adapter =s= adapter then rest else some (r.arm.name, r.arm.adapter)

-- The first task whose control fails.
abbrev pub uncontrolled : (Task → Bool) → List Task → Option String
uncontrolled control [] = none
uncontrolled control (t ∷ ts) =
    let rest = uncontrolled control ts in if control t then rest else some t.id

module _ (fl : Float) (append_as : ℕ → Appending) (max_week : fl.F) where
  -- `rateLimitOK`
  abbrev pub rate_limit_ok : Option fl.F → Bool
  rate_limit_ok none = true
  rate_limit_ok (some w) = not (fl.le_f max_week w)

  -- A budget is there and a cap over what is spent does not fit it.
  abbrev pub over : fl.F → fl.F → fl.F → Bool
  over budget spent cap = fl.lt_f fl.zero_f budget && fl.lt_f budget (fl.add spent cap)

  -- What a run adds to what is spent: an unknown cost counts at the cap.
  abbrev pub charge : fl.F → Option fl.F → fl.F
  charge cap none = cap
  charge cap (some c) = c

  abbrev add_cost : String → Option fl.F → List (String × fl.F) → List (String × fl.F)
  add_cost name none costs = costs
  add_cost name (some c) costs = costs ++ ((name, c) ∷ [])

  abbrev pub stop : SweepError → Swept fl.F → Swept fl.F
  stop e s = record s { stopped = some e }

  abbrev pub start : Planned fl.F → Session fl.F → Swept fl.F → Swept fl.F
  start r session s = record s { started = s.started ++ (r ∷ []); session = session }

  abbrev pub pay : Planned fl.F → Option fl.F → Swept fl.F → Swept fl.F
  pay r cost s = record s {
    costs = add_cost r.arm.name cost s.costs;
    spent = fl.add s.spent (charge r.cap cost);
  }

  module _ (facts : Planned fl.F → Facts fl.F) (answers : Planned fl.F → Answers fl.F)
      (budget : fl.F) where
    -- The loop over the planned runs.
    unfoldable pub run_all : List (Planned fl.F) → Swept fl.F → Swept fl.F
    unfolding run_one
    run_all [] s = s
    run_all (r ∷ rs) s =
        if not (rate_limit_ok s.session.week_used)
        then stop rate_limited s
        else if over budget s.spent r.cap
        then stop no_fit s
        else (let (out, session) = run_one fl append_as (facts r) (answers r) r s.session in
            elim out [
              | failed e ↦ stop (run_failed e) (start r session s)
              | ok cost ↦ run_all rs (pay r cost (start r session s))
            ])

    abbrev pub unspent : Session fl.F → Swept fl.F
    unspent session = record {
      stopped = none;
      costs = [];
      spent = fl.zero_f;
      started = [];
      session = session;
    }

    -- `sweep`
    unfoldable pub sweep :
        Bool
        → (Task → Bool)
        → Option (Probed fl.F)
        → Session fl.F
        → List (Planned fl.F)
        → List Task
        → Swept fl.F
    unfolding proven
    sweep verified control probed session [] tasks = stop no_runs (unspent session)
    sweep verified control probed session (r ∷ rs) tasks = elim (other_arm r.arm.adapter rs) [
      | some n ↦ stop (other_adapter n.0 n.1) (unspent session)
      | none ↦
          if not verified
          then stop not_verified (unspent session)
          else (elim (uncontrolled control tasks) [
            | some t ↦ stop (control_failed t) (unspent session)
            | none ↦ (elim probed [
              | none ↦ stop probe_failed (unspent session)
              | some p ↦
                  if not (proven p.reading p.day)
                  then stop not_proven (unspent session)
                  else run_all (r ∷ rs)
                      (record (unspent session) { spent = charge r.cap p.cost_usd })
            ])
          ])
    ]

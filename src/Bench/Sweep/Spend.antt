-- ===== src/Bench/Sweep/Spend.antt =====
-- What a sweep spends and checks (src/core/bench/runner.go, `sweep`).
use mathlib.Core.Path.{subst}
use mathlib.Core.List.{append-nil, append_assoc}
use foliot.Common.{
  ℕ, ◌≡◌, ◌⊎◌, refl, sym, ◌∙◌, ◌++◌, ◌&&◌, Bool-cases, All, Bool, true, false, not, Option, none,
  some, List, [], ◌∷◌, arith, if-induct, Option-induct, inl, inr,
}
use foliot.Common.Float.{Float}
use foliot.Bench.Plan.{Task, Planned}
use foliot.Bench.Probe.{Reading, proven}
use foliot.Bench.Run.{Answers, Facts, Session, RunError, Outcome, Appending}
use foliot.Bench.Run.Recorded.{IsEnd, run_one-IsEnd, positive}
use foliot.Bench.Sweep.{
  SweepError, Probed, Swept, other_arm, uncontrolled, rate_limit_ok, over, charge, unspent, stop,
  start, pay, run_all, sweep,
}

some-none : {A : Type 0} {a : A} → some a ≡ Option.none → ⊥
some-none h = cc

module _ (fl : Float) (append_as : ℕ → Appending) (max_week : fl.F)
    (facts : Planned fl.F → Facts fl.F) (answers : Planned fl.F → Answers fl.F)
    (budget : fl.F) where
  -- There is no budget, or a cap over what is spent still fits it.
  abbrev pub Fits : fl.F → fl.F → Type 0
  Fits spent cap = (fl.lt_f fl.zero_f budget ≡ false) ⊎ (fl.le_f (fl.add spent cap) budget ≡ true)

  -- From a spend on: the planned runs, those of them that are started, in order, why the loop stops, if it
  -- does before their end, and the spend at the end. Each run is started when its cap still fits, and adds
  -- the cost that its own stream reads, or its cap where that is not known.
  pub data Spends
      : fl.F → List (Planned fl.F) → List (Planned fl.F) → Option SweepError → fl.F → Type 0 where
    all_run : {spent : fl.F} → Spends spent [] [] none spent
    limited :
        {spent : fl.F} {r : Planned fl.F} {rs : List (Planned fl.F)}
        → Spends spent (r ∷ rs) [] (some SweepError.rate_limited) spent
    no_room :
        {spent : fl.F} {r : Planned fl.F} {rs : List (Planned fl.F)}
        → fl.lt_f fl.zero_f budget ≡ true
        → fl.lt_f budget (fl.add spent r.cap) ≡ true
        → Spends spent (r ∷ rs) [] (some SweepError.no_fit) spent
    not_finished :
        {spent : fl.F} {r : Planned fl.F} {rs : List (Planned fl.F)} {e : RunError}
        → Fits spent r.cap
        → Spends spent (r ∷ rs) (r ∷ []) (some (SweepError.run_failed e)) spent
    cost_known :
        {spent c total : fl.F} {r : Planned fl.F} {rs started : List (Planned fl.F)}
        {e : Option SweepError} {st : Reading fl.F}
        → Fits spent r.cap
        → (answers r).stream ≡ some st
        → st.cost_usd ≡ some c
        → Spends (fl.add spent c) rs started e total
        → Spends spent (r ∷ rs) (r ∷ started) e total
    cost_unknown :
        {spent total : fl.F} {r : Planned fl.F} {rs started : List (Planned fl.F)}
        {e : Option SweepError} {st : Reading fl.F}
        → Fits spent r.cap
        → (answers r).stream ≡ some st
        → st.cost_usd ≡ none
        → Spends (fl.add spent r.cap) rs started e total
        → Spends spent (r ∷ rs) (r ∷ started) e total

  over-Fits :
      (spent cap : fl.F) → over fl append_as max_week budget spent cap ≡ false → Fits spent cap
  over-Fits spent cap h = elim (Bool-cases (fl.lt_f fl.zero_f budget)) [
    | inl t ↦ inr (fl.not_lt _ _ (ground (arith, h, t)))
    | inr f ↦ inl f
  ]

  paid-Spends :
      (spent total : fl.F) (r : Planned fl.F) (rs started : List (Planned fl.F))
      (e : Option SweepError) (st : Reading fl.F) (cost : Option fl.F)
      → Fits spent r.cap
      → (answers r).stream ≡ some st
      → st.cost_usd ≡ cost
      → Spends (fl.add spent (charge fl append_as max_week r.cap cost)) rs started e total
      → Spends spent (r ∷ rs) (r ∷ started) e total
  paid-Spends spent total r rs started e st none f a c s = Spends.cost_unknown f a c s
  paid-Spends spent total r rs started e st (some x) f a c s = Spends.cost_known f a c s

  -- What a loop over runs adds to what it was started with.
  abbrev pub Adds : List (Planned fl.F) → Swept fl.F → Swept fl.F → Type 0
  Adds rs s x =
      (more : List (Planned fl.F)) × (x.started ≡ s.started ++ more)
      × Spends s.spent rs more x.stopped x.spent

  both : (b c : Bool) → (b && c) ≡ true → (b ≡ true) × (c ≡ true)
  both b c h = ground (arith, h)

  run_all-Adds :
      (rs : List (Planned fl.F)) (s : Swept fl.F)
      → s.stopped ≡ none
      → Adds rs s (run_all fl append_as max_week facts answers budget rs s)
  unfolding run_all
  run_all-Adds [] s n = (
    [],
    sym (append-nil s.started),
    subst (λ o. Spends s.spent [] [] o s.spent) (sym n) Spends.all_run,
  )
  run_all-Adds (r ∷ rs) s n =
      if-induct P (not (rate_limit_ok fl append_as max_week s.session.week_used)) _ _
        (λ _. ([], sym (append-nil s.started), Spends.limited))
        (λ _.
          if-induct P (over fl append_as max_week budget s.spent r.cap) _ _
            (λ o. (let (b, n) = both _ _ o in ([], sym (append-nil s.started), Spends.no_room b n)))
            (λ o.
              go (λ s' k. run_all-Adds rs s' k) (over-Fits s.spent r.cap o) _
                (run_one-IsEnd fl append_as (facts r) (answers r) r s.session)))
    where
      P : Swept fl.F → Type 0
      P x = Adds (r ∷ rs) s x

      go :
          ((s' : Swept fl.F)
            → s'.stopped ≡ none
            → Adds rs s' (run_all fl append_as max_week facts answers budget rs s'))
          → Fits s.spent r.cap
          → (o : Outcome (Option fl.F) × Session fl.F)
          → IsEnd fl append_as (facts r) (answers r) r s.session o
          → P (elim o.0 [
            | Outcome.failed e ↦
                stop fl append_as max_week
                  (SweepError.run_failed e)
                  (start fl append_as max_week r o.1 s)
            | Outcome.ok cost ↦
                run_all fl append_as max_week facts answers budget rs
                  (pay fl append_as max_week r cost (start fl append_as max_week r o.1 s))
          ])
      go rec f (Outcome.failed e, s') h = (r ∷ [], refl, Spends.not_finished f)
      go rec f (Outcome.ok cost, s') h =
          let (more, e, x) =
            rec (pay fl append_as max_week r cost (start fl append_as max_week r s' s)) n in
          (
            r ∷ more,
            e ∙ append_assoc s.started (r ∷ []) more,
            paid-Spends s.spent _ r rs more _ h.reading cost f h.ran.0 (sym h.cost_read) x,
          )

  -- The cost of the probe: its cap where it is not known.
  abbrev pub paid : fl.F → Option fl.F → fl.F
  paid cap none = cap
  paid cap (some c) = c

  charge-paid :
      (cap : fl.F) (cost : Option fl.F) → charge fl append_as max_week cap cost ≡ paid cap cost
  charge-paid cap none = refl
  charge-paid cap (some c) = refl

  -- A loop whose spend so far is what the probe cost.
  abbrev after_probe : Session fl.F → fl.F → Option fl.F → List (Planned fl.F) → Swept fl.F
  after_probe session cap cost runs =
      run_all fl append_as max_week facts answers budget runs
        (record (unspent fl append_as max_week facts answers budget session) {
          spent = charge fl append_as max_week cap cost;
        })

  accounted :
      (session : Session fl.F) (cap : fl.F) (cost : Option fl.F) (runs : List (Planned fl.F))
      → Spends
          (paid cap cost)
          runs
          (after_probe session cap cost runs).started
          (after_probe session cap cost runs).stopped
          (after_probe session cap cost runs).spent
  accounted session cap cost runs =
      let x = after_probe session cap cost runs in
      let (more, e, s) =
        run_all-Adds runs
          (record (unspent fl append_as max_week facts answers budget session) {
            spent = charge fl append_as max_week cap cost;
          })
          refl in
      subst (λ z. Spends z runs x.started x.stopped x.spent) (charge-paid cap cost)
        (subst (λ z. Spends (charge fl append_as max_week cap cost) runs z x.stopped x.spent)
          (sym e) s)

  uncontrolled-none :
      (control : Task → Bool) (tasks : List Task)
      → uncontrolled control tasks ≡ none
      → All (λ t. control t ≡ true) tasks
  uncontrolled-none control [] h = tt
  uncontrolled-none control (t ∷ ts) h = elim (Bool-cases (control t)) [
    | inl y ↦ (y, uncontrolled-none control ts (rw y at h))
    | inr n ↦ absurd (some-none (rw n at h))
  ]

  -- No run was started, or everything was checked before the first was, and the spend is accounted for.
  abbrev pub IsSafe :
      Bool
      → (Task → Bool)
      → Option (Probed fl.F)
      → fl.F
      → List (Planned fl.F)
      → List Task
      → Swept fl.F
      → Type 0
  IsSafe verified control probed cap runs tasks x =
      (x.started ≡ [])
      ⊎ ((p : Probed fl.F) × (probed ≡ some p)
          × (proven p.reading p.day ≡ true)
          × (verified ≡ true)
          × All (λ t. control t ≡ true) tasks
          × Spends (paid cap p.cost_usd) runs x.started x.stopped x.spent)

  -- A sweep starts a run only if the tasks are verified, each one's control passes and the probe proves
  -- the isolation. It then starts the planned runs in order from the first, up to its end, a refusal of the
  -- rate limit, a run whose cap does not fit the budget, or a run that fails. Each is started with its cap
  -- still fitting the budget, if there is one, over the cost of the probe and of the runs before it, where
  -- the cost that a stream reads counts, and the cap where it reads none.
  pub sweep-IsSafe :
      (verified : Bool) (control : Task → Bool) (probed : Option (Probed fl.F))
      (session : Session fl.F) (r : Planned fl.F) (rs : List (Planned fl.F)) (tasks : List Task)
      → IsSafe verified control probed r.cap (r ∷ rs) tasks (
          sweep fl append_as max_week facts answers budget verified control probed session
            (r ∷ rs)
            tasks)
  unfolding sweep
  sweep-IsSafe verified control probed session r rs tasks =
      Option-induct P (other_arm r.arm.adapter rs) _ _
        (λ _.
          if-induct P (not verified) _ _ (λ _. inl refl)
            (λ v.
              Option-induct P (uncontrolled control tasks) _ _
                (λ c.
                  Option-induct P probed _ _ (λ _. inl refl)
                    (λ p x.
                      if-induct P (not (proven p.reading p.day)) _ _ (λ _. inl refl)
                        (λ q. inr (
                          p,
                          x,
                          positive q,
                          positive v,
                          uncontrolled-none control tasks c,
                          accounted session r.cap p.cost_usd (r ∷ rs),
                        ))))
                (λ _ _. inl refl)))
        (λ _ _. inl refl)
    where
      P : Swept fl.F → Type 0
      P = IsSafe verified control probed r.cap (r ∷ rs) tasks

-- ===== src/Bench/Plan/Budget.antt =====
-- When `projection` lets a sweep start.
use mathlib.Core.List.{reverse}
use foliot.Common.{
  suc, String, ◌≡◌, ◌≢◌, ◌⊎◌, refl, sym, ap, ◌∙◌, true, false, Option, none, some, List, [], ◌∷◌,
  map, length, lookup, All, arith, ◌=s=◌, if◌then◌else◌, Bool-cases, Option-cases, inl, inr,
}
use foliot.Common.Float.{Float}
use foliot.Log.Event.{Event}
use foliot.Log.Json.{Json}
use foliot.Log.Data.{BenchEstimate}
use foliot.Log.Fold.{Readers, estimates}
use foliot.Bench.Profile.{Arm}
use foliot.Bench.Plan.{
  Planned, Projection, is_zero, left_of, sum_caps, project, first_projection, projection,
}

some_inj : {A : Type 0} {a b : A} → some a ≡ some b → a ≡ b
some_inj h = cc

none-some : {A : Type 0} {a : A} → Option.none ≡ some a → ⊥
none-some h = cc

-- The planned runs of an arm.
abbrev pub runs_of : {F : Type 0} → String → List (Planned F) → List (Planned F)
runs_of name [] = []
runs_of name (r ∷ rs) = let rest = runs_of name rs in if r.arm.name =s= name then r ∷ rest else rest

length-runs_of :
    (fl : Float) (name : String) (rs : List (Planned fl.F))
    → left_of fl name rs ≡ length (runs_of name rs)
length-runs_of fl name [] = refl
length-runs_of fl name (r ∷ rs) = elim (Bool-cases (r.arm.name =s= name)) [
  | inl t ↦ rw t (ap suc (length-runs_of fl name rs))
  | inr f ↦ rw f (length-runs_of fl name rs)
]

is_zero-nil : {A : Type 0} (xs : List A) → is_zero (length xs) ≡ true → xs ≡ []
is_zero-nil [] h = refl
is_zero-nil (x ∷ xs) h = absurd (ground (arith, h))

is_zero-not_nil : {A : Type 0} (xs : List A) → is_zero (length xs) ≡ false → xs ≢ []
is_zero-not_nil [] h = absurd (ground (arith, h))
is_zero-not_nil (x ∷ xs) h = λ e. cc

module _ (fl : Float) where
  -- The numbers of a list added in order, as the code adds them.
  abbrev pub summed : fl.F → List fl.F → fl.F
  summed acc [] = acc
  summed acc (x ∷ xs) = summed (fl.add acc x) xs

  sum_caps-summed :
      (acc : fl.F) (rs : List (Planned fl.F))
      → sum_caps fl acc rs ≡ summed acc (map (λ r. r.cap) rs)
  sum_caps-summed acc [] = refl
  sum_caps-summed acc (r ∷ rs) = sum_caps-summed (fl.add acc r.cap) rs

module _ (fl : Float) (corpus : String) (planned : List (Planned fl.F)) where
  -- The arms with a planned run have these costs: each its mean in the estimate, times its runs.
  pub data Costs (means : List (String × fl.F)) : List (Arm fl.F) → List fl.F → Type 0 where
    no_arm : Costs means [] []
    idle :
        {a : Arm fl.F} {arms : List (Arm fl.F)} {costs : List fl.F}
        → runs_of a.name planned ≡ []
        → Costs means arms costs
        → Costs means (a ∷ arms) costs
    covered :
        {a : Arm fl.F} {arms : List (Arm fl.F)} {mean : fl.F} {costs : List fl.F}
        → runs_of a.name planned ≢ []
        → lookup a.name means ≡ some mean
        → Costs means arms costs
        → Costs means (a ∷ arms) (fl.mul mean (fl.of_ℕ (length (runs_of a.name planned))) ∷ costs)

  -- Some arm has a planned run, and the estimate has no mean of it.
  pub data Uncovered (means : List (String × fl.F)) : List (Arm fl.F) → Type 0 where
    here :
        {a : Arm fl.F} {arms : List (Arm fl.F)}
        → runs_of a.name planned ≢ []
        → lookup a.name means ≡ none
        → Uncovered means (a ∷ arms)
    there :
        {a : Arm fl.F} {arms : List (Arm fl.F)} → Uncovered means arms → Uncovered means (a ∷ arms)

  -- What `project` gives from a sum on.
  abbrev Projects : List (String × fl.F) → fl.F → List (Arm fl.F) → Option fl.F → Type 0
  Projects means acc arms none = Uncovered means arms
  Projects means acc arms (some p) =
      (costs : List fl.F) × Costs means arms costs × (p ≡ summed fl acc costs)

  Projects-idle :
      (means : List (String × fl.F)) (acc : fl.F) (a : Arm fl.F) (arms : List (Arm fl.F))
      (o : Option fl.F)
      → runs_of a.name planned ≡ []
      → Projects means acc arms o
      → Projects means acc (a ∷ arms) o
  Projects-idle means acc a arms none z h = Uncovered.there h
  Projects-idle means acc a arms (some p) z (costs, c, e) = (costs, Costs.idle z c, e)

  Projects-covered :
      (means : List (String × fl.F)) (acc mean : fl.F) (a : Arm fl.F) (arms : List (Arm fl.F))
      (o : Option fl.F)
      → runs_of a.name planned ≢ []
      → lookup a.name means ≡ some mean
      → Projects means (fl.add acc (fl.mul mean (fl.of_ℕ (length (runs_of a.name planned))))) arms o
      → Projects means acc (a ∷ arms) o
  Projects-covered means acc mean a arms none n l h = Uncovered.there h
  Projects-covered means acc mean a arms (some p) n l (costs, c, e) =
      (_ ∷ costs, Costs.covered n l c, e)

  project-Projects :
      (means : List (String × fl.F)) (acc : fl.F) (arms : List (Arm fl.F))
      → Projects means acc arms (project fl means planned acc arms)
  project-Projects means acc [] = ([], Costs.no_arm, refl)
  project-Projects means acc (a ∷ arms) =
      rw (length-runs_of fl a.name planned)
        (elim (Bool-cases (is_zero (length (runs_of a.name planned)))) [
          | inl t ↦
              rw t (
                Projects-idle means acc a arms _ (is_zero-nil _ t)
                  (project-Projects means acc arms))
          | inr f ↦ rw f (elim (Option-cases (lookup a.name means)) [
            | inl n ↦ rw n (Uncovered.here (is_zero-not_nil _ f) n)
            | inr (mean, l) ↦
                rw (l, length-runs_of fl a.name planned)
                  (Projects-covered means acc mean a arms _ (is_zero-not_nil _ f) l (
                    project-Projects means
                      (fl.add acc (fl.mul mean (fl.of_ℕ (length (runs_of a.name planned))))) arms))
          ])
        ])

  module _ (arms : List (Arm fl.F)) where
    -- An estimate is of another corpus, or does not cover the arms with runs left.
    abbrev pub Useless : BenchEstimate fl.F → Type 0
    Useless est = ((est.corpus =s= corpus) ≡ false) ⊎ Uncovered est.mean_cost_usd arms

    -- The first estimate that is of the corpus and covers the arms with runs left puts them at this cost.
    pub data Newest : List (BenchEstimate fl.F) → fl.F → Type 0 where
      newest :
          {est : BenchEstimate fl.F} {ests : List (BenchEstimate fl.F)} {costs : List fl.F}
          → (est.corpus =s= corpus) ≡ true
          → Costs est.mean_cost_usd arms costs
          → Newest (est ∷ ests) (summed fl fl.zero_f costs)
      older :
          {est : BenchEstimate fl.F} {ests : List (BenchEstimate fl.F)} {p : fl.F}
          → Useless est
          → Newest ests p
          → Newest (est ∷ ests) p

    abbrev pub First : List (BenchEstimate fl.F) → Option fl.F → Type 0
    First ests none = All Useless ests
    First ests (some p) = Newest ests p

    First-older :
        (est : BenchEstimate fl.F) (ests : List (BenchEstimate fl.F)) (o : Option fl.F)
        → Useless est
        → First ests o
        → First (est ∷ ests) o
    First-older est ests none u h = (u, h)
    First-older est ests (some p) u h = Newest.older u h

    first_projection-First :
        (ests : List (BenchEstimate fl.F))
        → First ests (first_projection fl corpus planned arms ests)
    first_projection-First [] = tt
    first_projection-First (est ∷ ests) = elim (Bool-cases (est.corpus =s= corpus)) [
      | inr f ↦ rw f (First-older est ests _ (inl f) (first_projection-First ests))
      | inl t ↦ rw t (
          go (project fl est.mean_cost_usd planned fl.zero_f arms) t
            (project-Projects est.mean_cost_usd fl.zero_f arms) (first_projection-First ests))
    ]
      where
        go :
            (o : Option fl.F)
            → (est.corpus =s= corpus) ≡ true
            → Projects est.mean_cost_usd fl.zero_f arms o
            → First ests (first_projection fl corpus planned arms ests)
            → First
                (est ∷ ests)
                (elim o [ none ↦ first_projection fl corpus planned arms ests | some p ↦ some p ])
        go none t u h = First-older est ests _ (inr u) h
        go (some p) t (costs, c, e) h = rw e (Newest.newest t c)

    -- The caps of the planned runs, added in order.
    abbrev pub caps : fl.F
    caps = summed fl fl.zero_f (map (λ r. r.cap) planned)

    -- What a projection says, against a budget and the estimates, newest first.
    abbrev pub IsRight : fl.F → List (BenchEstimate fl.F) → Projection fl.F → Type 0
    IsRight budget ests (Projection.by_caps p) = (p ≡ caps) × (fl.le_f p budget ≡ true)
    IsRight budget ests (Projection.by_estimate p) =
        (fl.le_f caps budget ≡ false) × Newest ests p × (fl.le_f p budget ≡ true)
    IsRight budget ests (Projection.over_budget p) =
        (fl.le_f caps budget ≡ false) × Newest ests p × (fl.lt_f budget p ≡ true)
    IsRight budget ests (Projection.no_estimate p) =
        (p ≡ caps) × (fl.le_f caps budget ≡ false) × All Useless ests

    decide-IsRight :
        (budget : fl.F) (ests : List (BenchEstimate fl.F)) (c : fl.F) (o : Option fl.F)
        → c ≡ caps
        → First ests o
        → IsRight budget ests (
            if fl.le_f c budget then Projection.by_caps c else (elim o [
              | none ↦ Projection.no_estimate c
              | some p ↦
                  if fl.lt_f budget p then Projection.over_budget p else Projection.by_estimate p
            ]))
    decide-IsRight budget ests c o e h = elim (Bool-cases (fl.le_f c budget)) [
      | inl t ↦ rw t (e, t)
      | inr f ↦ rw f (dear o (ap (λ z. fl.le_f z budget) (sym e) ∙ f) h)
    ]
      where
        dear :
            (x : Option fl.F)
            → fl.le_f caps budget ≡ false
            → First ests x
            → IsRight budget ests (elim x [
              | none ↦ Projection.no_estimate c
              | some p ↦
                  if fl.lt_f budget p then Projection.over_budget p else Projection.by_estimate p
            ])
        dear none n u = (e, n, u)
        dear (some p) n u = elim (Bool-cases (fl.lt_f budget p)) [
          | inl l ↦ rw l (n, u, l)
          | inr g ↦ rw g (n, u, fl.not_lt budget p g)
        ]

    module _ (j : Json) (read : Readers j.Raw fl.F) where
      -- A projection is the sum of the planned runs' caps where that fits the budget. Else it is what the
      -- newest estimate of the corpus that has a mean of every arm with runs left puts these runs at, each
      -- arm's mean times its runs, which fits the budget or refuses the sweep; and with no such estimate
      -- the sweep is refused with the sum of the caps.
      pub projection-IsRight :
          (events : List (Event j.Raw)) (budget : fl.F)
          → IsRight budget
              (reverse (estimates j read events))
              (projection fl j read corpus events planned arms budget)
      unfolding projection
      projection-IsRight events budget =
          let ests = reverse (estimates j read events) in
          decide-IsRight budget ests (sum_caps fl fl.zero_f planned)
            (first_projection fl corpus planned arms ests) (sum_caps-summed fl fl.zero_f planned)
            (first_projection-First ests)

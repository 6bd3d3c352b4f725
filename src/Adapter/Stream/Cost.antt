-- ===== src/Adapter/Stream/Cost.antt =====
-- When a stream's figures are known (src/adapters/claude-code/stream.go, `readResult`).
use mathlib.Core.Path.{subst}
use foliot.Common.{
  ◌⊎◌, ◌↔◌, false, Option-cases, ℕ, ◌+◌, ◌^◌, ◌<◌, String, ℤ, pos, wrap_64_small, ◌≡◌, ◌≢◌, refl,
  sym, ap, ◌∙◌, true, Option, none, some, List, [], ◌∷◌, arith, Bool-cases, inl, inr,
}
use foliot.Common.Float.{Float}
use foliot.Adapter.Stream.{
  ModelUsage, Outcome, sum_from, token_sum, distance, cost_parts, close_to, known_cost,
  cost_of_result,
}

some_inj : {A : Type 0} {a b : A} → some a ≡ some b → a ≡ b
some_inj h = cc

none-some : {A : Type 0} {a : A} → Option.none ≡ some a → ⊥
none-some h = cc

module _ (fl : Float) (tolerance : fl.F) where
  -- From a sum on, the models' costs are these, each of them known, and add up in order to the last.
  pub data Sums : fl.F → List (String × ModelUsage fl.F) → fl.F → Type 0 where
    nothing_left : {n : fl.F} → Sums n [] n
    known :
        {n c parts : fl.F} {m : String} {u : ModelUsage fl.F} {us : List (String × ModelUsage fl.F)}
        → u.cost_usd ≡ some c
        → Sums (fl.add n c) us parts
        → Sums n ((m, u) ∷ us) parts

  -- Two numbers are apart by no more than the tolerance: the first less the second, or where that is
  -- negative its negation, is within it.
  abbrev pub IsClose : fl.F → fl.F → Type 0
  IsClose a b =
      ((fl.lt_f (fl.sub a b) fl.zero_f ≡ false) × (fl.le_f (fl.sub a b) tolerance ≡ true))
      ⊎ ((fl.lt_f (fl.sub a b) fl.zero_f ≡ true)
          × (fl.le_f (fl.sub fl.zero_f (fl.sub a b)) tolerance ≡ true))

  -- The costs of the models are all known and agree with a total.
  abbrev pub Agrees : Outcome fl.F → fl.F → Type 0
  Agrees r c =
      (r.total_cost_usd ≡ some c)
      × (r.model_usage ≢ [])
      × ((parts : fl.F) × Sums fl.zero_f r.model_usage parts × IsClose parts c)

  cost_parts-Sums :
      (n : fl.F) (us : List (String × ModelUsage fl.F)) (parts : fl.F)
      → cost_parts fl tolerance n us ≡ some parts
      → Sums n us parts
  cost_parts-Sums n [] parts h = subst (Sums n []) (some_inj h) Sums.nothing_left
  cost_parts-Sums n ((m, u) ∷ us) parts h = elim (Option-cases u.cost_usd) [
    | inl x ↦ absurd (none-some (rw x at h))
    | inr (c, x) ↦ Sums.known x (cost_parts-Sums (fl.add n c) us parts (rw x at h))
  ]

  Sums-cost_parts :
      {n : fl.F} {us : List (String × ModelUsage fl.F)} {parts : fl.F}
      → Sums n us parts
      → cost_parts fl tolerance n us ≡ some parts
  Sums-cost_parts Sums.nothing_left = refl
  Sums-cost_parts (Sums.known x s) = rw x (Sums-cost_parts s)

  distance-IsClose :
      (a b : fl.F) → (fl.le_f (distance fl tolerance a b) tolerance ≡ true) ↔ IsClose a b
  distance-IsClose a b = elim (Bool-cases (fl.lt_f (fl.sub a b) fl.zero_f)) [
    | inl t ↦ rw t (
      (λ h. inr (refl, h)),
      λ z. elim z [ inl (x, y) ↦ absurd (ground (arith, x)) | inr (x, y) ↦ y ],
    )
    | inr f ↦ rw f (
      (λ h. inl (refl, h)),
      λ z. elim z [ inl (x, y) ↦ y | inr (x, y) ↦ absurd (ground (arith, x)) ],
    )
  ]

  close_to-agrees :
      (t c : fl.F) (p : Option fl.F)
      → close_to fl tolerance t p ≡ some c
      → (t ≡ c)
        × ((parts : fl.F) × (p ≡ some parts)
            × (fl.le_f (distance fl tolerance parts c) tolerance ≡ true))
  close_to-agrees t c none h = absurd cc
  close_to-agrees t c (some parts) h =
      elim (Bool-cases (fl.le_f (distance fl tolerance parts t) tolerance)) [
        | inl y ↦
            (let e : t ≡ c = some_inj (rw y at h) in
              (
                e,
                (
                  parts,
                  refl,
                  ap (λ z. fl.le_f (distance fl tolerance parts z) tolerance) (sym e) ∙ y,
                ),
              ))
        | inr n ↦ ground (arith, rw n at h)
      ]

  known_cost-agrees :
      (t : Option fl.F) (us : List (String × ModelUsage fl.F)) (c : fl.F)
      → known_cost fl tolerance t us ≡ some c
      → (t ≡ some c)
        × (us ≢ [])
        × ((parts : fl.F) × (cost_parts fl tolerance fl.zero_f us ≡ some parts)
            × (fl.le_f (distance fl tolerance parts c) tolerance ≡ true))
  known_cost-agrees none us c h = absurd cc
  known_cost-agrees (some t) [] c h = absurd cc
  known_cost-agrees (some t) (u ∷ us) c h =
      let (e, p) = close_to-agrees t c (cost_parts fl tolerance fl.zero_f (u ∷ us)) h in
      (ap some e, (λ n. cc), p)

  agrees-known_cost :
      (t : Option fl.F) (us : List (String × ModelUsage fl.F)) (c parts : fl.F)
      → t ≡ some c
      → us ≢ []
      → cost_parts fl tolerance fl.zero_f us ≡ some parts
      → fl.le_f (distance fl tolerance parts c) tolerance ≡ true
      → known_cost fl tolerance t us ≡ some c
  agrees-known_cost none us c parts e n p y = absurd (none-some e)
  agrees-known_cost (some t) [] c parts e n p y = absurd (n refl)
  agrees-known_cost (some t) (u ∷ us) c parts e n p y =
      rw (some_inj e) (ap (close_to fl tolerance c) p ∙ within)
    where
      within : close_to fl tolerance c (some parts) ≡ some c
      within = rw y refl

  -- The cost of a result is known, and then its total, exactly if there is a total, a model is named,
  -- every model's cost is known, and their sum from 0 in order is within the tolerance of the total.
  pub cost_of_result-Agrees :
      (r : Outcome fl.F) (c : fl.F) → (cost_of_result fl tolerance r ≡ some c) ↔ Agrees r c
  unfolding cost_of_result
  cost_of_result-Agrees r c = (
    (λ h.
        let (e, n, (parts, p, y)) = known_cost-agrees r.total_cost_usd r.model_usage c h in
        (
          e,
          n,
          (parts, cost_parts-Sums fl.zero_f r.model_usage parts p, (distance-IsClose parts c).0 y),
        )),
    λ (e, n, (parts, p, y)).
        agrees-known_cost r.total_cost_usd r.model_usage c parts e n (Sums-cost_parts p)
          ((distance-IsClose parts c).1 y),
  )

-- The fields of the models, all known and not negative, as naturals.
abbrev pub Counted :
    {F : Type 0} → (ModelUsage F → Option ℤ) → List (String × ModelUsage F) → List ℕ → Type 0
Counted field [] [] = Unit
Counted field ((m, u) ∷ us) (n ∷ ns) = (field u ≡ some (pos n)) × Counted field us ns
Counted field _ _ = ⊥

abbrev pub total : List ℕ → ℕ
total [] = 0
total (n ∷ ns) = n + total ns

sum_from-total :
    {F : Type 0} (field : ModelUsage F → Option ℤ) (k : ℕ) (us : List (String × ModelUsage F))
    (ns : List ℕ)
    → Counted field us ns
    → k + total ns < 2 ^ 63
    → sum_from field (pos k) us ≡ some (pos (k + total ns))
sum_from-total field k [] [] c h = ground arith
sum_from-total field k [] (n ∷ ns) c h = elim c [ ]
sum_from-total field k ((m, u) ∷ us) [] c h = elim c [ ]
sum_from-total field k ((m, u) ∷ us) (n ∷ ns) (x, c) h =
    rw (x, sum_from, wrap_64_small (k + n) (omega (arith, h)))
      (sum_from-total field (k + n) us ns c (omega (arith, h))
        ∙ ap (λ z. some (pos z)) (omega arith))

-- Where every model of a result counts tokens and the total fits a signed 64-bit integer, the sum is
-- that total.
pub token_sum-total :
    {F : Type 0} (field : ModelUsage F → Option ℤ) (u : String × ModelUsage F)
    (us : List (String × ModelUsage F)) (ns : List ℕ)
    → Counted field (u ∷ us) ns
    → total ns < 2 ^ 63
    → token_sum field (u ∷ us) ≡ some (pos (total ns))
unfolding token_sum
token_sum-total field u us ns c h =
    sum_from-total field 0 (u ∷ us) ns c (omega (arith, h)) ∙ ap (λ z. some (pos z)) (omega arith)

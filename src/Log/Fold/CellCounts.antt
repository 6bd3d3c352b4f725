-- ===== src/Log/Fold/CellCounts.antt =====
-- The cells of `Fold`: what one (class, model) says of the runs that a verdict ended.
use mathlib.Core.List.{append-nil, append_assoc}
use foliot.Common.{
  ℕ, ◌+◌, ◌≡◌, refl, ap, ◌∙◌, Bool, true, false, Option, none, some, List, [], ◌∷◌, ◌++◌, length,
  length-append, arith, if◌then◌else◌, Bool-cases, inl, inr,
}
use native.Mathlib.Nat.{add_assoc, suc-add}
use foliot.Common.Assoc.{get, alter, get-alter}
use foliot.Log.Data.{BenchVerdict, RunRecord}
use foliot.Log.Fold.{
  CellKey, cell_key, cell_key_eq, cell_key_iff, cell_of, Tally, Cells, or_no_tally, count_verdict,
  cost_of, fold_cell, fold_cells,
}

count_if : (b : Bool) (n : ℕ) → (if b then n + 1 else n) ≡ n + (if b then 0 + 1 else 0)
count_if true n = omega arith
count_if false n = omega arith

module _ {F : Type 0} (k : CellKey) where
  -- The verdicts of a cell, in the order of its runs.
  abbrev pub verdict_in : RunRecord F → List (BenchVerdict F)
  verdict_in rec = elim rec.verdict [
    | none ↦ []
    | some v ↦ if cell_key_eq (cell_of rec.run) k then v ∷ [] else []
  ]

  unfoldable pub verdicts_in : List (RunRecord F) → List (BenchVerdict F)
  verdicts_in [] = []
  verdicts_in (r ∷ rs) = verdict_in r ++ verdicts_in rs

  abbrev pub passes : List (BenchVerdict F) → ℕ
  passes [] = 0
  passes (v ∷ vs) = if v.pass then passes vs + 1 else passes vs

  abbrev pub all_costs : List (BenchVerdict F) → List F
  all_costs [] = []
  all_costs (v ∷ vs) = cost_of v ++ all_costs vs

  -- What a cell holds after more verdicts: none where there is none.
  abbrev pub extended : Option (Tally F) → List (BenchVerdict F) → Option (Tally F)
  extended old [] = old
  extended old (v ∷ vs) = some (record {
    n = (or_no_tally old).n + length (v ∷ vs);
    pass = (or_no_tally old).pass + passes (v ∷ vs);
    costs = (or_no_tally old).costs ++ all_costs (v ∷ vs);
  })

  get-count :
      (m : Cells F) (c : CellKey) (o : Option (BenchVerdict F))
      → get k (elim o [ none ↦ m | some v ↦ alter c (λ old. count_verdict v (or_no_tally old)) m ])
        ≡ extended
            (get k m)
            (elim o [ none ↦ [] | some v ↦ if cell_key_eq c k then v ∷ [] else [] ])
  get-count m c none = refl
  get-count m c (some v) = elim (Bool-cases (cell_key_eq c k)) [
    | inl t ↦ rw (get-alter c k, t, (cell_key_iff c k).0 t, append-nil, count_if v.pass)
    | inr f ↦ rw (get-alter c k, f)
  ]

  get-fold_cell :
      (m : Cells F) (r : RunRecord F) → get k (fold_cell m r) ≡ extended (get k m) (verdict_in r)
  unfolding fold_cell
  get-fold_cell m r = get-count m (cell_of r.run) r.verdict

  passes-append : (us vs : List (BenchVerdict F)) → passes (us ++ vs) ≡ passes us + passes vs
  passes-append [] vs = omega arith
  passes-append (u ∷ us) vs = ground (arith, passes-append us vs)

  all_costs-append :
      (us vs : List (BenchVerdict F)) → all_costs (us ++ vs) ≡ all_costs us ++ all_costs vs
  all_costs-append [] vs = refl
  all_costs-append (u ∷ us) vs = rw (all_costs-append us vs, append_assoc)

  extended-append :
      (old : Option (Tally F)) (us vs : List (BenchVerdict F))
      → extended (extended old us) vs ≡ extended old (us ++ vs)
  extended-append old [] vs = refl
  extended-append old (u ∷ us) [] = simp append-nil
  extended-append old (u ∷ us) (v ∷ vs) = simp (
    length-append,
    passes-append (u ∷ us) (v ∷ vs),
    all_costs-append,
    append_assoc,
    add_assoc,
    suc-add,
  )

  -- `Fold` gives each (class, model) the number of the runs of it that have a verdict, the number of
  -- those that pass, and their known costs, in the order of the runs; the cell is there just if there
  -- is such a run or the cell was there before.
  pub get-fold_cells :
      (m : Cells F) (rs : List (RunRecord F))
      → get k (fold_cells m rs) ≡ extended (get k m) (verdicts_in rs)
  unfolding fold_cells verdicts_in
  get-fold_cells m [] = refl
  get-fold_cells m (r ∷ rs) =
      get-fold_cells (fold_cell m r) rs
      ∙ ap (λ o. extended o (verdicts_in rs)) (get-fold_cell m r)
      ∙ extended-append (get k m) (verdict_in r) (verdicts_in rs)

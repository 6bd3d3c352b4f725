-- ===== src/Log/Fold.antt =====
-- src/core/log/fold.go: `usable`, `Runs`, `Verified`, `Estimates` and `Fold`.
pub mod Keyed
pub mod CellCounts
use text.Mathlib.TextEquality.{eq_iff}
use foliot.Common.{
  ℕ, ◌+◌, ◌-◌, ◌/◌, ◌%◌, ◌≡◌, ◌↔◌, String, ℤ, pos, ltb_ℤ, ◌==ℤ◌, ==ℤ_iff, Bool, true, false, not,
  ◌&&◌, Option, none, some, List, [], ◌∷◌, ◌++◌, map, is_none, length, if◌then◌else◌, ◌=s=◌, ◌==◌,
  arith, lookup, get_elem?,
}
use foliot.Common.Assoc.{Eq, get, alter, adjust}
use foliot.Common.Float.{Float}
use foliot.Log.Event.{Event}
use foliot.Log.Check.{check}
use foliot.Log.Json.{Json}
use foliot.Log.Scan.{contains_seq}
use foliot.Log.Data.{
  BenchRun, BenchVerdict, BenchEstimate, BenchVerified, RunRecord, BenchCell, Column, null, number,
  word,
}

-- json.Unmarshal of the benchmark's data: none where it fails.
pub record Readers (Raw F : Type 0) : Type 0 where
  pub bench_run : Raw → Option (BenchRun F)
  pub bench_verdict : Raw → Option (BenchVerdict F)
  pub bench_verified : Raw → Option (BenchVerified F)
  pub bench_estimate : Raw → Option (BenchEstimate F)

-- `runKey`
pub record RunKey : Type 0 where
  pub corpus : String
  pub task : String
  pub arm : String
  pub repeat : ℤ

abbrev run_key_eq : RunKey → RunKey → Bool
run_key_eq a b =
    (a.corpus =s= b.corpus)
    && ((a.task =s= b.task) && ((a.arm =s= b.arm) && (a.repeat ==ℤ b.repeat)))

pub run_key_iff : (a b : RunKey) → (run_key_eq a b ≡ true) ↔ (a ≡ b)
run_key_iff a b = ground (
  arith,
  eq_iff a.corpus b.corpus,
  eq_iff a.task b.task,
  eq_iff a.arm b.arm,
  ==ℤ_iff a.repeat b.repeat,
)

instance abbrev pub run_key : Eq RunKey
run_key = record { beq = run_key_eq; beq_iff = run_key_iff }

abbrev pub verdict_key : {F : Type 0} → BenchVerdict F → RunKey
verdict_key v = record { corpus = v.corpus; task = v.task; arm = v.arm; repeat = v.repeat }

abbrev pub key_of : {F : Type 0} → BenchRun F → RunKey
key_of r = record { corpus = r.corpus; task = r.task; arm = r.arm; repeat = r.repeat }

-- The key of state.bench, [class][model].
pub record CellKey : Type 0 where
  pub class : String
  pub model : String

abbrev cell_key_eq : CellKey → CellKey → Bool
cell_key_eq a b = (a.class =s= b.class) && (a.model =s= b.model)

pub cell_key_iff : (a b : CellKey) → (cell_key_eq a b ≡ true) ↔ (a ≡ b)
cell_key_iff a b = ground (arith, eq_iff a.class b.class, eq_iff a.model b.model)

instance abbrev pub cell_key : Eq CellKey
cell_key = record { beq = cell_key_eq; beq_iff = cell_key_iff }

abbrev pub cell_of : {F : Type 0} → BenchRun F → CellKey
cell_of r = record { class = r.class; model = r.model }

-- The task's certification, by corpus, task and task_sha.
pub record VerifiedKey : Type 0 where
  pub corpus : String
  pub task : String
  pub task_sha : String

abbrev verified_key_eq : VerifiedKey → VerifiedKey → Bool
verified_key_eq a b =
    (a.corpus =s= b.corpus) && ((a.task =s= b.task) && (a.task_sha =s= b.task_sha))

pub verified_key_iff : (a b : VerifiedKey) → (verified_key_eq a b ≡ true) ↔ (a ≡ b)
verified_key_iff a b =
    ground (arith, eq_iff a.corpus b.corpus, eq_iff a.task b.task, eq_iff a.task_sha b.task_sha)

instance abbrev pub verified_key : Eq VerifiedKey
verified_key = record { beq = verified_key_eq; beq_iff = verified_key_iff }

-- sort.Slice by seq. Insertion sort: the seqs of a log's events differ, so every sort is this one.
abbrev insert_record : {F : Type 0} → RunRecord F → List (RunRecord F) → List (RunRecord F)
insert_record r [] = r ∷ []
insert_record r (x ∷ xs) =
    let rest = insert_record r xs in if ltb_ℤ r.seq x.seq then r ∷ x ∷ xs else x ∷ rest

unfoldable pub sort_records : {F : Type 0} → List (RunRecord F) → List (RunRecord F)
sort_records [] = []
sort_records (r ∷ rs) = insert_record r (sort_records rs)

abbrev pub values {ℓ} : {K V : Type ℓ} → List (K × V) → List V
values [] = []
values ((k, v) ∷ m) = v ∷ values m

module _ (j : Json) {F : Type 0} (read : Readers j.Raw F) where
  abbrev pub Events : Type 0
  Events = List (Event j.Raw)

  -- The seqs that valid log.quarantined events name.
  abbrev quarantined_by : Event j.Raw → List ℤ
  quarantined_by e =
      if (e.typ =s= "log.quarantined") && is_none (check j.keys e)
      then (elim (j.seq_of e.payload) [ none ↦ [] | some q ↦ q ∷ [] ])
      else []

  abbrev pub quarantined_seqs : Events → List ℤ
  quarantined_seqs [] = []
  quarantined_seqs (e ∷ es) = quarantined_by e ++ quarantined_seqs es

  abbrev pub is_usable : List ℤ → Event j.Raw → Bool
  is_usable quarantined e = not (contains_seq e.seq quarantined) && is_none (check j.keys e)

  abbrev select_usable : List ℤ → Events → Events
  select_usable quarantined [] = []
  select_usable quarantined (e ∷ es) =
      let rest = select_usable quarantined es in if is_usable quarantined e then e ∷ rest else rest

  unfoldable pub usable_events : Events → Events
  usable_events es = select_usable (quarantined_seqs es) es

  abbrev pub RunMap : Type 0
  RunMap = List (RunKey × RunRecord F)

  -- One round of the loop of `Runs`.
  unfoldable pub fold_run : RunMap → Event j.Raw → RunMap
  fold_run m e =
      if e.typ =s= "bench.run"
      then (elim (read.bench_run e.payload) [
        | none ↦ m
        | some r ↦ alter (key_of r) (λ old. record { seq = e.seq; run = r; verdict = none }) m
      ])
      else if e.typ =s= "bench.verdict"
      then (elim (read.bench_verdict e.payload) [
        | none ↦ m
        | some v ↦ adjust (verdict_key v) (λ rec. record rec { verdict = some v }) m
      ])
      else m

  unfoldable pub fold_runs : RunMap → Events → RunMap
  fold_runs m [] = m
  fold_runs m (e ∷ es) = fold_runs (fold_run m e) es

  -- `Runs`
  unfoldable pub runs : Events → List (RunRecord F)
  unfolding usable_events fold_runs fold_run sort_records alter adjust
  runs es = sort_records (values (fold_runs [] (usable_events es)))

  abbrev fold_verified :
      List (VerifiedKey × BenchVerified F) → Events → List (VerifiedKey × BenchVerified F)
  fold_verified m [] = m
  fold_verified m (e ∷ es) =
      fold_verified
        (if e.typ =s= "bench.verified"
          then (elim (read.bench_verified e.payload) [
            | none ↦ m
            | some v ↦
                alter (record { corpus = v.corpus; task = v.task; task_sha = v.task_sha })
                  (λ old. v) m
          ])
          else m)
        es

  -- `Verified`
  unfoldable pub verified : Events → List (VerifiedKey × BenchVerified F)
  unfolding usable_events alter
  verified es = fold_verified [] (usable_events es)

  abbrev select_estimates : Events → List (BenchEstimate F)
  select_estimates [] = []
  select_estimates (e ∷ es) =
      let rest = select_estimates es in
      if e.typ =s= "bench.estimate"
      then (elim (read.bench_estimate e.payload) [ none ↦ rest | some est ↦ est ∷ rest ])
      else rest

  -- `Estimates`, oldest first.
  unfoldable pub estimates : Events → List (BenchEstimate F)
  unfolding usable_events
  estimates es = select_estimates (usable_events es)

-- The accumulator of one cell.
pub record Tally (F : Type 0) : Type 0 where
  pub n : ℕ
  pub pass : ℕ
  pub costs : List F

abbrev pub no_tally : {F : Type 0} → Tally F
no_tally = record { n = 0; pass = 0; costs = [] }

abbrev pub cost_of : {F : Type 0} → BenchVerdict F → List F
cost_of v = elim (lookup "cost_usd" v.columns) [ some (number c) ↦ c ∷ [] | _ ↦ [] ]

abbrev pub or_no_tally : {F : Type 0} → Option (Tally F) → Tally F
or_no_tally none = no_tally
or_no_tally (some a) = a

-- One verdict more.
abbrev pub count_verdict : {F : Type 0} → BenchVerdict F → Tally F → Tally F
count_verdict v a = record {
  n = a.n + 1;
  pass = if v.pass then a.pass + 1 else a.pass;
  costs = a.costs ++ cost_of v;
}

abbrev pub Cells : Type 0 → Type 0
Cells F = List (CellKey × Tally F)

unfoldable pub fold_cell : {F : Type 0} → Cells F → RunRecord F → Cells F
fold_cell m rec = elim rec.verdict [
  | none ↦ m
  | some v ↦ alter (cell_of rec.run) (λ old. count_verdict v (or_no_tally old)) m
]

unfoldable pub fold_cells : {F : Type 0} → Cells F → List (RunRecord F) → Cells F
fold_cells m [] = m
fold_cells m (r ∷ rs) = fold_cells (fold_cell m r) rs

abbrev max_ℤ : ℤ → ℤ → ℤ
max_ℤ a b = if ltb_ℤ a b then b else a

module _ (fl : Float) where
  abbrev insert_float : fl.F → List fl.F → List fl.F
  insert_float x [] = x ∷ []
  insert_float x (y ∷ ys) =
      let rest = insert_float x ys in if fl.le_f x y then x ∷ y ∷ ys else y ∷ rest

  -- slices.Sort
  unfoldable pub sort_floats : List fl.F → List fl.F
  sort_floats [] = []
  sort_floats (x ∷ xs) = insert_float x (sort_floats xs)

  abbrev mean_of_two : Option fl.F → fl.F → Option fl.F
  mean_of_two none m = none
  mean_of_two (some l) m = some (fl.div (fl.add l m) (fl.of_ℕ 2))

  -- `median`: none is nil. An index is in range wherever the code takes it.
  unfoldable pub median : List fl.F → Option fl.F
  unfolding sort_floats
  median xs =
      let s = sort_floats xs in
      elim (get_elem? s (length s / 2)) [
        | none ↦ none
        | some m ↦
            if length s % 2 == 0 then mean_of_two (get_elem? s (length s / 2 - 1)) m else some m
      ]

  abbrev close_cells : Cells fl.F → List (CellKey × BenchCell fl.F)
  close_cells [] = []
  close_cells ((k, a) ∷ m) =
      (
        k,
        record {
          pass_rate = fl.div (fl.of_ℕ a.pass) (fl.of_ℕ a.n);
          n = a.n;
          cost_median = median a.costs;
        },
      )
      ∷ close_cells m

  pub record State : Type 0 where
    pub last_seq : ℤ
    pub bench : List (CellKey × BenchCell fl.F)

  module _ (j : Json) (read : Readers j.Raw fl.F) where
    abbrev last_of : ℤ → List (Event j.Raw) → ℤ
    last_of m [] = m
    last_of m (e ∷ es) = last_of (max_ℤ m e.seq) es

    -- `Fold`
    unfoldable pub fold : List (Event j.Raw) → State
    unfolding runs fold_cells fold_cell median
    fold es = record {
      last_seq = last_of (pos 0) es;
      bench = close_cells (fold_cells [] (runs j read es));
    }

-- ===== src/Log/Fold/Keyed.antt =====
-- The folds of fold.go, read at one key.
use foliot.Common.{
  ◌≡◌, refl, ap, ◌∙◌, Option, none, some, List, [], ◌∷◌, if◌then◌else◌, ◌=s=◌, Bool-cases,
  Option-cases, inl, inr,
}
use foliot.Common.Assoc.{get, get-alter, get-adjust, IsMap, IsMap-alter, IsMap-adjust}
use foliot.Log.Event.{Event}
use foliot.Log.Json.{Json}
use foliot.Log.Data.{BenchVerdict, RunRecord}
use foliot.Log.Fold.{
  Readers, RunKey, run_key, run_key_eq, key_of, verdict_key, cell_key, RunMap, fold_run, fold_runs,
}

-- The verdict of a run that is there.
abbrev pub set_verdict : {F : Type 0} → BenchVerdict F → Option (RunRecord F) → Option (RunRecord F)
set_verdict v none = none
set_verdict v (some rec) = some (record rec { verdict = some v })

module _ (j : Json) {F : Type 0} (read : Readers j.Raw F) where
  -- What one event says of the run with a key.
  unfoldable pub track_one : RunKey → Option (RunRecord F) → Event j.Raw → Option (RunRecord F)
  track_one k old e =
      if e.typ =s= "bench.run"
      then (elim (read.bench_run e.payload) [
        | none ↦ old
        | some r ↦
            if run_key_eq (key_of r) k
            then some (record { seq = e.seq; run = r; verdict = none })
            else old
      ])
      else if e.typ =s= "bench.verdict"
      then (elim (read.bench_verdict e.payload) [
        | none ↦ old
        | some v ↦ if run_key_eq (verdict_key v) k then set_verdict v old else old
      ])
      else old

  -- What the events say of it in turn: its last bench.run, and the last verdict for it since.
  unfoldable pub track : RunKey → Option (RunRecord F) → List (Event j.Raw) → Option (RunRecord F)
  track k old [] = old
  track k old (e ∷ es) = track k (track_one k old e) es

  get-fold_run :
      (k : RunKey) (m : RunMap j read) (e : Event j.Raw)
      → get k (fold_run j read m e) ≡ track_one k (get k m) e
  unfolding fold_run track_one
  get-fold_run k m e = elim (Bool-cases (e.typ =s= "bench.run")) [
    | inl t ↦ rw t (elim (Option-cases (read.bench_run e.payload)) [
      | inl x ↦ rw x
      | inr (r, x) ↦ rw x (get-alter (key_of r) k _ m)
    ])
    | inr f ↦ rw f (elim (Bool-cases (e.typ =s= "bench.verdict")) [
      | inr g ↦ rw g
      | inl t ↦ rw t (elim (Option-cases (read.bench_verdict e.payload)) [
        | inl x ↦ rw x
        | inr (v, x) ↦ rw (x, get-adjust)
      ])
    ])
  ]

  -- The map of `Runs` holds at each key just what the events say of that run, one after the other:
  -- runs of different keys do not touch one another.
  pub get-fold_runs :
      (k : RunKey) (m : RunMap j read) (es : List (Event j.Raw))
      → get k (fold_runs j read m es) ≡ track k (get k m) es
  unfolding fold_runs track
  get-fold_runs k m [] = refl
  get-fold_runs k m (e ∷ es) =
      get-fold_runs k (fold_run j read m e) es ∙ ap (λ o. track k o es) (get-fold_run k m e)

  IsMap-fold_run : (m : RunMap j read) (e : Event j.Raw) → IsMap m → IsMap (fold_run j read m e)
  unfolding fold_run
  IsMap-fold_run m e h = elim (Bool-cases (e.typ =s= "bench.run")) [
    | inl t ↦ rw t (elim (Option-cases (read.bench_run e.payload)) [
      | inl x ↦ rw x h
      | inr (r, x) ↦ rw x (IsMap-alter (key_of r) _ m h)
    ])
    | inr f ↦ rw f (elim (Bool-cases (e.typ =s= "bench.verdict")) [
      | inr g ↦ rw g h
      | inl t ↦ rw t (elim (Option-cases (read.bench_verdict e.payload)) [
        | inl x ↦ rw x h
        | inr (v, x) ↦ rw x (IsMap-adjust (verdict_key v) _ m h)
      ])
    ])
  ]

  IsMap-fold_runs :
      (m : RunMap j read) (es : List (Event j.Raw)) → IsMap m → IsMap (fold_runs j read m es)
  unfolding fold_runs
  IsMap-fold_runs m [] h = h
  IsMap-fold_runs m (e ∷ es) h = IsMap-fold_runs (fold_run j read m e) es (IsMap-fold_run m e h)

-- ===== src/Bench/Plan/Resume.antt =====
-- What `resume` keeps of a plan.
use foliot.Common.{
  String, Option, none, some, is_none, arith, ◌==ℤ◌, ◌≡◌, refl, sym, ap, ◌∙◌, Bool, true, false,
  not, ◌||◌, ◌&&◌, List, [], ◌∷◌, ◌=s=◌, contains, Bool-cases, inl, inr,
}
use foliot.Common.Float.{Float}
use foliot.Log.Event.{Event}
use foliot.Log.Json.{Json}
use foliot.Log.Data.{RunRecord, BenchVerdict}
use foliot.Log.Fold.{Readers, runs}
use foliot.Bench.Plan.{
  Task, Planned, DoneKey, done_eq, is_in, done_key, is_reusable, done_keys, keep_runs, task_ids,
  keep_tasks, resume,
}

-- The second list is the first, in its order, without the elements that `drop` is true of.
pub data Without {A : Type 0} (drop : A → Bool) : List A → List A → Type 0 where
  done : Without drop [] []
  kept :
      {x : A} {xs ys : List A}
      → drop x ≡ false
      → Without drop xs ys
      → Without drop (x ∷ xs) (x ∷ ys)
  dropped : {x : A} {xs ys : List A} → drop x ≡ true → Without drop xs ys → Without drop (x ∷ xs) ys

abbrev pub is_some : {A : Type 0} → Option A → Bool
is_some none = false
is_some (some a) = true

abbrev key_of : {F : Type 0} → RunRecord F → DoneKey
key_of rec = record {
  task = rec.run.task;
  arm = rec.run.arm;
  model = rec.run.model;
  repeat = rec.run.repeat;
}

module _ {F : Type 0} where
  -- A record of the same cell, in the same clean corpus and of the same model, has a verdict.
  abbrev pub is_verdict_of : String → String → Bool → Planned F → RunRecord F → Bool
  is_verdict_of corpus sha dirty r rec =
      not dirty
      && (is_some rec.verdict
          && ((rec.run.corpus =s= corpus)
              && ((rec.run.corpus_sha =s= sha)
                  && ((rec.run.task =s= r.task.id)
                      && ((rec.run.arm =s= r.arm.name)
                          && ((rec.run.model =s= r.arm.model) && (rec.run.repeat ==ℤ r.repeat)))))))

  reusable-is_verdict_of :
      (corpus sha : String) (dirty : Bool) (r : Planned F) (rec : RunRecord F)
      → is_reusable corpus sha dirty rec ≡ true
      → done_eq (key_of rec) (done_key r) ≡ is_verdict_of corpus sha dirty r rec
  reusable-is_verdict_of corpus sha dirty r rec h = go rec.verdict h
    where
      go :
          (v : Option (BenchVerdict F))
          → (not (is_none v)
              && (not dirty && ((rec.run.corpus =s= corpus) && (rec.run.corpus_sha =s= sha))))
            ≡ true
          → done_eq (key_of rec) (done_key r) ≡ (
              not dirty
              && (is_some v
                  && ((rec.run.corpus =s= corpus)
                      && ((rec.run.corpus_sha =s= sha) && done_eq (key_of rec) (done_key r)))))
      go none h = absurd (ground (arith, h))
      go (some v) h = ground (arith, h)

  useless-is_verdict_of :
      (corpus sha : String) (dirty : Bool) (r : Planned F) (rec : RunRecord F)
      → is_reusable corpus sha dirty rec ≡ false
      → is_verdict_of corpus sha dirty r rec ≡ false
  useless-is_verdict_of corpus sha dirty r rec h = go rec.verdict h
    where
      go :
          (v : Option (BenchVerdict F))
          → (not (is_none v)
              && (not dirty && ((rec.run.corpus =s= corpus) && (rec.run.corpus_sha =s= sha))))
            ≡ false
          → (not dirty
              && (is_some v
                  && ((rec.run.corpus =s= corpus)
                      && ((rec.run.corpus_sha =s= sha) && done_eq (key_of rec) (done_key r)))))
            ≡ false
      go none h = ground arith
      go (some v) h = ground (arith, h)

  abbrev pub has_verdict : String → String → Bool → List (RunRecord F) → Planned F → Bool
  has_verdict corpus sha dirty [] r = false
  has_verdict corpus sha dirty (rec ∷ recs) r =
      is_verdict_of corpus sha dirty r rec || has_verdict corpus sha dirty recs r

  -- No run of the task is left.
  abbrev pub has_no_run : List (Planned F) → Task → Bool
  has_no_run keep t = not (contains t.id (task_ids keep))

  is_in-done_keys :
      (corpus sha : String) (dirty : Bool) (recs : List (RunRecord F)) (r : Planned F)
      → is_in (done_key r) (done_keys corpus sha dirty recs) ≡ has_verdict corpus sha dirty recs r
  is_in-done_keys corpus sha dirty [] r = refl
  is_in-done_keys corpus sha dirty (rec ∷ recs) r =
      elim (Bool-cases (is_reusable corpus sha dirty rec)) [
        | inl t ↦
            rw (t, is_in-done_keys corpus sha dirty recs r)
              (ap (λ z. z || has_verdict corpus sha dirty recs r)
                (reusable-is_verdict_of corpus sha dirty r rec t))
        | inr f ↦
            rw (f, is_in-done_keys corpus sha dirty recs r)
              (sym (
                ap (λ z. z || has_verdict corpus sha dirty recs r)
                  (useless-is_verdict_of corpus sha dirty r rec f)))
      ]

  keep_runs-Without :
      (ds : List DoneKey) (drop : Planned F → Bool)
      → ((r : Planned F) → is_in (done_key r) ds ≡ drop r)
      → (rs : List (Planned F)) → Without drop rs (keep_runs ds rs)
  keep_runs-Without ds drop h [] = Without.done
  keep_runs-Without ds drop h (r ∷ rs) = elim (Bool-cases (is_in (done_key r) ds)) [
    | inl t ↦ rw t (Without.dropped (sym (h r) ∙ t) (keep_runs-Without ds drop h rs))
    | inr f ↦ rw f (Without.kept (sym (h r) ∙ f) (keep_runs-Without ds drop h rs))
  ]

  keep_tasks-Without :
      (keep : List (Planned F)) (ts : List Task)
      → Without (has_no_run keep) ts (keep_tasks (task_ids keep) ts)
  keep_tasks-Without keep [] = Without.done
  keep_tasks-Without keep (t ∷ ts) = elim (Bool-cases (contains t.id (task_ids keep))) [
    | inl h ↦ rw h (Without.kept (ap not h) (keep_tasks-Without keep ts))
    | inr h ↦ rw h (Without.dropped (ap not h) (keep_tasks-Without keep ts))
  ]

-- A resumed sweep runs the planned runs in their order but for those whose cell already has a verdict,
-- by a run of the log in the same corpus at the same sha, not dirty, and of the same model; and of the
-- tasks it keeps, in their order, just those with a run left.
pub resume-Without :
    (fl : Float) (j : Json) (read : Readers j.Raw fl.F) (corpus sha : String) (dirty : Bool)
    (events : List (Event j.Raw)) (planned : List (Planned fl.F)) (tasks : List Task)
    → Without
        (has_verdict corpus sha dirty (runs j read events))
        planned
        (resume fl j read corpus sha dirty events planned tasks).0
      × Without
          (has_no_run (resume fl j read corpus sha dirty events planned tasks).0)
          tasks
          (resume fl j read corpus sha dirty events planned tasks).1
unfolding resume
resume-Without fl j read corpus sha dirty events planned tasks = (
  keep_runs-Without _ _ (is_in-done_keys corpus sha dirty (runs j read events)) planned,
  keep_tasks-Without _ tasks,
)

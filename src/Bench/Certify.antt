-- ===== src/Bench/Certify.antt =====
-- src/core/bench/runner.go: `session.verify`, which tasks a sweep takes from the log as certified and
-- which it certifies anew.
pub mod Reused
use foliot.Common.{
  ℕ, String, ℤ, Bool, true, false, not, ◌&&◌, ◌||◌, Option, none, some, List, [], ◌∷◌, ◌++◌,
  if◌then◌else◌, ◌=s=◌, is_none, length,
}
use foliot.Common.Assoc.{get}
use foliot.Log.Data.{BenchVerified, VisibleReading}
use foliot.Log.Fold.{VerifiedKey, verified_key}
use foliot.Bench.Plan.{Task}
use foliot.Bench.Verify.{Result, VisibleRun}
use foliot.Bench.Verify.Summary.{
  Verified, unverified, verified, VerifyError, Summary, Problem, success,
}

pub data CertifyError : Type 0 where
  log_unread : CertifyError
  no_digest : String → CertifyError
  not_verified : VerifyError → CertifyError
  tasks_refused : ℕ → ℕ → ℕ → CertifyError
  corpus_moved : String → String → CertifyError
  not_appended : CertifyError

-- `s.verified` and the records that verify appends, with its error.
abbrev pub Exits : Type 0
Exits = List (String × (ℤ × ℤ))

pub record Certified (F : Type 0) : Type 0 where
  pub exits : Exits
  pub appended : List (BenchVerified F)
  pub error : Option CertifyError

abbrev pub key_for : String → Task → String → VerifiedKey
key_for corpus t sha = record { corpus = corpus; task = t.id; task_sha = sha }

pub data SplitResult : Type 0 where
  unsplit : String → SplitResult
  split : Exits → List String → SplitResult

module _ {F : Type 0} where
  -- A certification that may be used again.
  abbrev pub is_reusable : Bool → Task → BenchVerified F → Bool
  is_reusable dirty t v = not dirty && (not (is_none v.visible) && (v.clock_at =s= t.clock_at))

  abbrev pub reusable : Bool → Task → Option (BenchVerified F) → Option (BenchVerified F)
  reusable dirty t none = none
  reusable dirty t (some v) = if is_reusable dirty t v then some v else none

  abbrev pub add_task : Task → Option (BenchVerified F) → SplitResult → SplitResult
  add_task t v (unsplit i) = unsplit i
  add_task t none (split reused need) = split reused (t.id ∷ need)
  add_task t (some v) (split reused need) =
      split ((t.id, (v.base_exit, v.landed_exit)) ∷ reused) need

  -- The loop over the tasks: the exits that are taken over, and the tasks that need a verification. Where
  -- a digest fails the sweep ends, and what was taken over before is not used.
  -- `digest` is `taskSHA`.
  abbrev pub split_tasks :
      Bool
      → String
      → List (VerifiedKey × BenchVerified F)
      → (String → Option String)
      → List Task
      → SplitResult
  split_tasks dirty corpus done digest [] = split [] []
  split_tasks dirty corpus done digest (t ∷ ts) =
      let rest = split_tasks dirty corpus done digest ts in
      elim (digest t.id) [
        | none ↦ unsplit t.id
        | some sha ↦ add_task t (reusable dirty t (get (key_for corpus t sha) done)) rest
      ]

  -- `reading`
  abbrev pub reading_of : VisibleRun F → VisibleReading F
  reading_of v = record {
    exit = v.first.exit;
    examined = v.first.examined;
    wall_ms = v.first.wall_ms;
    cpu_ms = v.first.cpu_ms;
    load_at_start = v.first.load_at_start;
  }

  abbrev pub record_of : String → String → Result F → BenchVerified F
  record_of corpus sha r = record {
    corpus = corpus;
    corpus_sha = sha;
    task = r.id;
    task_sha = r.task_sha;
    base_exit = r.base;
    landed_exit = r.landed;
    examined = r.examined;
    visible = some (reading_of r.visible_base, reading_of r.visible_landed);
    clock_at = r.clock_at;
    clock_offset_ms = r.clock_offset_ms;
  }

  -- The records of the results, up to the first that does not append.
  abbrev pub append_all :
      (BenchVerified F → Bool) → String → String → List (Result F) → Certified F → Certified F
  append_all appends corpus sha [] c = c
  append_all appends corpus sha (r ∷ rs) c =
      let v = record_of corpus sha r in
      let exits = c.exits ++ ((r.id, (r.base, r.landed)) ∷ []) in
      let next =
        append_all appends corpus sha rs
          (record c { exits = exits; appended = c.appended ++ (v ∷ []) }) in
      if not (appends v) then record c { exits = exits; error = some not_appended } else next

  abbrev pub fail : Exits → CertifyError → Certified F
  fail exits e = record { exits = exits; appended = []; error = some e }

  abbrev pub reused_only : Exits → Certified F
  reused_only exits = record { exits = exits; appended = []; error = none }

  abbrev pub take_results :
      (BenchVerified F → Bool) → String → String → Exits → Verified F → Certified F
  take_results appends corpus sha exits (unverified e) = fail exits (not_verified e)
  take_results appends corpus sha exits (verified s) =
      if not (success s)
      then fail exits (tasks_refused s.refused s.examined (length s.problems))
      else if not (s.corpus_sha =s= sha)
      then fail exits (corpus_moved sha s.corpus_sha)
      else append_all appends corpus sha s.results (reused_only exits)

  abbrev pub take_split :
      (List String → Verified F)
      → (BenchVerified F → Bool)
      → String
      → String
      → SplitResult
      → Certified F
  take_split verify appends corpus sha (unsplit i) = fail [] (no_digest i)
  take_split verify appends corpus sha (split reused []) = reused_only reused
  take_split verify appends corpus sha (split reused (i ∷ need)) =
      take_results appends corpus sha reused (verify (i ∷ need))

  -- `session.verify`, with the corpus's version, the certifications that the log holds, none if it does
  -- not read, and `Verify` of the tasks that need it. `appends` is whether a record can be appended.
  unfoldable pub certify :
      String × Bool
      → String
      → Option (List (VerifiedKey × BenchVerified F))
      → (String → Option String)
      → (List String → Verified F)
      → (BenchVerified F → Bool)
      → List Task
      → Certified F
  unfolding get success
  certify version corpus none digest verify appends tasks = fail [] log_unread
  certify (sha, dirty) corpus (some done) digest verify appends tasks =
      take_split verify appends corpus sha (split_tasks dirty corpus done digest tasks)

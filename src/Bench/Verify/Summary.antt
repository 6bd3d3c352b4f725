-- ===== src/Bench/Verify/Summary.antt =====
-- src/core/bench/verify.go: `Verify` and `Summary`.
pub mod Sound
use foliot.Common.{
  ℕ, zero, suc, ◌+◌, String, ℤ, pos, ◌==ℤ◌, Bool, true, false, not, ◌&&◌, ◌||◌, Option, none, some,
  List, [], ◌∷◌, ◌++◌, map, length, if◌then◌else◌, ◌=s=◌, ltb, ◌==◌, contains, lookup,
}
use foliot.Bench.Corpus.{
  Packages, TaskRecord, Manifest, ManifestFile, ManifestError, Loaded, failed, loaded, classes,
  load_manifest,
}
use foliot.Bench.Verify.{Result}
use foliot.Bench.Verify.History.{Git, corpus_version}
use foliot.Bench.Verify.Task.{TaskAnswers, Suite, no_refusals, verify_task}
use foliot.Bench.Verify.Visible.{VisibleKey, SuiteAnswers, verify_visible}

pub data Problem : Type 0 where
  uncommitted : Problem
  class_count : String → ℕ → ℤ → Problem
  nothing_examined : Problem

-- `Summary`
pub record Summary (F : Type 0) : Type 0 where
  pub examined : ℕ
  pub accepted : ℕ
  pub refused : ℕ
  pub of_class : String → ℕ
  pub corpus_sha : String
  pub dirty : Bool
  pub partial : Bool
  pub problems : List Problem
  pub results : List (Result F)

pub data VerifyError : Type 0 where
  no_manifest : ManifestError → VerifyError
  no_ids : VerifyError
  unknown_task : String → VerifyError

pub data Verified (F : Type 0) : Type 0 where
  unverified : VerifyError → Verified F
  verified : Summary F → Verified F

abbrev no_problems : List Problem → Bool
no_problems [] = true
no_problems (p ∷ ps) = false

-- `Summary.Success`
unfoldable pub success : {F : Type 0} → Summary F → Bool
success s = ltb 0 s.examined && ((s.refused == 0) && no_problems s.problems)

-- The results without a refusal, and those of a class.
abbrev pub accepts : {F : Type 0} → Result F → Bool
accepts r = no_refusals r.refusals

abbrev pub count_accepted : {F : Type 0} → List (Result F) → ℕ
count_accepted [] = 0
count_accepted (r ∷ rs) = let n = count_accepted rs in if accepts r then n + 1 else n

abbrev pub count_refused : {F : Type 0} → List (Result F) → ℕ
count_refused [] = 0
count_refused (r ∷ rs) = let n = count_refused rs in if accepts r then n else n + 1

abbrev pub count_class : {F : Type 0} → String → List (Result F) → ℕ
count_class c [] = 0
count_class c (r ∷ rs) =
    let n = count_class c rs in if accepts r && (r.class =s= c) then n + 1 else n

abbrev pub registered : String → List (String × ℤ) → ℤ
registered c cs = elim (lookup c cs) [ none ↦ pos 0 | some n ↦ n ]

-- A class whose verified tasks are not the pre-registered number.
abbrev pub class_problems : (String → ℕ) → List (String × ℤ) → List String → List Problem
class_problems count cs [] = []
class_problems count cs (c ∷ rest) =
    let ps = class_problems count cs rest in
    if not (pos (count c) ==ℤ registered c cs)
    then class_count c (count c) (registered c cs) ∷ ps
    else ps

-- The first of the named tasks that is not in the corpus.
abbrev pub not_in : List String → List String → Option String
not_in ids [] = none
not_in ids (t ∷ ts) = if not (contains t ids) then some t else not_in ids ts

abbrev firsts : {A B : Type 0} → List (A × B) → List A
firsts ps = map (λ p. p.0) ps

abbrev seconds : {A B : Type 0} → List (A × B) → List B
seconds ps = map (λ p. p.1) ps

abbrev pub dirty_problems : Bool → List Problem
dirty_problems dirty = if dirty then uncommitted ∷ [] else []

abbrev pub count_problems : (k : Packages) → Manifest k → Bool → (String → ℕ) → List Problem
count_problems k m partial count =
    if not partial then class_problems count m.classes classes else []

abbrev pub empty_problems : ℕ → List Problem
empty_problems n = if n == 0 then nothing_examined ∷ [] else []

-- The tasks to verify, and whether they are fewer than the corpus has.
abbrev pub selected : List String → List String → List String × Bool
selected ids [] = (ids, false)
selected ids (t ∷ ts) = (t ∷ ts, ltb (length (t ∷ ts)) (length ids))

module _ (k : Packages) {F : Type 0} where
  -- The two passes: every task of the first, then the suites of those that it hands on.
  abbrev pub passes :
      Manifest k
      → String
      → (String → TaskAnswers)
      → (VisibleKey → SuiteAnswers F × SuiteAnswers F)
      → List String
      → List (Result F)
  passes m root task suite ids =
      let first = map (λ id. verify_task k m root id (task id)) ids in
      verify_visible k m.visible_re suite (firsts first) (seconds first)

  abbrev pub summarise : Manifest k → String × Bool → Bool → List (Result F) → Summary F
  summarise m (sha, dirty) partial results = record {
    examined = length results;
    accepted = count_accepted results;
    refused = count_refused results;
    of_class = λ c. count_class c results;
    corpus_sha = sha;
    dirty = dirty;
    partial = partial;
    problems =
        dirty_problems dirty
        ++ (count_problems k m partial (λ c. count_class c results)
            ++ empty_problems (length results));
    results = results;
  }

  abbrev verify_ids :
      Manifest k
      → Git
      → String
      → List String
      → List String
      → (String → TaskAnswers)
      → (VisibleKey → SuiteAnswers F × SuiteAnswers F)
      → Verified F
  verify_ids m git root ids tasks task suite = elim (not_in ids tasks) [
    | some t ↦ unverified (unknown_task t)
    | none ↦
        let (chosen, partial) = selected ids tasks in
        verified (summarise m (corpus_version git) partial (passes m root task suite chosen))
  ]

  -- `Verify`, with corpus.json as it is read, the ids of the corpus, what git answers in the benchmark's
  -- repository, and what the machine answers to the tasks and to the suites.
  unfoldable pub verify :
      Option ManifestFile
      → Option (List String)
      → Git
      → String
      → List String
      → (String → TaskAnswers)
      → (VisibleKey → SuiteAnswers F × SuiteAnswers F)
      → Verified F
  unfolding load_manifest corpus_version verify_task verify_visible
  verify file ids git root tasks task suite = elim (load_manifest k file) [
    | failed e ↦ unverified (no_manifest e)
    | loaded m ↦ elim ids [
      | none ↦ unverified no_ids
      | some is ↦ verify_ids m git root is tasks task suite
    ]
  ]

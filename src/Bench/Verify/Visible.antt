-- ===== src/Bench/Verify/Visible.antt =====
-- src/core/bench/verify.go: `runVisible`, `countFrom` and `verifyVisible`, the second pass.
use foliot.Common.{
  ℕ, zero, suc, ◌+◌, ◌^◌, String, ℤ, pos, negsuc, ltb_ℤ, ◌==ℤ◌, codes, Bool, not, ◌&&◌, Option,
  none, some, List, [], ◌∷◌, ◌++◌, if◌then◌else◌, ◌=s=◌, ◌==◌, leb,
}
use foliot.Bench.Strings.{trim_space}
use foliot.Bench.Corpus.{Packages, TaskRecord}
use foliot.Bench.Corpus.Load.{blank}
use foliot.Bench.Verify.{
  Side, at_base, at_landed, Failure, clone, setup, clock, zero_tests, killed, red, flaky, visible,
  SuiteRun, VisibleRun, unread_suite, Result,
}
use foliot.Bench.Verify.Env.{is_number, value_from, atoi}

-- strconv.Atoi with its error passed over: 0 for what is no number, the nearest integer for one that is
-- out of range.
abbrev negated : ℕ → ℤ
negated zero = pos 0
negated (suc n) = negsuc n

abbrev clamp_below : ℕ → ℕ
clamp_below n = if leb n (2 ^ 63) then n else 2 ^ 63

abbrev pub atoi_signed : List ℕ → ℤ
atoi_signed [] = pos 0
atoi_signed (c ∷ cs) =
    if c == 45
    then (if is_number cs then negated (clamp_below (value_from 0 cs)) else pos 0)
    else if c == 43
    then (if is_number cs then pos (atoi cs) else pos 0)
    else if is_number (c ∷ cs)
    then pos (atoi (c ∷ cs))
    else pos 0

-- `countFrom`, of the log that is read.
unfoldable pub count_from : (k : Packages) → k.Regexp → Option String → ℤ
count_from k re none = pos 0
count_from k re (some log) = elim (k.last_group re log) [
  | none ↦ pos 0
  | some digits ↦ atoi_signed (codes digits)
]

-- What the machine answers to one run of a suite: whether the clone and the clock's control work, what
-- setup exits with, and what `checkout.run` returns, with the log it leaves.
pub record SuiteAnswers (F : Type 0) : Type 0 where
  pub cloned : Bool
  pub setup_exit : ℤ
  pub clock_right : Bool
  pub exit : ℤ
  pub log : Option String
  pub wall_ms : ℤ
  pub cpu_ms : ℤ
  pub load_at_start : Option F

-- `visibleKey`
pub record VisibleKey : Type 0 where
  pub repository : String
  pub sha : String
  pub setup : String
  pub check : String
  pub clock_at : String

-- `visibleOutcome`
pub record VisibleOutcome (F : Type 0) : Type 0 where
  pub run : VisibleRun F
  pub failure : Option Failure

-- What `once` returns.
pub data Once (F : Type 0) : Type 0 where
  stopped : Failure → Once F
  ran : SuiteRun F → Once F

module _ (k : Packages) (re : k.Regexp) {F : Type 0} where
  abbrev pub once : VisibleKey → SuiteAnswers F → Once F
  once key a =
      if not a.cloned
      then stopped clone
      else if not (blank key.setup) && not (a.setup_exit ==ℤ pos 0)
      then stopped (setup a.setup_exit)
      else if not a.clock_right
      then stopped clock
      else ran (record {
        exit = a.exit;
        examined = count_from k re a.log;
        wall_ms = a.wall_ms;
        cpu_ms = a.cpu_ms;
        load_at_start = a.load_at_start;
      })

  -- A red that is not a kill is run once more; the second run never excuses it.
  abbrev pub after_red : SuiteRun F → Once F → VisibleOutcome F
  after_red first (stopped f) = record {
    run = record { first = first; rerun = some unread_suite };
    failure = some f;
  }
  after_red first (ran second) = record {
    run = record { first = first; rerun = some second };
    failure = some (if not (second.exit ==ℤ pos 0) then red else flaky);
  }

  abbrev alone : SuiteRun F → Option Failure → VisibleOutcome F
  alone first f = record { run = record { first = first; rerun = none }; failure = f }

  abbrev pub after_first : SuiteRun F → Once F → VisibleOutcome F
  after_first first second =
      if (first.exit ==ℤ pos 0) && not (ltb_ℤ (pos 0) first.examined)
      then alone first (some zero_tests)
      else if first.exit ==ℤ pos 124
      then alone first (some killed)
      else if not (first.exit ==ℤ pos 0)
      then after_red first second
      else alone first none

  abbrev pub of_once : Once F → Once F → VisibleOutcome F
  of_once (stopped f) second = alone unread_suite (some f)
  of_once (ran first) second = after_first first second

  -- `runVisible`, with the answers to the run and to the re-run.
  unfoldable pub run_visible : VisibleKey → SuiteAnswers F → SuiteAnswers F → VisibleOutcome F
  unfolding count_from trim_space
  run_visible key a b = of_once (once key a) (once key b)

-- Keys are compared field by field.
abbrev pub same_key : VisibleKey → VisibleKey → Bool
same_key a b =
    (a.repository =s= b.repository)
    && ((a.sha =s= b.sha)
        && ((a.setup =s= b.setup) && ((a.check =s= b.check) && (a.clock_at =s= b.clock_at))))

abbrev pub sha_of : Side → TaskRecord → String
sha_of at_base t = t.base_sha
sha_of at_landed t = t.landed_sha

abbrev pub key_of : TaskRecord → Side → VisibleKey
key_of t side = record {
  repository = t.repository;
  sha = sha_of side t;
  setup = t.setup;
  check = t.visible_check;
  clock_at = t.clock_at;
}

-- `holder`
abbrev pub Holder : Type 0
Holder = ℕ × Side

-- The keys of the suites in order, each with its holders in order: `keys` and `holders`.

abbrev pub add_holder :
    VisibleKey → Holder → List (VisibleKey × List Holder) → List (VisibleKey × List Holder)
add_holder key h [] = (key, h ∷ []) ∷ []
add_holder key h ((j, hs) ∷ gs) =
    let rest = add_holder key h gs in
    if same_key j key then (j, hs ++ (h ∷ [])) ∷ gs else (j, hs) ∷ rest

abbrev pub add_holders :
    ℕ → Option TaskRecord → List (VisibleKey × List Holder) → List (VisibleKey × List Holder)
add_holders i none gs = gs
add_holders i (some t) gs =
    add_holder (key_of t at_landed) (i, at_landed) (add_holder (key_of t at_base) (i, at_base) gs)

abbrev pub group :
    ℕ → List (Option TaskRecord) → List (VisibleKey × List Holder) → List (VisibleKey × List Holder)
group i [] gs = gs
group i (s ∷ ss) gs = group (i + 1) ss (add_holders i s gs)

module _ {F : Type 0} where
  abbrev pub refuse_visible : Side → Option Failure → Result F → Result F
  refuse_visible side none r = r
  refuse_visible side (some f) r = record r { refusals = r.refusals ++ (visible side f ∷ []) }

  -- The outcome of a key, given to one holder.
  abbrev pub give_result : Side → VisibleOutcome F → Result F → Result F
  give_result at_base o r = refuse_visible at_base o.failure (record r { visible_base = o.run })
  give_result at_landed o r =
      refuse_visible at_landed o.failure (record r { visible_landed = o.run })

  abbrev pub give : Holder → VisibleOutcome F → List (Result F) → List (Result F)
  give (i, side) o [] = []
  give (zero, side) o (r ∷ rs) = give_result side o r ∷ rs
  give (suc i, side) o (r ∷ rs) = r ∷ give (i, side) o rs

  abbrev pub give_all : List Holder → VisibleOutcome F → List (Result F) → List (Result F)
  give_all [] o rs = rs
  give_all (h ∷ hs) o rs = give_all hs o (give h o rs)

  abbrev pub give_groups :
      List (VisibleKey × List Holder)
      → (VisibleKey → VisibleOutcome F)
      → List (Result F)
      → List (Result F)
  give_groups [] outcome rs = rs
  give_groups ((key, hs) ∷ gs) outcome rs = give_groups gs outcome (give_all hs (outcome key) rs)

module _ (k : Packages) (re : k.Regexp) {F : Type 0} where
  -- `verifyVisible`. `answer` is the machine's answers to a key's run and to its re-run.
  unfoldable pub verify_visible :
      (VisibleKey → SuiteAnswers F × SuiteAnswers F)
      → List (Result F)
      → List (Option TaskRecord)
      → List (Result F)
  unfolding run_visible
  verify_visible answer rs suites =
      give_groups (group 0 suites []) (λ key. run_visible k re key (answer key).0 (answer key).1) rs

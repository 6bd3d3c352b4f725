-- ===== src/Cli/Bench.antt =====
-- cmd/foliot/bench.go and main.go: `benchCommand`, `exitFor` and `corpusVerify`.
use foliot.Common.{
  String, pos, ltb_ℤ, Bool, true, false, not, ◌&&◌, ◌||◌, Option, none, some, List, [], ◌∷◌,
  if◌then◌else◌, ◌=s=◌, contains, length, ltb,
}
use foliot.Common.Float.{Float}
use foliot.Bench.Strings.{split_on}
use foliot.Cli.{
  Flags, Parsed, help, invalid, flags, Action, verify_corpus, report, sweep, estimate, probe, End,
  usage_error, helped, is_plain, root_of,
}

-- The flags that apply to a command of bench.
abbrev pub allowed : String → List String
allowed name =
    if name =s= "run"
    then "corpus" ∷ "arms" ∷ "repeats" ∷ "budget-usd" ∷ "task" ∷ "cap-usd" ∷ "no-resume" ∷ []
    else if name =s= "estimate"
    then "corpus" ∷ "arms" ∷ "repeats" ∷ "cap-usd" ∷ []
    else if name =s= "report"
    then "corpus" ∷ "arms" ∷ "task" ∷ []
    else if name =s= "probe"
    then "corpus" ∷ "arm" ∷ "task" ∷ "cap-usd" ∷ "without-isolation" ∷ []
    else []

abbrev pub all_allowed : List String → List String → Bool
all_allowed ok [] = true
all_allowed ok (f ∷ fs) = contains f ok && all_allowed ok fs

abbrev pub is_empty_list : List String → Bool
is_empty_list [] = true
is_empty_list (x ∷ xs) = false

abbrev first_or_empty : List String → String
first_or_empty (t ∷ []) = t
first_or_empty _ = ""

-- strings.Split at a comma (code 44) of a list that is given.
abbrev arm_names : String → List String
arm_names arms = if arms =s= "" then [] else split_on 44 arms

module _ (fl : Float) (clean : String → String) (succeeds : Action fl.F → Bool) where
  -- The switch of `benchCommand`: the first of the usage errors.
  abbrev pub is_misused : String → Flags fl.F → Bool
  is_misused name f =
      not (is_empty_list f.rest)
      || (not (is_plain f.corpus)
          || ((((name =s= "run") || (name =s= "estimate"))
                && ((f.arms =s= "") || ltb_ℤ f.repeats (pos 1)))
              || (((name =s= "run") && fl.le_f f.budget_usd fl.zero_f)
                  || (((name =s= "probe") && (f.arm =s= ""))
                      || (((name =s= "probe") && ltb 1 (length f.tasks))
                          || fl.lt_f f.cap_usd fl.zero_f)))))

  abbrev pub action_of : String → String → Flags fl.F → Action fl.F
  action_of name root f =
      if name =s= "report"
      then report root f.corpus (arm_names f.arms) f.tasks
      else if name =s= "run"
      then sweep root f.corpus f
      else if name =s= "estimate"
      then estimate root f.corpus f
      else probe root f.corpus f.arm (first_or_empty f.tasks) (not f.without_isolation) f.cap_usd

  -- `exitFor`: 0 without an error, else 1. `succeeds` says whether what is started returns without one; a
  -- panic, which ends the process before `exitFor`, is not modelled.
  abbrev pub exit_for : Action fl.F → End fl.F
  exit_for a = record { code = if succeeds a then 0 else 1; started = some a }

  abbrev pub start_in : Option String → (String → Action fl.F) → End fl.F
  start_in none action = usage_error
  start_in (some root) action = exit_for (action root)

  -- `benchCommand`, of what FOLIOT_HOME names.
  unfoldable pub bench_command : String → Parsed fl.F → String → End fl.F
  unfolding root_of split_on
  bench_command name help home = helped
  bench_command name invalid home = usage_error
  bench_command name (flags f) home =
      if not (all_allowed (allowed name) f.given)
      then usage_error
      else if is_misused name f
      then usage_error
      else start_in (root_of clean home) (λ root. action_of name root f)

  -- `corpusVerify`
  unfoldable pub corpus_verify : Parsed fl.F → String → End fl.F
  unfolding root_of
  corpus_verify help home = helped
  corpus_verify invalid home = usage_error
  corpus_verify (flags f) home =
      if not (is_empty_list f.rest)
      then usage_error
      else if not (is_plain f.corpus)
      then usage_error
      else if ltb_ℤ f.jobs (pos 1)
      then usage_error
      else start_in (root_of clean home) (λ root. verify_corpus root f.corpus f.tasks f.jobs)

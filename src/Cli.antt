-- ===== src/Cli.antt =====
-- cmd/foliot/commands.go, main.go and bench.go, with `Root` of src/core/log/root.go: which command a
-- line of arguments runs, and how it exits. Package flag is what it makes of the arguments.
pub mod Bench
pub mod Run
pub mod Ends
use foliot.Common.{
  ℕ, String, ℤ, Bool, true, false, not, ◌&&◌, ◌||◌, Option, none, some, List, [], ◌∷◌, map,
  if◌then◌else◌, ◌=s=◌, is_none, ◌≡◌, refl,
}
use foliot.Bench.Strings.{has_prefix, includes}

-- The functions of the families that are built.
pub data Built : Type 0 where
  replay : Built
  bench_family : Built

-- `command`
pub record Command : Type 0 where
  pub name : String
  pub run : Option Built

abbrev planned : String → Command
planned name = record { name = name; run = none }

-- `commands`
abbrev pub commands : List Command
commands =
    planned "init"
    ∷ planned "submit"
    ∷ planned "answer"
    ∷ planned "feedback"
    ∷ planned "cancel"
    ∷ planned "status"
    ∷ planned "digest"
    ∷ planned "log"
    ∷ planned "ledger"
    ∷ planned "report"
    ∷ planned "capacity"
    ∷ planned "profile"
    ∷ planned "core-check"
    ∷ record { name = "replay"; run = some replay }
    ∷ planned "conformance"
    ∷ planned "chaos"
    ∷ record { name = "bench"; run = some bench_family }
    ∷ planned "import"
    ∷ planned "update"
    ∷ []

abbrev find_command : String → List Command → Option Command
find_command name [] = none
find_command name (c ∷ cs) = if c.name =s= name then some c else find_command name cs

-- `lookup`
unfoldable pub lookup_command : String → Option Command
lookup_command name = find_command name commands

-- `builtNames`, without the program's name before each.
abbrev built_of : List Command → List String
built_of [] = []
built_of (c ∷ cs) = let rest = built_of cs in if is_none c.run then rest else c.name ∷ rest

unfoldable pub built_names : List String
built_names = built_of commands

built_names_test : built_names ≡ "replay" ∷ "bench" ∷ []
unfolding built_names
built_names_test = refl

-- `Root`, of FOLIOT_HOME. `clean` is filepath.Clean.
unfoldable pub root_of : (String → String) → String → Option String
root_of clean home = if (home =s= "") || not (has_prefix home "/") then none else some (clean home)

-- The flags of a command as package flag parses them, the names of those that are given, and what
-- follows them; or that help is asked for, or an error.
pub record Flags (F : Type 0) : Type 0 where
  pub verify : Bool
  pub corpus : String
  pub arms : String
  pub arm : String
  pub repeats : ℤ
  pub jobs : ℤ
  pub budget_usd : F
  pub cap_usd : F
  pub without_isolation : Bool
  pub no_resume : Bool
  pub tasks : List String
  pub given : List String
  pub rest : List String

pub data Parsed (F : Type 0) : Type 0 where
  help : Parsed F
  invalid : Parsed F
  flags : Flags F → Parsed F

-- What a command starts once its arguments are right, with the root that it works on.
pub data Action (F : Type 0) : Type 0 where
  verify_corpus : String → String → List String → ℤ → Action F
  report : String → String → List String → List String → Action F
  sweep : String → String → Flags F → Action F
  estimate : String → String → Flags F → Action F
  probe : String → String → String → String → Bool → F → Action F
  replay_log : String → Action F

-- How a command ends: its exit code, and what it started.
pub record End (F : Type 0) : Type 0 where
  pub code : ℕ
  pub started : Option (Action F)

abbrev pub usage_error : {F : Type 0} → End F
usage_error = record { code = 2; started = none }

abbrev pub helped : {F : Type 0} → End F
helped = record { code = 0; started = none }

-- A corpus is a plain name.
abbrev pub is_plain : String → Bool
is_plain name =
    not ((name =s= "") || ((includes name "/" || includes name "\\") || has_prefix name "."))

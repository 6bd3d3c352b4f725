-- ===== src/Cli/Run.antt =====
-- cmd/foliot/main.go and commands.go: `run`, `replay`, `benchFamily`, `planned` and `unknown`.
use foliot.Common.{
  ℕ, String, Bool, false, not, ◌&&◌, ◌||◌, Option, none, some, List, [], ◌∷◌, if◌then◌else◌, ◌=s=◌,
}
use foliot.Common.Float.{Float}
use foliot.Cli.{
  Built, replay, bench_family, Command, lookup_command, Parsed, help, invalid, flags, Action,
  replay_log, End, usage_error, helped, root_of,
}
use foliot.Cli.Bench.{is_empty_list, bench_command, corpus_verify}

-- What `replay` reads: whether the log verifies, and the state that each of the two reads folds to and
-- prints, none if the read or the printing fails.
pub record Replay : Type 0 where
  pub verifies : Bool
  pub first : Option String
  pub second : Option String

abbrev pub compare_states : Option String → Option String → ℕ
compare_states none second = 1
compare_states (some a) none = 1
compare_states (some a) (some b) = if not (a =s= b) then 1 else 0

module _ (fl : Float) (clean : String → String) (succeeds : Action fl.F → Bool)
    (parse : String → List String → Parsed fl.F) (log_at : String → Replay) where
  abbrev pub replay_in : Option String → End fl.F
  replay_in none = record { code = 1; started = none }
  replay_in (some root) =
      let r = log_at root in
      if not r.verifies
      then record { code = 1; started = some (replay_log root) }
      else record { code = compare_states r.first r.second; started = some (replay_log root) }

  abbrev pub replay_flags : Parsed fl.F → String → End fl.F
  replay_flags help home = helped
  replay_flags invalid home = usage_error
  replay_flags (flags f) home =
      if not (is_empty_list f.rest) || not f.verify
      then usage_error
      else replay_in (root_of clean home)

  -- `benchFamily`
  abbrev pub is_corpus_verify : String → List String → Bool
  is_corpus_verify a [] = false
  is_corpus_verify a (b ∷ args) = (a =s= "corpus") && (b =s= "verify")

  abbrev pub tail_args : List String → List String
  tail_args [] = []
  tail_args (a ∷ args) = args

  abbrev pub bench_args : List String → String → End fl.F
  bench_args [] home = usage_error
  bench_args (a ∷ args) home =
      if is_corpus_verify a args
      then corpus_verify fl clean succeeds (parse "corpus verify" (tail_args args)) home
      else if (a =s= "run") || ((a =s= "estimate") || ((a =s= "report") || (a =s= "probe")))
      then bench_command fl clean succeeds a (parse a args) home
      else usage_error

  abbrev pub run_handler : Option Built → List String → String → End fl.F
  run_handler none args home = usage_error
  run_handler (some replay) args home = replay_flags (parse "replay" args) home
  run_handler (some bench_family) args home = bench_args args home

  -- A family that is planned or unknown is refused.
  abbrev pub run_built : Option Command → List String → String → End fl.F
  run_built none args home = usage_error
  run_built (some c) args home = run_handler c.run args home

  -- `run`, of the arguments and FOLIOT_HOME; `printed` is whether the version could be printed.
  unfoldable pub run : List String → String → Bool → End fl.F
  unfolding lookup_command root_of bench_command corpus_verify
  run [] home printed = record { code = if printed then 0 else 1; started = none }
  run (a ∷ args) home printed =
      if (a =s= "-h") || ((a =s= "--help") || (a =s= "help"))
      then helped
      else run_built (lookup_command a) args home

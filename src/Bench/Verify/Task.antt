-- ===== src/Bench/Verify/Task.antt =====
-- src/core/bench/verify.go: `verifyTask`, the first pass over one task.
use foliot.Common.{
  String, ℤ, pos, ltb_ℤ, ◌==ℤ◌, Bool, true, false, not, ◌&&◌, Option, none, some, List, [], ◌∷◌,
  ◌++◌, map, if◌then◌else◌,
}
use foliot.Bench.Strings.{trim_space}
use foliot.Bench.Corpus.{Packages, TaskRecord, Manifest}
use foliot.Bench.Corpus.Load.{when, names_sha, load_task, check_files, Visit, blank}
use foliot.Bench.Verify.{
  Phase, base, landed, additions, not_run, Why, of_record, check_names_sha, no_mirror,
  base_time_unread, clock_before_base, additions_unread, no_work, no_checkout, setup_failed,
  check_not_copied, clock_wrong, passes_at_base, fails_at_landed, examines_nothing,
  passes_on_additions, no_digest, Result, unread,
}
use foliot.Bench.Verify.Env.{last_examined}
use foliot.Bench.Verify.History.{Git, Change, history_refusals, added_paths}

-- What the machine answers to one phase: whether `newCheckout`, the copy of the check, `clockEnv` and
-- `clockControl` work, what setup and the check exit with, and the log that the check leaves.
pub record PhaseAnswers : Type 0 where
  pub checked_out : Bool
  pub setup_exit : ℤ
  pub copied : Bool
  pub clock_offset_ms : Option ℤ
  pub clock_right : Bool
  pub check_exit : ℤ
  pub log : Option String

-- And to the whole pass: the record, the check's directory, the mirror, git in it, and the rest.
pub record TaskAnswers : Type 0 where
  pub record_file : Option TaskRecord
  pub check_regular : Bool
  pub check_walk : List Visit
  pub mirror : Bool
  pub git : Git
  pub hash_object : String → Option String
  pub blob : String → Option String
  pub work_cleared : Bool  -- os.RemoveAll
  pub work_made : Bool  -- os.MkdirAll
  pub at_phase : Phase → PhaseAnswers
  pub digest : Option String  -- taskSHA

-- The task that pass 2 needs, with the result.
abbrev pub Suite : Type 0
Suite = Option TaskRecord

abbrev shas_named : String → String → List String → List Why
shas_named p text [] = []
shas_named p text (sha ∷ shas) =
    when (names_sha text sha) (check_names_sha p) ++ shas_named p text shas

-- A check that names a pinned sha.
abbrev pub named_shas : List (String × String) → List String → List Why
named_shas [] shas = []
named_shas ((p, text) ∷ fs) shas = shas_named p text shas ++ named_shas fs shas

abbrev pub no_refusals : List Why → Bool
no_refusals [] = true
no_refusals (w ∷ ws) = false

abbrev pub adds_unread : Option (List Change) → List Why
adds_unread none = additions_unread ∷ []
adds_unread (some cs) = []

abbrev pub adds : Option (List Change) → List Change
adds none = []
adds (some cs) = cs

abbrev pub visible_of : Option TaskRecord → String
visible_of none = ""
visible_of (some t) = t.visible_check

-- The variables of `verifyTask` from the first phase on: the result and `clockRefused`.
pub record Passing (F : Type 0) : Type 0 where
  pub result : Result F
  pub clock_refused : Bool

module _ (k : Packages) where
  -- A clock before the base commit.
  abbrev pub clock_refusals : Git → TaskRecord → List Why
  clock_refusals git t = elim (git ("show" ∷ "-s" ∷ "--format=%cI" ∷ t.base_sha ∷ [])) [
    | none ↦ base_time_unread ∷ []
    | some based ↦ elim (k.parse_time based) [
      | none ↦ clock_before_base ∷ []
      | some b ↦ when (ltb_ℤ t.at b) clock_before_base
    ]
  ]

  -- What the mirror tells of the task.
  abbrev pub mirror_refusals : TaskRecord → List (String × String) → TaskAnswers → List Why
  mirror_refusals t files a =
      history_refusals k a.git t files a.hash_object
      ++ (clock_refusals a.git t ++ adds_unread (added_paths a.git a.blob t))

module _ {F : Type 0} where
  abbrev pub refuse : Result F → Why → Result F
  refuse r why = record r { refusals = r.refusals ++ (why ∷ []) }

  abbrev pub refuse_in : Passing F → Why → Passing F
  refuse_in s why = record s { result = refuse s.result why }

  abbrev pub note_offset : Phase → ℤ → Passing F → Passing F
  note_offset base offset s = s
  note_offset landed offset s = record s { result = record s.result { clock_offset_ms = offset } }
  note_offset additions offset s = s

  -- The end of `run`: the clock's environment and its control, then the check.
  abbrev pub run_check : Phase → PhaseAnswers → Passing F → ℤ × Passing F
  run_check phase a s = elim a.clock_offset_ms [
    | none ↦ (not_run, record (refuse_in s (clock_wrong phase)) { clock_refused = true })
    | some offset ↦
        if not a.clock_right
        then (not_run, record (refuse_in s (clock_wrong phase)) { clock_refused = true })
        else (a.check_exit, note_offset phase offset s)
  ]

  -- `run`, of one phase.
  abbrev pub run_phase : TaskRecord → Phase → PhaseAnswers → Passing F → ℤ × Passing F
  run_phase t phase a s =
      if s.clock_refused
      then (not_run, s)
      else if not a.checked_out
      then (not_run, refuse_in s (no_checkout phase))
      else if not (blank t.setup) && not (a.setup_exit ==ℤ pos 0)
      then (not_run, refuse_in s (setup_failed phase a.setup_exit))
      else if not a.copied
      then (not_run, refuse_in s (check_not_copied phase))
      else run_check phase a s

  -- The base phase, with what its exit refuses.
  abbrev pub base_phase : TaskRecord → PhaseAnswers → Passing F → Passing F
  base_phase t a s =
      let (exit, s') = run_phase t base a s in
      let s'' = record s' { result = record s'.result { base = exit } } in
      if exit ==ℤ pos 0 then refuse_in s'' passes_at_base else s''

  -- The landed phase.
  abbrev pub examine_landed : PhaseAnswers → Passing F → Passing F
  examine_landed a s =
      let n = last_examined a.log in
      let s' = record s { result = record s.result { examined = n } } in
      if ltb_ℤ (pos 0) n then s' else refuse_in s' examines_nothing

  abbrev pub landed_phase : TaskRecord → PhaseAnswers → Passing F → Passing F
  landed_phase t a s =
      let (exit, s') = run_phase t landed a s in
      let s'' = record s' { result = record s'.result { landed = exit } } in
      if exit ==ℤ pos 0
      then examine_landed a s''
      else if exit ==ℤ not_run
      then s''
      else refuse_in s'' (fails_at_landed exit)

  -- The base tree with the landed change's additions, if it has any.
  abbrev pub additions_phase : TaskRecord → List Change → PhaseAnswers → Passing F → Passing F
  additions_phase t [] a s = record s { result = record s.result { same_as_base = true } }
  additions_phase t (c ∷ cs) a s =
      let (exit, s') = run_phase t additions a s in
      let s'' = record s' { result = record s'.result { additions = exit } } in
      if exit ==ℤ pos 0 then refuse_in s'' passes_on_additions else s''

  -- The three phases.
  abbrev pub phases : TaskRecord → List Change → (Phase → PhaseAnswers) → Passing F → Passing F
  phases t added answer s =
      additions_phase t added (answer additions)
        (landed_phase t (answer landed) (base_phase t (answer base) s))

  abbrev pub start_phases : Result F → Passing F
  start_phases r = record { result = r; clock_refused = false }

  -- The end of `verifyTask`: the digest of what was verified.
  abbrev pub certify : TaskRecord → Option String → Result F → Result F × Suite
  certify t digest r = if not (no_refusals r.refusals) then (r, none) else elim digest [
    | none ↦ (refuse r no_digest, none)
    | some sha ↦ (record r { task_sha = sha }, some t)
  ]

  abbrev pub work_phases : TaskRecord → List Change → TaskAnswers → Result F → Result F × Suite
  work_phases t added a r =
      if not a.work_cleared
      then (refuse r no_work, none)
      else if not a.work_made
      then (refuse r no_work, none)
      else certify t a.digest (phases t added a.at_phase (start_phases r)).result

  abbrev pub empty_result : String → List Why → Result F
  empty_result id refusals = record {
    id = id;
    class = "";
    base = not_run;
    landed = not_run;
    additions = not_run;
    visible_base = unread;
    visible_landed = unread;
    same_as_base = false;
    examined = pos 0;
    refusals = refusals;
    task_sha = "";
    clock_at = "";
    clock_offset_ms = pos 0;
  }

module _ (k : Packages) {F : Type 0} where
  abbrev pub in_mirror :
      TaskRecord → List (String × String) → TaskAnswers → Result F → Result F × Suite
  in_mirror t files a r =
      let r' = record r { refusals = r.refusals ++ mirror_refusals k t files a } in
      if not (no_refusals r'.refusals)
      then (r', none)
      else work_phases t (adds (added_paths a.git a.blob t)) a r'

  abbrev pub with_record :
      Option TaskRecord → List (String × String) → TaskAnswers → Result F → Result F × Suite
  with_record none files a r = (r, none)
  with_record (some t) files a r =
      let r' = record r {
        class = t.class;
        clock_at = t.clock_at;
        refusals = r.refusals ++ named_shas files (t.base_sha ∷ t.landed_sha ∷ []);
      } in
      if not a.mirror then (refuse r' no_mirror, none) else in_mirror t files a r'

  -- `verifyTask`, of the task with an id in the corpus of a root.
  unfoldable pub verify_task : Manifest k → String → String → TaskAnswers → Result F × Suite
  unfolding load_task check_files trim_space history_refusals added_paths last_examined
  verify_task m root id a =
      let (task, refusals) = load_task k m id a.record_file in
      let (files, more) = check_files k (visible_of task) root a.check_regular a.check_walk in
      with_record task files a (empty_result id (map of_record (refusals ++ more)))

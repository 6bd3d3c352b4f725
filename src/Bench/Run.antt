-- ===== src/Bench/Run.antt =====
-- src/core/bench/runner.go: `runOne`, `launch`, `admit`; `loadControl` of load.go and `Free` of
-- workspace.go. What git, the processes, the file system and the clock answer to one run is a value.
pub mod Recorded
use foliot.Common.{
  ℕ, String, ℤ, pos, ltb_ℤ, ◌==ℤ◌, Bool, true, false, not, ◌||◌, ◌&&◌, Option, none, some, List, [],
  ◌∷◌, ◌++◌, is_none, length, if◌then◌else◌, ◌=s=◌, ltb, leb, ◌==◌, lookup, ◌+◌,
}
use foliot.Common.Float.{Float}
use foliot.Log.Data.{BenchRun, BenchVerdict, Column, null, number, word}
use foliot.Bench.Strings.{trim_space}
use foliot.Bench.Profile.{Arm}
use foliot.Bench.Plan.{Task, Planned}
use foliot.Bench.Probe.{Reading}
use foliot.Bench.Columns.{Observed, columns}

-- `CheckoutHistory`
pub record CheckoutHistory : Type 0 where
  pub landed_object_exit : ℤ
  pub commits : ℤ
  pub refs : ℤ

unfoldable pub is_free : CheckoutHistory → Bool
is_free h = (h.landed_object_exit ==ℤ pos 1) && (h.commits ==ℤ pos 1)

-- What `score` gives.
pub record Score : Type 0 where
  pub check_exit : ℤ
  pub examined : ℤ
  pub symlinks : ℤ
  pub confined : Bool

-- What the machine answers to a run, each step in turn: none and false are failures.
pub record Answers (F : Type 0) : Type 0 where
  pub history : Option CheckoutHistory  -- prepare
  pub public_since : String
  pub setup_exit : ℤ
  pub refused_offset_ms : ℤ  -- where no worker launches
  pub clock_offset_ms : Option ℤ  -- clockEnv
  pub record_open : Bool  -- the files of the run's record
  pub load : Option F
  pub clock_right : Bool  -- clockControl
  pub observed : Option (Observed F)  -- Launch and the process
  pub stream : Option (Reading F)  -- Read
  pub scored : Option Score  -- score

-- The session's facts that a run records.
pub record Facts (F : Type 0) : Type 0 where
  pub root : String
  pub real_home : String
  pub corpus : String
  pub corpus_sha : String
  pub harness : String
  pub billing : String
  pub base_exit : ℤ
  pub landed_exit : ℤ
  pub repository_public : Bool
  pub repository_language : String
  pub record_path : String
  pub work_path : String
  pub max_load : F
  pub probe_seq : ℤ

-- The data of the events that a run appends, and the cause of its verdict.
pub data RunEntry (F : Type 0) : Type 0 where
  run_entry : BenchRun F → RunEntry F
  verdict_entry : ℤ → BenchVerdict F → RunEntry F
  refused_entry : String → RunEntry F  -- the control that refused

-- The session: the events appended to its log with their seqs, and the last reading of the week.
pub record Session (F : Type 0) : Type 0 where
  pub next_seq : ℕ
  pub appended : List (ℤ × RunEntry F)
  pub week_used : Option F

pub data RunError : Type 0 where
  not_prepared : RunError
  not_appended : RunError
  not_history_free : RunError
  setup_failed : RunError
  no_clock : RunError
  no_record : RunError
  load_refused : RunError
  clock_refused : RunError
  not_launched : RunError
  not_read : RunError
  not_scored : RunError

pub data Outcome (A : Type 0) : Type 0 where
  failed : RunError → Outcome A
  ok : A → Outcome A

-- What becomes of an appended event: its line is written and synced, or an error comes before the line is
-- whole, or one comes from the sync, with the line in the file. Every event of a run is a durable one.
pub data Appending : Type 0 where
  written : Appending
  unwritten : Appending
  unsynced : Appending

abbrev pub pushed : {F : Type 0} → Session F → RunEntry F → Session F
pushed s e = record s {
  next_seq = s.next_seq + 1;
  appended = s.appended ++ ((pos s.next_seq, e) ∷ []);
}

module _ (fl : Float) (append_as : ℕ → Appending) where
  abbrev pub and_then :
      {A B : Type 0}
      → Outcome A × Session fl.F
      → (A → Session fl.F → Outcome B × Session fl.F)
      → Outcome B × Session fl.F
  and_then (failed e, s) f = (failed e, s)
  and_then (ok a, s) f = f a s

  -- s.log.Append, by what becomes of the event of each seq.
  abbrev pub append_run : Session fl.F → RunEntry fl.F → Outcome ℤ × Session fl.F
  append_run s entry = elim (append_as s.next_seq) [
    | written ↦ (ok (pos s.next_seq), pushed s entry)
    | unwritten ↦ (failed not_appended, s)
    | unsynced ↦ (failed not_appended, pushed s entry)
  ]

  -- `loadControl`
  abbrev pub load_control : Option fl.F → fl.F → Bool
  load_control load max =
      if fl.le_f max fl.zero_f
      then true
      else (elim load [ none ↦ false | some x ↦ not (fl.lt_f max x) ])

  abbrev refuse_launch : String → RunError → Session fl.F → Outcome Unit × Session fl.F
  refuse_launch control e s =
      and_then (append_run s (refused_entry control)) (λ _ s'. (failed e, s'))

  -- `admit`: the load is read first.
  abbrev admit : Answers fl.F → fl.F → Session fl.F → Outcome Unit × Session fl.F
  admit a max s =
      if not (load_control a.load max)
      then refuse_launch "load" load_refused s
      else if not a.clock_right
      then refuse_launch "clock" clock_refused s
      else (ok tt, s)

  -- `if st.WeekUsed != nil { s.weekUsed = st.WeekUsed }`
  abbrev pub note_week : Option fl.F → Session fl.F → Session fl.F
  note_week none s = s
  note_week (some w) s = record s { week_used = some w }

  -- The end of `launch`: the stream is read once the process has been observed.
  abbrev read_stream :
      Observed fl.F
      → Option (Reading fl.F)
      → Session fl.F
      → Outcome (Reading fl.F × Observed fl.F) × Session fl.F
  read_stream obs none s = (failed not_read, s)
  read_stream obs (some st) s = (ok (st, obs), note_week st.week_used s)

  -- `launch`
  abbrev launch :
      Answers fl.F → fl.F → Session fl.F → Outcome (Reading fl.F × Observed fl.F) × Session fl.F
  launch a max s =
      if not a.record_open
      then (failed no_record, s)
      else and_then (admit a max s) (λ _ s'. elim a.observed [
        | none ↦ (failed not_launched, s')
        | some obs ↦ read_stream obs a.stream s'
      ])

  -- The data of bench.run, but for the clock's offset.
  abbrev pub run_data :
      Facts fl.F → Answers fl.F → CheckoutHistory → Planned fl.F → ℤ → BenchRun fl.F
  run_data f a h r offset = record {
    corpus = f.corpus;
    corpus_sha = f.corpus_sha;
    task = r.task.id;
    class = r.task.class;
    arm = r.arm.name;
    adapter = f.harness;
    gate = "none";
    repeat = r.repeat;
    model = r.arm.model;
    provider = r.arm.provider;
    billing = f.billing;
    base_sha = r.task.base_sha;
    base_exit = f.base_exit;
    landed_exit = f.landed_exit;
    benchmark = true;
    cap_usd = r.cap;
    isolation_proven = true;
    isolation_probe = f.probe_seq;
    history_free = is_free h;
    landed_object_exit = h.landed_object_exit;
    model_cutoff = r.arm.cutoff;
    public_since = a.public_since;
    run = f.record_path;
    repository = r.task.repository;
    repository_public = some f.repository_public;
    repository_language = f.repository_language;
    clock_at = r.task.clock_at;
    clock_offset_ms = offset;
  }

  abbrev pub run_columns :
      Facts fl.F → Planned fl.F → Reading fl.F → Observed fl.F → List (String × Column fl.F)
  run_columns f r st obs =
      let cols = columns fl st obs f.billing f.work_path f.root f.real_home in
      if st.model =s= r.arm.model then cols else cols ++ (("model_ran", word st.model) ∷ [])

  abbrev pub is_pass : Planned fl.F → Reading fl.F → Score → Bool
  is_pass r st sc =
      (sc.check_exit ==ℤ pos 0) && (ltb_ℤ (pos 0) sc.examined && (st.model =s= r.arm.model))

  -- The data of bench.verdict.
  abbrev pub verdict_data :
      Facts fl.F → Planned fl.F → Reading fl.F → Observed fl.F → Score → BenchVerdict fl.F
  verdict_data f r st obs sc = record {
    corpus = f.corpus;
    task = r.task.id;
    arm = r.arm.name;
    repeat = r.repeat;
    pass = is_pass r st sc;
    false_claim = st.claimed_done && not (is_pass r st sc);
    columns = run_columns f r st obs;
    check_exit = sc.check_exit;
    examined = sc.examined;
    symlinks_skipped = sc.symlinks;
    week_used = st.week_used;
    harness_version = st.version;
    check_confined = sc.confined;
  }

  -- cols["cost_usd"].(float64)
  abbrev pub cost_column : List (String × Column fl.F) → Option fl.F
  cost_column cols = elim (lookup "cost_usd" cols) [ some (number c) ↦ some c | _ ↦ none ]

  -- `runOne` once the worker has ended: the score and the verdict.
  abbrev finish_run :
      Facts fl.F
      → Answers fl.F
      → Planned fl.F
      → ℤ
      → Reading fl.F × Observed fl.F
      → Session fl.F
      → Outcome (Option fl.F) × Session fl.F
  finish_run f a r seq (st, obs) s = elim a.scored [
    | none ↦ (failed not_scored, s)
    | some sc ↦
        and_then (append_run s (verdict_entry seq (verdict_data f r st obs sc)))
          (λ _ s'. (ok (cost_column (run_columns f r st obs)), s'))
  ]

  -- `runOne` with a checkout that is history-free.
  abbrev start_run :
      Facts fl.F
      → Answers fl.F
      → CheckoutHistory
      → Planned fl.F
      → Session fl.F
      → Outcome (Option fl.F) × Session fl.F
  start_run f a h r s =
      if not (trim_space r.task.setup =s= "") && not (a.setup_exit ==ℤ pos 0)
      then (failed setup_failed, s)
      else (elim a.clock_offset_ms [
        | none ↦ (failed no_clock, s)
        | some offset ↦
            and_then (append_run s (run_entry (run_data f a h r offset)))
              (λ seq s1. and_then (launch a f.max_load s1) (λ w s2. finish_run f a r seq w s2))
      ])

  -- `runOne`
  unfoldable pub run_one :
      Facts fl.F → Answers fl.F → Planned fl.F → Session fl.F → Outcome (Option fl.F) × Session fl.F
  unfolding is_free trim_space columns
  run_one f a r s = elim a.history [
    | none ↦ (failed not_prepared, s)
    | some h ↦
        if is_free h
        then start_run f a h r s
        else and_then (append_run s (run_entry (run_data f a h r a.refused_offset_ms)))
            (λ _ s'. (failed not_history_free, s'))
  ]

-- ===== src/Bench/Run/Recorded.antt =====
-- What a run leaves in the log (src/core/bench/runner.go, `runOne`).
use mathlib.Core.List.{append-nil, append_assoc}
use foliot.Common.{
  ℕ, ℤ, pos, ◌==ℤ◌, ◌≡◌, refl, sym, ap, ◌∙◌, Bool, true, false, not, ◌&&◌, ◌||◌, Option, none, some,
  List, [], ◌∷◌, ◌++◌, arith, ◌=s=◌, ◌+◌, ◌⊎◌, if-induct, Option-induct, inl, inr,
}
use foliot.Common.Float.{Float}
use foliot.Log.Data.{number}
use foliot.Bench.Strings.{trim_space}
use foliot.Bench.Plan.{Planned}
use foliot.Bench.Probe.{Reading}
use foliot.Bench.Columns.{Observed, columns, number_or_null}
use foliot.Bench.Run.{
  CheckoutHistory, is_free, Score, Answers, Facts, RunEntry, Session, RunError, Outcome, Appending,
  written, unwritten, unsynced, pushed, append_run, note_week, load_control, launch, cost_column,
  finish_run, read_stream, run_data, run_columns, verdict_data, run_one, and_then,
}

pub positive : {b : Bool} → not b ≡ false → b ≡ true
positive {b = true} h = refl
positive {b = false} h = ground (arith, h)

module _ (fl : Float) (append_as : ℕ → Appending) where
  append_run-induct :
      {B : Type 0} (P : Outcome B × Session fl.F → Type 0) (s : Session fl.F) (e : RunEntry fl.F)
      (k : ℤ → Session fl.F → Outcome B × Session fl.F)
      → P (Outcome.failed RunError.not_appended, s)
      → (append_as s.next_seq ≡ Appending.unsynced
          → P (Outcome.failed RunError.not_appended, pushed s e))
      → P (k (pos s.next_seq) (pushed s e))
      → P (and_then fl append_as (append_run fl append_as s e) k)
  append_run-induct P s e k f u g = go (append_as s.next_seq) refl
    where
      go :
          (x : Appending)
          → append_as s.next_seq ≡ x
          → P (
              and_then fl append_as
                (elim x [
                  | written ↦ (Outcome.ok (pos s.next_seq), pushed s e)
                  | unwritten ↦ (Outcome.failed RunError.not_appended, s)
                  | unsynced ↦ (Outcome.failed RunError.not_appended, pushed s e)
                ])
                k)
      go Appending.written h = g
      go Appending.unwritten h = f
      go Appending.unsynced h = u h

module _ (fl : Float) (append_as : ℕ → Appending) (facts : Facts fl.F) (a : Answers fl.F)
    (r : Planned fl.F) where
  -- The run's verdict is in the log, after the run's event and with that event as its cause.
  pub record Finished (s s' : Session fl.F) (cost : Option fl.F) : Type 0 where
    pub history : CheckoutHistory
    pub offset : ℤ
    pub reading : Reading fl.F
    pub observed : Observed fl.F
    pub score : Score
    pub free : (a.history ≡ some history) × (is_free history ≡ true)
    pub controlled :
        (load_control fl append_as a.load facts.max_load ≡ true) × (a.clock_right ≡ true)
    pub ran : (a.stream ≡ some reading) × (a.scored ≡ some score)
    pub cost_read : cost ≡ reading.cost_usd
    pub recorded :
        s'.appended
        ≡ s.appended
          ++ ((pos s.next_seq, RunEntry.run_entry (run_data fl append_as facts a history r offset))
              ∷ (
                pos (s.next_seq + 1),
                RunEntry.verdict_entry
                    (pos s.next_seq)
                    (verdict_data fl append_as facts r reading observed score),
              )
              ∷ [])

  abbrev pub is_verdict : RunEntry fl.F → Bool
  is_verdict (RunEntry.verdict_entry _ _) = true
  is_verdict _ = false

  abbrev pub has_verdict_entry : List (ℤ × RunEntry fl.F) → Bool
  has_verdict_entry [] = false
  has_verdict_entry ((_, e) ∷ es) = is_verdict e || has_verdict_entry es

  -- What a run adds to the log if it fails: no verdict.
  abbrev pub NoVerdict : Session fl.F → Session fl.F → Type 0
  NoVerdict s s' =
      (more : List (ℤ × RunEntry fl.F)) × (s'.appended ≡ s.appended ++ more)
      × (has_verdict_entry more ≡ false)

  -- The verdict was written and its sync failed: the log has it, though the run fails.
  abbrev pub Unsynced : RunError → Session fl.F → Session fl.F → Type 0
  Unsynced e s s' =
      (e ≡ RunError.not_appended)
      × (append_as (s.next_seq + 1) ≡ Appending.unsynced)
      × ((cost : Option fl.F) × Finished s s' cost)

  abbrev pub IsEnd : Session fl.F → Outcome (Option fl.F) × Session fl.F → Type 0
  IsEnd s (Outcome.failed e, s') = NoVerdict s s' ⊎ Unsynced e s s'
  IsEnd s (Outcome.ok cost, s') = Finished s s' cost

  -- What `launch` may do: fail and leave what is no verdict, or read a stream and append nothing.
  launch-induct :
      (P : Outcome (Option fl.F) × Session fl.F → Type 0) (s : Session fl.F)
      (k : Reading fl.F × Observed fl.F → Session fl.F → Outcome (Option fl.F) × Session fl.F)
      → ((e : RunError) (s' : Session fl.F) → NoVerdict s s' → P (Outcome.failed e, s'))
      → ((st : Reading fl.F) (obs : Observed fl.F) (s' : Session fl.F)
          → load_control fl append_as a.load facts.max_load ≡ true
          → a.clock_right ≡ true
          → a.stream ≡ some st
          → s'.appended ≡ s.appended
          → s'.next_seq ≡ s.next_seq
          → P (k (st, obs) s'))
      → P (and_then fl append_as (launch fl append_as a facts.max_load s) k)
  launch-induct P s k f g =
      if-induct Q (not a.record_open) _ _ (λ _. f RunError.no_record s same)
        (λ _.
          if-induct R (not (load_control fl append_as a.load facts.max_load)) _ _
            (λ _.
              append_run-induct fl append_as R s _ _ (f _ s same) (λ _. f _ _ (_, refl, refl))
                (f _ _ (_, refl, refl)))
            (λ l.
              if-induct R (not a.clock_right) _ _
                (λ _.
                  append_run-induct fl append_as R s _ _ (f _ s same) (λ _. f _ _ (_, refl, refl))
                    (f _ _ (_, refl, refl)))
                (λ c.
                  Option-induct Q a.observed _ _ (λ _. f _ s same)
                    (λ obs _. stream obs a.stream refl (positive l) (positive c)))))
    where
      same : NoVerdict s s
      same = ([], sym (append-nil s.appended), refl)

      Q : Outcome (Reading fl.F × Observed fl.F) × Session fl.F → Type 0
      Q o = P (and_then fl append_as o k)

      R : Outcome Unit × Session fl.F → Type 0
      R o = Q (
          and_then fl append_as o (λ _ s'. elim a.observed [
            | none ↦ (Outcome.failed RunError.not_launched, s')
            | some obs ↦ read_stream fl append_as obs a.stream s'
          ]))

      appended-note_week : (w : Option fl.F) → (note_week fl append_as w s).appended ≡ s.appended
      appended-note_week none = refl
      appended-note_week (some w) = refl

      next_seq-note_week : (w : Option fl.F) → (note_week fl append_as w s).next_seq ≡ s.next_seq
      next_seq-note_week none = refl
      next_seq-note_week (some w) = refl

      stream :
          (obs : Observed fl.F) (o : Option (Reading fl.F))
          → a.stream ≡ o
          → load_control fl append_as a.load facts.max_load ≡ true
          → a.clock_right ≡ true
          → Q (read_stream fl append_as obs o s)
      stream obs none x l c = f _ s same
      stream obs (some st) x l c =
          g st obs _ l c x (appended-note_week st.week_used) (next_seq-note_week st.week_used)

  cost_column-run_columns :
      (st : Reading fl.F) (obs : Observed fl.F)
      → cost_column fl append_as (run_columns fl append_as facts r st obs) ≡ st.cost_usd
  unfolding columns
  cost_column-run_columns st obs =
      if-induct (λ cols. cost_column fl append_as cols ≡ st.cost_usd) (st.model =s= r.arm.model) _ _
        (λ _. read st.cost_usd) (λ _. read st.cost_usd)
    where
      read :
          (o : Option fl.F)
          → (elim (some (number_or_null fl o)) [ some (number c) ↦ some c | _ ↦ none ]) ≡ o
      read none = refl
      read (some c) = refl

  finish_run-IsEnd :
      (s s' : Session fl.F) (h : CheckoutHistory) (offset : ℤ) (st : Reading fl.F)
      (obs : Observed fl.F)
      → (a.history ≡ some h) × (is_free h ≡ true)
      → (load_control fl append_as a.load facts.max_load ≡ true) × (a.clock_right ≡ true)
      → a.stream ≡ some st
      → s'.appended
        ≡ s.appended
          ++ ((pos s.next_seq, RunEntry.run_entry (run_data fl append_as facts a h r offset)) ∷ [])
      → s'.next_seq ≡ s.next_seq + 1
      → IsEnd s (finish_run fl append_as facts a r (pos s.next_seq) (st, obs) s')
  finish_run-IsEnd s s' h offset st obs free controlled ran p q =
      Option-induct (IsEnd s) a.scored _ _ (λ _. inl (_, p, refl))
        (λ sc z.
          append_run-induct fl append_as (IsEnd s) s' _ _ (inl (_, p, refl))
            (λ u. inr (refl, ap append_as (sym q) ∙ u, (_, finished sc z))) (finished sc z))
    where
      verdict : Reading fl.F → Observed fl.F → Score → RunEntry fl.F
      verdict st obs sc =
          RunEntry.verdict_entry (pos s.next_seq) (verdict_data fl append_as facts r st obs sc)

      finished :
          (sc : Score)
          → a.scored ≡ some sc
          → Finished s
              (pushed s' (verdict st obs sc))
              (cost_column fl append_as (run_columns fl append_as facts r st obs))
      finished sc z = (record {
        history = h;
        offset = offset;
        reading = st;
        observed = obs;
        score = sc;
        free = free;
        controlled = controlled;
        ran = (ran, z);
        cost_read = cost_column-run_columns st obs;
        recorded =
            ap (λ n. s'.appended ++ ((pos n, verdict st obs sc) ∷ [])) q
            ∙ ap (λ m. m ++ ((pos (s.next_seq + 1), verdict st obs sc) ∷ [])) p
            ∙ append_assoc s.appended _ _;
      })

  -- A run that is scored has a history-free checkout, a machine that both controls admit, and leaves
  -- its bench.run and then its bench.verdict, which names the former's seq as its cause; what it is
  -- said to have cost is what its stream reads. A run that fails leaves no verdict, but where the sync of
  -- its verdict is what failed: then the log has what it has of a scored run.
  pub run_one-IsEnd : (s : Session fl.F) → IsEnd s (run_one fl append_as facts a r s)
  unfolding run_one
  run_one-IsEnd s =
      Option-induct (IsEnd s) a.history _ _ (λ n. inl same)
        (λ h x.
          if-induct (IsEnd s) (is_free h) _ _
            (λ t.
              if-induct (IsEnd s)
                (not (trim_space r.task.setup =s= "") && not (a.setup_exit ==ℤ pos 0)) _ _
                (λ _. inl same)
                (λ _.
                  Option-induct (IsEnd s) a.clock_offset_ms _ _ (λ _. inl same)
                    (λ offset _.
                      append_run-induct fl append_as (IsEnd s) s _ _ (inl same)
                        (λ _. inl (_, refl, refl))
                        (launch-induct (IsEnd s) (pushed s _) _
                          (λ e s' (more, x, v).
                            inl (_ ∷ more, x ∙ append_assoc s.appended _ more, v))
                          (λ st obs s' l c y p q.
                            finish_run-IsEnd s s' h offset st obs (x, t) (l, c) y p q)))))
            (λ n.
              append_run-induct fl append_as (IsEnd s) s _ _ (inl same) (λ _. inl (_, refl, refl))
                (inl (_, refl, refl))))
    where
      same : NoVerdict s s
      same = ([], sym (append-nil s.appended), refl)

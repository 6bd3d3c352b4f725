-- ===== src/Bench/Verify/Phases.antt =====
-- What the three phases of a hidden check leave where nothing is refused (src/core/bench/verify.go).
use foliot.Common.{
  ℤ, pos, ltb_ℤ, ◌==ℤ◌, ==ℤ_iff, ◌≡◌, ◌≢◌, ◌⊎◌, refl, sym, ap, ◌∙◌, true, false, not, ◌&&◌, List,
  [], ◌∷◌, ◌++◌, inl, inr, if-induct, Option-induct, arith,
}
use foliot.Bench.Corpus.{TaskRecord}
use foliot.Bench.Corpus.Load.{blank}
use foliot.Bench.Verify.{
  Phase, base, landed, additions, not_run, Why, Result, no_checkout, setup_failed, check_not_copied,
  clock_wrong, passes_at_base, fails_at_landed, examines_nothing, passes_on_additions,
}
use foliot.Bench.Verify.Env.{last_examined}
use foliot.Bench.Verify.History.{Change}
use foliot.Bench.Verify.Task.{
  PhaseAnswers, Passing, note_offset, run_check, run_phase, base_phase, landed_phase,
  examine_landed, additions_phase, phases,
}

pub snoc-not_nil {ℓ} : {R : Type ℓ} (xs : List R) (x : R) → xs ++ (x ∷ []) ≢ []
snoc-not_nil [] x h = cc
snoc-not_nil (y ∷ ys) x h = cc

refused {κ} : {P : Type κ} (ws : List Why) (w : Why) → ws ++ (w ∷ []) ≡ [] → P
refused ws w h = absurd (snoc-not_nil ws w h)

module _ {F : Type 0} where
  abbrev pub Clean : Passing F → Type 0
  Clean s = s.result.refusals ≡ []

  -- A phase that ran to its check: the exit is the check's, and nothing else is set but the offset.
  pub record Ran (a : PhaseAnswers) (s : Passing F) (out : ℤ × Passing F) : Type 0 where
    pub before : Clean s
    pub exits : out.0 ≡ a.check_exit
    pub flag : out.1.clock_refused ≡ s.clock_refused
    pub at_base : out.1.result.base ≡ s.result.base
    pub at_landed : out.1.result.landed ≡ s.result.landed
    pub counted : out.1.result.examined ≡ s.result.examined

  note_offset-Ran :
      (p : Phase) (offset : ℤ) (a : PhaseAnswers) (s : Passing F)
      → Clean s
      → Ran a s (a.check_exit, note_offset p offset s)
  note_offset-Ran base offset a s h = record {
    before = h;
    exits = refl;
    flag = refl;
    at_base = refl;
    at_landed = refl;
    counted = refl;
  }
  note_offset-Ran landed offset a s h = record {
    before = h;
    exits = refl;
    flag = refl;
    at_base = refl;
    at_landed = refl;
    counted = refl;
  }
  note_offset-Ran additions offset a s h = record {
    before = h;
    exits = refl;
    flag = refl;
    at_base = refl;
    at_landed = refl;
    counted = refl;
  }

  note_offset-Clean :
      (p : Phase) (offset : ℤ) (s : Passing F) → Clean (note_offset p offset s) → Clean s
  note_offset-Clean base offset s h = h
  note_offset-Clean landed offset s h = h
  note_offset-Clean additions offset s h = h

  run_check-Ran :
      (p : Phase) (a : PhaseAnswers) (s : Passing F)
      → Clean (run_check p a s).1
      → Ran a s (run_check p a s)
  run_check-Ran p a s =
      Option-induct (λ out. Clean out.1 → Ran a s out) a.clock_offset_ms _ _
        (λ _ h. refused s.result.refusals (clock_wrong p) h)
        (λ offset _.
          if-induct (λ out. Clean out.1 → Ran a s out) (not a.clock_right) _ _
            (λ _ h. refused s.result.refusals (clock_wrong p) h)
            (λ _ h. note_offset-Ran p offset a s (note_offset-Clean p offset s h)))

  pub run_phase-Ran :
      (t : TaskRecord) (p : Phase) (a : PhaseAnswers) (s : Passing F)
      → (Clean s → s.clock_refused ≡ false)
      → Clean (run_phase t p a s).1
      → Ran a s (run_phase t p a s)
  run_phase-Ran t p a s f =
      let P = λ (out : ℤ × Passing F). Clean out.1 → Ran a s out in
      if-induct P s.clock_refused _ _ (λ e h. absurd (ground (arith, e, f h)))
        (λ _.
          if-induct P (not a.checked_out) _ _ (λ _ h. refused s.result.refusals (no_checkout p) h)
            (λ _.
              if-induct P (not (blank t.setup) && not (a.setup_exit ==ℤ pos 0)) _ _
                (λ _ h. refused s.result.refusals (setup_failed p a.setup_exit) h)
                (λ _.
                  if-induct P (not a.copied) _ _
                    (λ _ h. refused s.result.refusals (check_not_copied p) h)
                    (λ _. run_check-Ran p a s))))

  -- A clean pass through the base phase: the check ran there and did not exit 0.
  record BaseDone (a : PhaseAnswers) (s out : Passing F) : Type 0 where
    before : Clean s
    flag : out.clock_refused ≡ false
    exits : out.result.base ≡ a.check_exit
    fails : a.check_exit ≢ pos 0

  base_phase-done :
      (t : TaskRecord) (a : PhaseAnswers) (s : Passing F)
      → (Clean s → s.clock_refused ≡ false)
      → Clean (base_phase t a s)
      → BaseDone a s (base_phase t a s)
  base_phase-done t a s f =
      if-induct (λ out. Clean out → BaseDone a s out) ((run_phase t base a s).0 ==ℤ pos 0) _ _
        (λ _ h. refused (run_phase t base a s).1.result.refusals passes_at_base h)
        (λ n h.
          let ran = run_phase-Ran t base a s f h in
          record {
            before = ran.before;
            flag = ran.flag ∙ f ran.before;
            exits = ran.exits;
            fails = λ e.
                ground (arith, n, (==ℤ_iff (run_phase t base a s).0 (pos 0)).1 (ran.exits ∙ e));
          })

  -- Through the landed phase: the check exits 0 and says that it examined something, or never started.
  abbrev pub Accepts : PhaseAnswers → Result F → Type 0
  Accepts a r =
      ((r.landed ≡ pos 0)
        × ((r.examined ≡ last_examined a.log) × (ltb_ℤ (pos 0) r.examined ≡ true)))
      ⊎ (r.landed ≡ not_run)

  record LandedDone (a : PhaseAnswers) (s out : Passing F) : Type 0 where
    before : Clean s
    flag : out.clock_refused ≡ false
    exits : out.result.landed ≡ a.check_exit
    kept : out.result.base ≡ s.result.base
    accepts : Accepts a out.result

  examine_landed-done :
      (a : PhaseAnswers) (s : Passing F) (out : ℤ × Passing F)
      → (Clean s → s.clock_refused ≡ false)
      → (Clean out.1 → Ran a s out)
      → out.0 ≡ pos 0
      → let s'' = record out.1 { result = record out.1.result { landed = out.0 } } in
        (Clean (examine_landed a s'') → LandedDone a s (examine_landed a s''))
  examine_landed-done a s out f run z =
      if-induct (λ x. Clean x → LandedDone a s x) (ltb_ℤ (pos 0) (last_examined a.log)) _ _
        (λ y h.
          let ran = run h in
          record {
            before = ran.before;
            flag = ran.flag ∙ f ran.before;
            exits = ran.exits;
            kept = ran.at_base;
            accepts = inl (z, (refl, y));
          })
        (λ _ h. refused out.1.result.refusals examines_nothing h)

  landed_phase-done :
      (t : TaskRecord) (a : PhaseAnswers) (s : Passing F)
      → (Clean s → s.clock_refused ≡ false)
      → Clean (landed_phase t a s)
      → LandedDone a s (landed_phase t a s)
  landed_phase-done t a s f =
      let P = λ (x : Passing F). Clean x → LandedDone a s x in
      let out = run_phase t landed a s in
      if-induct P (out.0 ==ℤ pos 0) _ _
        (λ z.
          examine_landed-done a s out f (run_phase-Ran t landed a s f)
            ((==ℤ_iff out.0 (pos 0)).0 z))
        (λ _.
          if-induct P (out.0 ==ℤ not_run) _ _
            (λ z h.
              let ran = run_phase-Ran t landed a s f h in
              record {
                before = ran.before;
                flag = ran.flag ∙ f ran.before;
                exits = ran.exits;
                kept = ran.at_base;
                accepts = inr ((==ℤ_iff out.0 not_run).0 z);
              })
            (λ _ h. refused out.1.result.refusals (fails_at_landed out.0) h))

  -- Through the additions: there are none, or the check does not exit 0 on them.
  abbrev pub Tests : List Change → PhaseAnswers → Result F → Type 0
  Tests added a r =
      ((added ≡ []) × (r.same_as_base ≡ true))
      ⊎ ((r.additions ≡ a.check_exit) × (r.additions ≢ pos 0))

  record AddedDone (added : List Change) (a : PhaseAnswers) (s out : Passing F) : Type 0 where
    before : Clean s
    base_kept : out.result.base ≡ s.result.base
    landed_kept : out.result.landed ≡ s.result.landed
    count_kept : out.result.examined ≡ s.result.examined
    tests : Tests added a out.result

  additions_phase-done :
      (t : TaskRecord) (added : List Change) (a : PhaseAnswers) (s : Passing F)
      → (Clean s → s.clock_refused ≡ false)
      → Clean (additions_phase t added a s)
      → AddedDone added a s (additions_phase t added a s)
  additions_phase-done t [] a s f h = record {
    before = h;
    base_kept = refl;
    landed_kept = refl;
    count_kept = refl;
    tests = inl (refl, refl);
  }
  additions_phase-done t (c ∷ cs) a s f h =
      let out = run_phase t additions a s in
      if-induct (λ x. Clean x → AddedDone (c ∷ cs) a s x) (out.0 ==ℤ pos 0) _ _
        (λ _ k. refused out.1.result.refusals passes_on_additions k)
        (λ n k.
          let ran = run_phase-Ran t additions a s f k in
          record {
            before = ran.before;
            base_kept = ran.at_base;
            landed_kept = ran.at_landed;
            count_kept = ran.counted;
            tests = inr (ran.exits, λ e. ground (arith, n, (==ℤ_iff out.0 (pos 0)).1 e));
          })
        h

  -- What a result without a refusal says of the three phases.
  pub record Tried (added : List Change) (answer : Phase → PhaseAnswers) (r : Result F)
      : Type 0 where
    pub at_base : r.base ≡ (answer base).check_exit
    pub fails_at_base : r.base ≢ pos 0
    pub at_landed : r.landed ≡ (answer landed).check_exit
    pub accepts : Accepts (answer landed) r
    pub tests : Tests added (answer additions) r

  Accepts-kept :
      (a : PhaseAnswers) (r r' : Result F)
      → r'.landed ≡ r.landed
      → r'.examined ≡ r.examined
      → Accepts a r
      → Accepts a r'
  Accepts-kept a r r' l e (inl (z, (c, p))) = inl (l ∙ z, (e ∙ c, ap (ltb_ℤ (pos 0)) e ∙ p))
  Accepts-kept a r r' l e (inr n) = inr (l ∙ n)

  -- The three steps, one after the other.
  Tried-chain :
      (added : List Change) (answer : Phase → PhaseAnswers) (s s1 s2 s3 : Passing F)
      → (Clean s1 → BaseDone (answer base) s s1)
      → ((Clean s1 → s1.clock_refused ≡ false) → Clean s2 → LandedDone (answer landed) s1 s2)
      → ((Clean s2 → s2.clock_refused ≡ false)
          → Clean s3
          → AddedDone added (answer additions) s2 s3)
      → Clean s3
      → Clean s × Tried added answer s3.result
  Tried-chain added answer s s1 s2 s3 one two three h =
      let two' = two (λ c. (one c).flag) in
      let c = three (λ d. (two' d).flag) h in
      let b = two' c.before in
      let a = one b.before in
      (
        a.before,
        record {
          at_base = c.base_kept ∙ b.kept ∙ a.exits;
          fails_at_base = λ z. a.fails (sym (c.base_kept ∙ b.kept ∙ a.exits) ∙ z);
          at_landed = c.landed_kept ∙ b.exits;
          accepts =
              Accepts-kept (answer landed) s2.result s3.result c.landed_kept c.count_kept b.accepts;
          tests = c.tests;
        },
      )

  pub phases-Tried :
      (t : TaskRecord) (added : List Change) (answer : Phase → PhaseAnswers) (s : Passing F)
      → (Clean s → s.clock_refused ≡ false)
      → Clean (phases t added answer s)
      → Clean s × Tried added answer (phases t added answer s).result
  phases-Tried t added answer s f =
      Tried-chain added answer s (base_phase t (answer base) s)
        (landed_phase t (answer landed) (base_phase t (answer base) s)) (phases t added answer s)
        (base_phase-done t (answer base) s f)
        (landed_phase-done t (answer landed) (base_phase t (answer base) s))
        (additions_phase-done t added (answer additions)
          (landed_phase t (answer landed) (base_phase t (answer base) s)))

-- ===== src/Cli/Ends.antt =====
-- How a command line ends (cmd/foliot).
use text.Mathlib.TextEquality.{eq_iff}
use foliot.Common.{
  sym, ap, ◌∙◌, ℕ, ◌≡◌, ◌⊎◌, inl, inr, refl, String, pos, ltb_ℤ, Bool, true, false, not, ◌||◌,
  Option, none, some, List, [], ◌∷◌, ◌=s=◌, if-induct, Bool-cases, arith, ◌≤◌,
}
use foliot.Common.Float.{Float}
use foliot.Cli.{
  Built, replay, bench_family, Command, lookup_command, Flags, Parsed, help, invalid, flags, Action,
  verify_corpus, report, sweep, estimate, probe, replay_log, End, is_plain, root_of,
}
use foliot.Cli.Bench.{
  is_empty_list, is_misused, all_allowed, allowed, action_of, exit_for, start_in, bench_command,
  corpus_verify,
}
use foliot.Cli.Run.{
  Replay, compare_states, replay_in, replay_flags, is_corpus_verify, bench_args, run_handler,
  run_built, run,
}

-- The corpus that an action names, if it names one.
abbrev pub corpus_of : {F : Type 0} → Action F → Option String
corpus_of (verify_corpus root corpus tasks jobs) = some corpus
corpus_of (report root corpus arms tasks) = some corpus
corpus_of (sweep root corpus f) = some corpus
corpus_of (estimate root corpus f) = some corpus
corpus_of (probe root corpus arm task isolated cap) = some corpus
corpus_of (replay_log root) = none

abbrev pub root_in : {F : Type 0} → Action F → String
root_in (verify_corpus root corpus tasks jobs) = root
root_in (report root corpus arms tasks) = root
root_in (sweep root corpus f) = root
root_in (estimate root corpus f) = root
root_in (probe root corpus arm task isolated cap) = root
root_in (replay_log root) = root

abbrev pub names_plainly : Option String → Bool
names_plainly none = true
names_plainly (some corpus) = is_plain corpus

some-inj : {A : Type 0} {a b : A} → some a ≡ some b → a ≡ b
some-inj e = cc

not-false : (b : Bool) → not b ≡ false → b ≡ true
not-false b h = ground (arith, h)

second_false : (a b c : Bool) → (a || (not b || c)) ≡ false → b ≡ true
second_false a b c h = ground (arith, h)

-- Two states are one, or are not.
compare-states :
    (a b : Option String)
    → ((compare_states a b ≡ 0) × ((s : String) × (a ≡ some s) × (b ≡ some s)))
      ⊎ ((compare_states a b ≡ 1) × (((s : String) × (a ≡ some s) × (b ≡ some s)) → ⊥))
compare-states none b = inr (refl, λ (s, x, y). cc)
compare-states (some a) none = inr (refl, λ (s, x, y). cc)
compare-states (some a) (some b) = elim (Bool-cases (a =s= b)) [
  | inl t ↦ inl (ground (arith, t), (a, refl, ap some (sym ((eq_iff a b).0 t))))
  | inr f ↦
      inr (ground (arith, f), λ (s, x, y). ground (arith, f, (eq_iff a b).1 (some-inj (x ∙ sym y))))
]

module _ (fl : Float) (clean : String → String) (succeeds : Action fl.F → Bool)
    (parse : String → List String → Parsed fl.F) (log_at : String → Replay) where
  -- What was started did what it is for: a replay verified its log and folded it to one state twice.
  abbrev pub Done : Action fl.F → Type 0
  Done (replay_log root) =
      ((log_at root).verifies ≡ true)
      × ((s : String) × ((log_at root).first ≡ some s) × ((log_at root).second ≡ some s))
  Done a = succeeds a ≡ true

  -- A command that starts something has a root and a plain corpus, and it exits 0 just if that is done.
  pub record IsStarted (home : String) (e : End fl.F) (a : Action fl.F) : Type 0 where
    pub started : e.started ≡ some a
    pub rooted : root_of clean home ≡ some (root_in a)
    pub plain : names_plainly (corpus_of a) ≡ true
    pub exits : ((e.code ≡ 0) × Done a) ⊎ ((e.code ≡ 1) × (Done a → ⊥))

  -- Or nothing is started.
  abbrev pub IsEnd : String → End fl.F → Type 0
  IsEnd home e = ((e.started ≡ none) × (e.code ≤ 2)) ⊎ ((a : Action fl.F) × IsStarted home e a)

  nothing : (home : String) (c : ℕ) → c ≤ 2 → IsEnd home (record { code = c; started = none })
  nothing home c h = inl (refl, h)

  exit_for-IsStarted :
      (home : String) (a : Action fl.F)
      → (succeeds a ≡ true → Done a)
      → (Done a → succeeds a ≡ true)
      → root_of clean home ≡ some (root_in a)
      → names_plainly (corpus_of a) ≡ true
      → IsStarted home (exit_for fl clean succeeds a) a
  exit_for-IsStarted home a to from r p = record {
    started = refl;
    rooted = r;
    plain = p;
    exits = elim (Bool-cases (succeeds a)) [
      | inl t ↦ inl (ground (arith, t), to t)
      | inr f ↦ inr (ground (arith, f), λ d. absurd (ground (arith, f, from d)))
    ];
  }

  -- An action in a root on a corpus, that is no replay.
  abbrev pub Fits : String → Action fl.F → Type 0
  Fits root a =
      (root_in a ≡ root)
      × (names_plainly (corpus_of a) ≡ true)
      × (succeeds a ≡ true → Done a)
      × (Done a → succeeds a ≡ true)

  start_in-IsEnd :
      (home : String) (o : Option String) (action : String → Action fl.F)
      → root_of clean home ≡ o
      → ((root : String) → Fits root (action root))
      → IsEnd home (start_in fl clean succeeds o action)
  start_in-IsEnd home none action e f = nothing home 2 (omega arith)
  start_in-IsEnd home (some root) action e f =
      let (r, p, to, from) = f root in
      inr (action root, exit_for-IsStarted home (action root) to from (e ∙ ap some (sym r)) p)

  action_of-Fits :
      (name root : String) (f : Flags fl.F)
      → is_plain f.corpus ≡ true
      → Fits root (action_of fl clean succeeds name root f)
  action_of-Fits name root f p =
      if-induct (Fits root) (name =s= "report") _ _ (λ _. (refl, p, (λ h. h), λ h. h))
        (λ _.
          if-induct (Fits root) (name =s= "run") _ _ (λ _. (refl, p, (λ h. h), λ h. h))
            (λ _.
              if-induct (Fits root) (name =s= "estimate") _ _ (λ _. (refl, p, (λ h. h), λ h. h))
                (λ _. (refl, p, (λ h. h), λ h. h))))

  corpus_verify-IsEnd :
      (p : Parsed fl.F) (home : String) → IsEnd home (corpus_verify fl clean succeeds p home)
  unfolding corpus_verify
  corpus_verify-IsEnd help home = nothing home 0 (omega arith)
  corpus_verify-IsEnd invalid home = nothing home 2 (omega arith)
  corpus_verify-IsEnd (flags f) home =
      if-induct (IsEnd home) (not (is_empty_list f.rest)) _ _ (λ _. nothing home 2 (omega arith))
        (λ _.
          if-induct (IsEnd home) (not (is_plain f.corpus)) _ _ (λ _. nothing home 2 (omega arith))
            (λ p.
              if-induct (IsEnd home) (ltb_ℤ f.jobs (pos 1)) _ _ (λ _. nothing home 2 (omega arith))
                (λ _.
                  start_in-IsEnd home (root_of clean home)
                    (λ root. verify_corpus root f.corpus f.tasks f.jobs) refl
                    (λ root. (refl, not-false (is_plain f.corpus) p, (λ h. h), λ h. h)))))

  bench_command-IsEnd :
      (name : String) (p : Parsed fl.F) (home : String)
      → IsEnd home (bench_command fl clean succeeds name p home)
  unfolding bench_command
  bench_command-IsEnd name help home = nothing home 0 (omega arith)
  bench_command-IsEnd name invalid home = nothing home 2 (omega arith)
  bench_command-IsEnd name (flags f) home =
      if-induct (IsEnd home) (not (all_allowed (allowed name) f.given)) _ _
        (λ _. nothing home 2 (omega arith))
        (λ _.
          if-induct (IsEnd home) (is_misused fl clean succeeds name f) _ _
            (λ _. nothing home 2 (omega arith))
            (λ m.
              start_in-IsEnd home (root_of clean home)
                (λ root. action_of fl clean succeeds name root f) refl
                (λ root. action_of-Fits name root f (second_false _ (is_plain f.corpus) _ m))))

  replay_in-IsEnd :
      (home : String) (o : Option String)
      → root_of clean home ≡ o
      → IsEnd home (replay_in fl clean succeeds parse log_at o)
  replay_in-IsEnd home none e = nothing home 1 (omega arith)
  replay_in-IsEnd home (some root) e =
      let r = log_at root in
      if-induct (IsEnd home) (not r.verifies) _ _
        (λ n. inr (
          replay_log root,
          record {
            started = refl;
            rooted = e;
            plain = refl;
            exits = inr (refl, λ d. ground (arith, n, d.0));
          },
        ))
        (λ n. inr (
          replay_log root,
          record {
            started = refl;
            rooted = e;
            plain = refl;
            exits = elim (compare-states r.first r.second) [
              | inl (z, s) ↦ inl (z, (not-false r.verifies n, s))
              | inr (o, f) ↦ inr (o, λ d. f d.1)
            ];
          },
        ))

  replay-IsEnd :
      (p : Parsed fl.F) (home : String)
      → IsEnd home (replay_flags fl clean succeeds parse log_at p home)
  replay-IsEnd help home = nothing home 0 (omega arith)
  replay-IsEnd invalid home = nothing home 2 (omega arith)
  replay-IsEnd (flags f) home =
      if-induct (IsEnd home) (not (is_empty_list f.rest) || not f.verify) _ _
        (λ _. nothing home 2 (omega arith)) (λ _. replay_in-IsEnd home (root_of clean home) refl)

  bench_args-IsEnd :
      (args : List String) (home : String)
      → IsEnd home (bench_args fl clean succeeds parse log_at args home)
  bench_args-IsEnd [] home = nothing home 2 (omega arith)
  bench_args-IsEnd (a ∷ args) home =
      if-induct (IsEnd home) (is_corpus_verify fl clean succeeds parse log_at a args) _ _
        (λ _. corpus_verify-IsEnd _ home)
        (λ _.
          if-induct (IsEnd home)
            ((a =s= "run") || ((a =s= "estimate") || ((a =s= "report") || (a =s= "probe")))) _ _
            (λ _. bench_command-IsEnd a (parse a args) home) (λ _. nothing home 2 (omega arith)))

  run_handler-IsEnd :
      (o : Option Built) (args : List String) (home : String)
      → IsEnd home (run_handler fl clean succeeds parse log_at o args home)
  run_handler-IsEnd none args home = nothing home 2 (omega arith)
  run_handler-IsEnd (some replay) args home = replay-IsEnd (parse "replay" args) home
  run_handler-IsEnd (some bench_family) args home = bench_args-IsEnd args home

  run_built-IsEnd :
      (o : Option Command) (args : List String) (home : String)
      → IsEnd home (run_built fl clean succeeds parse log_at o args home)
  run_built-IsEnd none args home = nothing home 2 (omega arith)
  run_built-IsEnd (some c) args home = run_handler-IsEnd c.run args home

  -- Every command line ends with 0, 1 or 2: without anything started, or with one action, in the root
  -- that FOLIOT_HOME names absolutely and on a corpus with a plain name, and then with 0 just if that
  -- action is done and else with 1.
  pub run-IsEnd :
      (args : List String) (home : String) (printed : Bool)
      → IsEnd home (run fl clean succeeds parse log_at args home printed)
  unfolding run
  run-IsEnd [] home true = nothing home 0 (omega arith)
  run-IsEnd [] home false = nothing home 1 (omega arith)
  run-IsEnd (a ∷ args) home printed =
      if-induct (IsEnd home) ((a =s= "-h") || ((a =s= "--help") || (a =s= "help"))) _ _
        (λ _. nothing home 0 (omega arith)) (λ _. run_built-IsEnd (lookup_command a) args home)

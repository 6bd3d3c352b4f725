-- ===== src/Bench/Verify/Passed.antt =====
-- What the second pass leaves with a task (src/core/bench/verify.go).
use mathlib.Core.Path.{subst}
use foliot.Common.{
  ℕ, pos, ltb_ℤ, ◌==ℤ◌, ==ℤ_iff, ◌≡◌, ◌≢◌, refl, sym, ap, ◌∙◌, true, not, ◌&&◌, Option, none, some,
  List, [], if-induct, get_elem?, arith,
}
use foliot.Bench.Corpus.{Packages, TaskRecord}
use foliot.Bench.Verify.{Side, SuiteRun, VisibleRun, Result}
use foliot.Bench.Verify.Visible.{
  SuiteAnswers, VisibleKey, VisibleOutcome, Once, stopped, ran, once, after_red, after_first,
  of_once, run_visible, key_of, group, verify_visible,
}
use foliot.Bench.Verify.Holders.{IsGrouped-group, group-Held, Held, From-all}
use foliot.Bench.Verify.Given.{some-inj, reading, give_groups-Held}

-- A suite that exits 0 over at least one test, without a re-run.
abbrev pub Green : {F : Type 0} → VisibleRun F → Type 0
Green v = (v.first.exit ≡ pos 0) × (ltb_ℤ (pos 0) v.first.examined ≡ true) × (v.rerun ≡ none)

module _ (k : Packages) (re : k.Regexp) {F : Type 0} where
  after_red-fails :
      (first : SuiteRun F) (second : Once F) → (after_red k re first second).failure ≢ none
  after_red-fails first (stopped f) h = cc
  after_red-fails first (ran second) h = cc

  after_first-Green :
      (first : SuiteRun F) (second : Once F)
      → (after_first k re first second).failure ≡ none
      → Green (after_first k re first second).run
  after_first-Green first second =
      let P = λ (o : VisibleOutcome F). o.failure ≡ none → Green o.run in
      if-induct P ((first.exit ==ℤ pos 0) && not (ltb_ℤ (pos 0) first.examined)) _ _
        (λ _ h. absurd cc)
        (λ n.
          if-induct P (first.exit ==ℤ pos 124) _ _ (λ _ h. absurd cc)
            (λ _.
              if-induct P (not (first.exit ==ℤ pos 0)) _ _
                (λ _ h. absurd (after_red-fails first second h))
                (λ z h. (
                  (==ℤ_iff first.exit (pos 0)).0 (ground (arith, z)),
                  ground (arith, z, n),
                  refl,
                ))))

  pub run_visible-Green :
      (key : VisibleKey) (a b : SuiteAnswers F)
      → (run_visible k re key a b).failure ≡ none
      → Green (run_visible k re key a b).run
  unfolding run_visible
  run_visible-Green key a b = of_once-Green (once k re key a) (once k re key b)
    where
      of_once-Green :
          (first second : Once F)
          → (of_once k re first second).failure ≡ none
          → Green (of_once k re first second).run
      of_once-Green (stopped f) second h = absurd cc
      of_once-Green (ran first) second h = after_first-Green first second h

module _ (k : Packages) (re : k.Regexp) {F : Type 0} where
  -- After the second pass, a task that the first pass handed on and that is still without a refusal has
  -- on either side the reading of its own commit, setup, check and clock, and that run exits 0 over at
  -- least one test, at the first try.
  pub verify_visible-Green :
      (answer : VisibleKey → SuiteAnswers F × SuiteAnswers F) (rs : List (Result F))
      (suites : List (Option TaskRecord)) (i : ℕ) (side : Side) (t : TaskRecord) (r : Result F)
      → get_elem? suites i ≡ some (some t)
      → get_elem? (verify_visible k re answer rs suites) i ≡ some r
      → r.refusals ≡ []
      → (reading side r
          ≡ (run_visible k re
              (key_of t side)
              (answer (key_of t side)).0
              (answer (key_of t side)).1).run)
        × Green (reading side r)
  unfolding verify_visible
  verify_visible-Green answer rs suites i side t r e f c =
      let outcome = λ (key : VisibleKey). run_visible k re key (answer key).0 (answer key).1 in
      let (u, h, q, ok) =
        give_groups-Held suites outcome (i, side) (group 0 suites []) rs
          (IsGrouped-group suites 0 suites []
            (From-all suites 0 suites (λ n. ap (get_elem? suites) (omega arith))) tt)
          (subst (λ m. Held (m, side) (group 0 suites [])) (omega arith)
            (group-Held 0 i t side suites [] e))
          r f c in
      let same = some-inj (some-inj (sym h ∙ e)) in
      (
        q ∙ ap (λ z. (outcome (key_of z side)).run) same,
        subst Green (sym q) (
            run_visible-Green k re (key_of u side) (answer (key_of u side)).0
              (answer (key_of u side)).1 ok),
      )

-- ===== src/Bench/Verify/Succeeds.antt =====
-- A verification that succeeds (src/core/bench/verify.go, `Verify` and `Summary.Success`).
use mathlib.Core.Path.{subst}
use foliot.Common.{
  ℕ, zero, suc, String, ◌≡◌, refl, sym, ap, ◌∙◌, true, Option, none, some, List, [], ◌∷◌, map,
  get_elem?, All,
}
use foliot.Bench.Corpus.{Packages, TaskRecord, Manifest, ManifestFile, loaded, load_manifest}
use foliot.Bench.Verify.{at_base, at_landed, Result}
use foliot.Bench.Verify.History.{Git, corpus_version}
use foliot.Bench.Verify.Task.{TaskAnswers, verify_task}
use foliot.Bench.Verify.Certified.{Certified}
use foliot.Bench.Verify.Visible.{
  VisibleKey, VisibleOutcome, SuiteAnswers, Holder, give, give_all, give_groups, group, run_visible,
  verify_visible,
}
use foliot.Bench.Verify.Given.{reading, some-inj}
use foliot.Bench.Verify.Passed.{Green}
use foliot.Bench.Verify.Whole.{Frame, get_elem?-map, passes-Certified}
use foliot.Bench.Verify.Summary.{
  Summary, Verified, verified, unverified, unknown_task, not_in, selected, passes, summarise,
  success, verify,
}
use foliot.Bench.Verify.Summary.Sound.{success-IsCorpusSound}

-- There is an element at an index.
abbrev At : {A : Type 0} → List A → ℕ → Type 0
At xs i = (a : _) × (get_elem? xs i ≡ some a)

All-At :
    {A : Type 0} (P : A → Type 0) (xs : List A) (i : ℕ) (a : A)
    → All P xs
    → get_elem? xs i ≡ some a
    → P a
All-At P [] i a h e = absurd cc
All-At P (x ∷ xs) zero a (p, q) e = subst P (some-inj e) p
All-At P (x ∷ xs) (suc i) a (p, q) e = All-At P xs i a q e

module _ {F : Type 0} where
  give-At :
      (h : Holder) (o : VisibleOutcome F) (rs : List (Result F)) (i : ℕ)
      → At rs i
      → At (give h o rs) i
  give-At (j, side) o [] i (r, e) = (r, e)
  give-At (zero, side) o (x ∷ rs) zero (r, e) = (_, refl)
  give-At (zero, side) o (x ∷ rs) (suc i) (r, e) = (r, e)
  give-At (suc j, side) o (x ∷ rs) zero (r, e) = (r, e)
  give-At (suc j, side) o (x ∷ rs) (suc i) (r, e) = give-At (j, side) o rs i (r, e)

  give_all-At :
      (hs : List Holder) (o : VisibleOutcome F) (rs : List (Result F)) (i : ℕ)
      → At rs i
      → At (give_all hs o rs) i
  give_all-At [] o rs i a = a
  give_all-At (h ∷ hs) o rs i a = give_all-At hs o (give h o rs) i (give-At h o rs i a)

  give_groups-At :
      (gs : List (VisibleKey × List Holder)) (outcome : VisibleKey → VisibleOutcome F)
      (rs : List (Result F)) (i : ℕ)
      → At rs i
      → At (give_groups gs outcome rs) i
  give_groups-At [] outcome rs i a = a
  give_groups-At ((key, hs) ∷ gs) outcome rs i a =
      give_groups-At gs outcome (give_all hs (outcome key) rs) i
        (give_all-At hs (outcome key) rs i a)

verified-inj : {F : Type 0} {s s' : Summary F} → verified s ≡ verified s' → s ≡ s'
verified-inj {F} {s} e = ap of e
  where
    of : Verified F → Summary F
    of (verified x) = x
    of (unverified x) = s

-- With no unknown task, a summary.
chosen-inj :
    {F : Type 0} (unknown : Option String) (x s : Summary F)
    → elim unknown [ some t ↦ unverified (unknown_task t) | none ↦ verified x ] ≡ verified s
    → s ≡ x
chosen-inj none x s e = sym (verified-inj e)
chosen-inj (some t) x s e = absurd cc

module _ (k : Packages) {F : Type 0} where
  passes-At :
      (m : Manifest k) (root : String) (task : String → TaskAnswers)
      (suite : VisibleKey → SuiteAnswers F × SuiteAnswers F) (ids : List String) (i : ℕ)
      (id : String)
      → get_elem? ids i ≡ some id
      → At (passes k m root task suite ids) i
  unfolding verify_visible
  passes-At m root task suite ids i id e =
      let run = λ (j : String). verify_task k {F = F} m root j (task j) in
      let first = map run ids in
      let here = get_elem?-map (λ p. p.0) first i (run id) (get_elem?-map run ids i id e) in
      give_groups-At (group 0 (map (λ p. p.1) first) [])
        (λ key. run_visible k m.visible_re key (suite key).0 (suite key).1) (map (λ p. p.0) first) i
        ((run id).0, here)

  summary_of :
      (file : Option ManifestFile) (m : Manifest k) (is : List String) (git : Git) (root : String)
      (tasks : List String) (task : String → TaskAnswers)
      (suite : VisibleKey → SuiteAnswers F × SuiteAnswers F) (s : Summary F)
      → load_manifest k file ≡ loaded m
      → verify k file (some is) git root tasks task suite ≡ verified s
      → s
        ≡ summarise k m
            (corpus_version git)
            (selected is tasks).1
            (passes k m root task suite (selected is tasks).0)
  unfolding verify
  summary_of file m is git root tasks task suite s l e =
      chosen-inj (not_in is tasks) _ s (rw (verify, l) at e)

  -- Where `verify` reads its manifest and its ids and returns a summary that is a success, each of the tasks it
  -- chose has its result in that summary, is certified by the first pass, and has both of its suites exit 0 over
  -- at least one test.
  pub verify-Certified :
      (file : Option ManifestFile) (m : Manifest k) (is : List String) (git : Git) (root : String)
      (tasks : List String) (task : String → TaskAnswers)
      (suite : VisibleKey → SuiteAnswers F × SuiteAnswers F) (s : Summary F) (i : ℕ) (id : String)
      → load_manifest k file ≡ loaded m
      → verify k file (some is) git root tasks task suite ≡ verified s
      → success s ≡ true
      → get_elem? (selected is tasks).0 i ≡ some id
      → (r' : Result F) × (get_elem? s.results i ≡ some r')
        × (t : TaskRecord) × (r : Result F) × Certified k m id (task id) r t
        × Frame r r'
        × Green (reading at_base r')
        × Green (reading at_landed r')
  verify-Certified file m is git root tasks task suite s i id l e ok c =
      let chosen = (selected is tasks).0 in
      let rs = passes k m root task suite chosen in
      let same = summary_of file m is git root tasks task suite s l e in
      let version = corpus_version git in
      let sound =
        (success-IsCorpusSound k m version.0 version.1 (selected is tasks).1 rs).0
          (sym (ap success same) ∙ ok) in
      let (r', f) = passes-At m root task suite chosen i id c in
      let clean = All-At (λ r. r.refusals ≡ []) rs i r' sound.none_refused f in
      let (t, r, handed, certified, frame, before, after) =
        passes-Certified k m root task suite chosen i id r' c f clean in
      (r', ap (λ z. get_elem? z.results i) same ∙ f, t, r, certified, frame, before.1, after.1)

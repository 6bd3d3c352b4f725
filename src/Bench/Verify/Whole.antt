-- ===== src/Bench/Verify/Whole.antt =====
-- A verification that succeeds, task by task (src/core/bench/verify.go, `Verify`).
use mathlib.Core.Path.{subst}
use foliot.Common.{
  ℕ, zero, suc, String, ◌≡◌, refl, sym, ap, ◌∙◌, true, not, Option, none, some, List, [], ◌∷◌, ◌++◌,
  map, if-induct, Option-induct, get_elem?, arith,
}
use foliot.Bench.Corpus.{Packages, TaskRecord, Manifest}
use foliot.Bench.Corpus.Load.{load_task, check_files, set_at}
use foliot.Bench.Verify.{
  Side, at_base, at_landed, Why, of_record, no_work, no_mirror, no_digest, Result,
}
use foliot.Bench.Verify.History.{Change, added_paths}
use foliot.Bench.Verify.Task.{
  TaskAnswers, Suite, no_refusals, phases, start_phases, certify, refuse, work_phases, in_mirror,
  with_record, adds, mirror_refusals, named_shas, empty_result, visible_of, verify_task,
}
use foliot.Bench.Verify.Phases.{snoc-not_nil}
use foliot.Bench.Verify.Certified.{Certified, verify_task-Certified}
use foliot.Bench.Verify.Visible.{
  key_of, VisibleKey, VisibleOutcome, SuiteAnswers, Holder, give_result, give, give_all,
  give_groups, group, run_visible, verify_visible,
}
use foliot.Bench.Verify.Given.{reading, refuse_visible-clean, some-inj}
use foliot.Bench.Verify.Passed.{Green, verify_visible-Green}
use foliot.Bench.Verify.Summary.{passes}

module _ {F : Type 0} where
  -- A pass without a refusal hands its task on.
  abbrev pub HandsOn : Result F × Suite → Type 0
  HandsOn out = out.0.refusals ≡ [] → (t : TaskRecord) × (out.1 ≡ some t)

  refused_out : (r : Result F) (w : Why) → HandsOn (refuse r w, none)
  refused_out r w h = absurd (snoc-not_nil r.refusals w h)

  unclean_out : (r : Result F) → not (no_refusals r.refusals) ≡ true → HandsOn (r, none)
  unclean_out r y h = absurd (ground (arith, y, ap no_refusals h))

  certify-HandsOn :
      (t : TaskRecord) (digest : Option String) (r : Result F) → HandsOn (certify t digest r)
  certify-HandsOn t digest r =
      if-induct HandsOn (not (no_refusals r.refusals)) _ _ (λ y. unclean_out r y)
        (λ _.
          Option-induct HandsOn digest _ _ (λ _. refused_out r no_digest) (λ sha _ h. (t, refl)))

  work_phases-HandsOn :
      (t : TaskRecord) (added : List Change) (a : TaskAnswers) (r : Result F)
      → HandsOn (work_phases t added a r)
  work_phases-HandsOn t added a r =
      if-induct HandsOn (not a.work_cleared) (refuse r no_work, none) _ (λ _. refused_out r no_work)
        (λ _.
          if-induct HandsOn (not a.work_made) (refuse r no_work, none)
            (certify t a.digest (phases t added a.at_phase (start_phases r)).result)
            (λ _. refused_out r no_work) (λ _. certify-HandsOn t a.digest _))

  -- A result whose visible readings alone are new.
  abbrev pub restore : Result F → Result F → Result F
  restore r z = record z { visible_base = r.visible_base; visible_landed = r.visible_landed }

  abbrev pub Frame : Result F → Result F → Type 0
  Frame r r' = (r.refusals ≡ []) × (restore r r' ≡ r)

  Frame-refl : (r : Result F) → r.refusals ≡ [] → Frame r r
  Frame-refl r h = (h, refl)

  Frame-trans : (a b c : Result F) → Frame a b → Frame b c → Frame a c
  Frame-trans a b c (h, p) (k, q) = (h, ap (restore a) q ∙ p)

  give_result-Frame :
      (side : Side) (o : VisibleOutcome F) (r : Result F)
      → (give_result side o r).refusals ≡ []
      → Frame r (give_result side o r)
  give_result-Frame at_base o r h =
      let (f, c, e) =
        refuse_visible-clean at_base o.failure (record r { visible_base = o.run }) h in
      (c, ap (restore r) e)
  give_result-Frame at_landed o r h =
      let (f, c, e) =
        refuse_visible-clean at_landed o.failure (record r { visible_landed = o.run }) h in
      (c, ap (restore r) e)

  -- A clean result at an index, and the one that it comes from.
  abbrev pub From : List (Result F) → ℕ → Result F → Type 0
  From rs i r' = (r : Result F) × (get_elem? rs i ≡ some r) × Frame r r'

  head-From :
      (side : Side) (o : VisibleOutcome F) (x r' : Result F) (rs : List (Result F))
      → some (give_result side o x) ≡ some r'
      → r'.refusals ≡ []
      → From (x ∷ rs) 0 r'
  head-From side o x r' rs e c = (
    x,
    refl,
    subst (Frame x) (some-inj e)
        (give_result-Frame side o x (ap (λ z. z.refusals) (some-inj e) ∙ c)),
  )

  give-From :
      (i j : ℕ) (side : Side) (o : VisibleOutcome F) (rs : List (Result F)) (r' : Result F)
      → get_elem? (give (j, side) o rs) i ≡ some r'
      → r'.refusals ≡ []
      → From rs i r'
  give-From i j side o [] r' e c = absurd cc
  give-From zero zero side o (x ∷ rs) r' e c = head-From side o x r' rs e c
  give-From (suc i) zero side o (x ∷ rs) r' e c = (r', e, Frame-refl r' c)
  give-From zero (suc j) side o (x ∷ rs) r' e c = (r', e, Frame-refl r' c)
  give-From (suc i) (suc j) side o (x ∷ rs) r' e c = give-From i j side o rs r' e c

  give_all-From :
      (i : ℕ) (hs : List Holder) (o : VisibleOutcome F) (rs : List (Result F)) (r' : Result F)
      → get_elem? (give_all hs o rs) i ≡ some r'
      → r'.refusals ≡ []
      → From rs i r'
  give_all-From i [] o rs r' e c = (r', e, Frame-refl r' c)
  give_all-From i (h ∷ hs) o rs r' e c =
      let (x, d, f) = give_all-From i hs o (give h o rs) r' e c in
      let (y, g, k) = give-From i h.0 h.1 o rs x d f.0 in (y, g, Frame-trans y x r' k f)

  give_groups-From :
      (i : ℕ) (gs : List (VisibleKey × List Holder)) (outcome : VisibleKey → VisibleOutcome F)
      (rs : List (Result F)) (r' : Result F)
      → get_elem? (give_groups gs outcome rs) i ≡ some r'
      → r'.refusals ≡ []
      → From rs i r'
  give_groups-From i [] outcome rs r' e c = (r', e, Frame-refl r' c)
  give_groups-From i ((key, hs) ∷ gs) outcome rs r' e c =
      let (x, d, f) = give_groups-From i gs outcome (give_all hs (outcome key) rs) r' e c in
      let (y, g, k) = give_all-From i hs (outcome key) rs x d f.0 in (y, g, Frame-trans y x r' k f)

pub get_elem?-map :
    {A B : Type 0} (f : A → B) (xs : List A) (i : ℕ) (a : A)
    → get_elem? xs i ≡ some a
    → get_elem? (map f xs) i ≡ some (f a)
get_elem?-map f [] i a e = absurd cc
get_elem?-map f (x ∷ xs) zero a e = ap (λ z. some (f z)) (some-inj e)
get_elem?-map f (x ∷ xs) (suc i) a e = get_elem?-map f xs i a e

module _ (k : Packages) {F : Type 0} where
  in_mirror-HandsOn :
      (t : TaskRecord) (files : List (String × String)) (a : TaskAnswers) (r : Result F)
      → HandsOn (in_mirror k t files a r)
  in_mirror-HandsOn t files a r =
      let y = record r { refusals = r.refusals ++ mirror_refusals k t files a } in
      if-induct HandsOn (not (no_refusals y.refusals)) (y, none)
        (work_phases t (adds (added_paths a.git a.blob t)) a y) (λ n. unclean_out y n)
        (λ _. work_phases-HandsOn t (adds (added_paths a.git a.blob t)) a y)

  with_record-HandsOn :
      (t : TaskRecord) (files : List (String × String)) (a : TaskAnswers) (r : Result F)
      → HandsOn (with_record k (some t) files a r)
  with_record-HandsOn t files a r =
      let y = record r {
        class = t.class;
        clock_at = t.clock_at;
        refusals = r.refusals ++ named_shas files (t.base_sha ∷ t.landed_sha ∷ []);
      } in
      if-induct HandsOn (not a.mirror) (refuse y no_mirror, none) (in_mirror k t files a y)
        (λ _. refused_out y no_mirror) (λ _. in_mirror-HandsOn t files a y)

module _ (k : Packages) (F : Type 0) where
  loaded-HandsOn :
      (m : Manifest k) (root id : String) (a : TaskAnswers) (o : Option TaskRecord)
      → (let (task, refusals) = load_task k m id o in
          let (files, more) = check_files k (visible_of task) root a.check_regular a.check_walk in
          HandsOn {F = F}
            (with_record k task files a (empty_result id (map of_record (refusals ++ more)))))
  unfolding load_task
  loaded-HandsOn m root id a none h = absurd cc
  loaded-HandsOn m root id a (some t) h =
      let checked =
        check_files k (visible_of (some (set_at k t))) root a.check_regular a.check_walk in
      with_record-HandsOn k (set_at k t) checked.0 a
        (empty_result id (map of_record ((load_task k m id (some t)).1 ++ checked.1))) h

  verify_task-HandsOn :
      (m : Manifest k) (root id : String) (a : TaskAnswers)
      → HandsOn {F = F} (verify_task k m root id a)
  unfolding verify_task
  verify_task-HandsOn m root id a = loaded-HandsOn m root id a a.record_file

module _ (k : Packages) {F : Type 0} where
  -- A side's reading is the run of the task's own suite there, which exits 0 over at least one test.
  abbrev pub RanGreen :
      Manifest k
      → (VisibleKey → SuiteAnswers F × SuiteAnswers F)
      → Side
      → TaskRecord
      → Result F
      → Type 0
  RanGreen m suite side t r' =
      (reading side r'
        ≡ (run_visible k m.visible_re (key_of t side) (suite (key_of t side)).0
            (suite (key_of t side)).1).run)
      × Green (reading side r')

  -- Over both passes, a task without a refusal is handed on, and certified, by the first; its result is the
  -- one that verifyTask returned but for the readings of its suites; and these are the runs of its own
  -- suites, which both exit 0 over at least one test.
  pub passes-Certified :
      (m : Manifest k) (root : String) (task : String → TaskAnswers)
      (suite : VisibleKey → SuiteAnswers F × SuiteAnswers F) (ids : List String) (i : ℕ)
      (id : String) (r' : Result F)
      → get_elem? ids i ≡ some id
      → get_elem? (passes k m root task suite ids) i ≡ some r'
      → r'.refusals ≡ []
      → (t : TaskRecord) × (r : Result F) × (verify_task k m root id (task id) ≡ (r, some t))
        × Certified k m id (task id) r t
        × Frame r r'
        × RanGreen m suite at_base t r'
        × RanGreen m suite at_landed t r'
  unfolding verify_visible
  passes-Certified m root task suite ids i id r' e f c =
      let run = λ (j : String). verify_task k {F = F} m root j (task j) in
      let first = map run ids in
      let (x, d, frame) =
        give_groups-From i (group 0 (map (λ p. p.1) first) [])
          (λ key. run_visible k m.visible_re key (suite key).0 (suite key).1) (map (λ p. p.0) first)
          r' f c in
      let here = get_elem?-map run ids i id e in
      let same = some-inj (sym d ∙ get_elem?-map (λ p. p.0) first i (run id) here) in
      let (t, h) =
        verify_task-HandsOn k F m root id (task id) (ap (λ z. z.refusals) (sym same) ∙ frame.0) in
      let suites = get_elem?-map (λ p. p.1) first i (run id) here ∙ ap some h in
      (
        t,
        x,
        (λ j. (sym same j, h j)),
        verify_task-Certified k m root id (task id) x t (λ j. (sym same j, h j)),
        frame,
        verify_visible-Green k m.visible_re suite (map (λ p. p.0) first) (map (λ p. p.1) first) i
            at_base t r' suites f c,
        verify_visible-Green k m.visible_re suite (map (λ p. p.0) first) (map (λ p. p.1) first) i
            at_landed t r' suites f c,
      )

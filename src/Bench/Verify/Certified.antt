-- ===== src/Bench/Verify/Certified.antt =====
-- The tasks that `verifyTask` hands to the second pass (src/core/bench/verify.go).
use mathlib.Core.Path.{subst}
use foliot.Common.{
  String, ◌≡◌, ◌≢◌, refl, sym, ap, ◌∙◌, Bool, true, false, not, Option, none, some, List, [], ◌∷◌,
  ◌++◌, map, if-induct, Option-induct, is_none,
}
use foliot.Bench.Corpus.{Packages, TaskRecord, Manifest}
use foliot.Bench.Corpus.Load.{when, load_task, check_files, Visit, set_at}
use foliot.Bench.Corpus.Sound.{IsSound, load_task-IsSound, append-nil_iff, when-nil}
use foliot.Bench.Verify.{
  Why, of_record, no_work, no_mirror, base_not_ancestor, landed_off_default, Result,
}
use foliot.Bench.Verify.History.{Git, Change, history_refusals, added_paths}
use foliot.Bench.Verify.Task.{
  TaskAnswers, Suite, no_refusals, phases, certify, start_phases, refuse, work_phases, in_mirror,
  with_record, adds, adds_unread, clock_refusals, mirror_refusals, named_shas, empty_result,
  visible_of, verify_task,
}
use foliot.Bench.Verify.Phases.{Tried, phases-Tried}

no_refusals-nil : (ws : List Why) → not (no_refusals ws) ≡ false → ws ≡ []
no_refusals-nil [] h = refl
no_refusals-nil (w ∷ ws) h = absurd cc

map-nil : {A B : Type 0} (f : A → B) (xs : List A) → map f xs ≡ [] → xs ≡ []
map-nil f [] h = refl
map-nil f (x ∷ xs) h = absurd cc

none-some : {A : Type 0} {a : A} → none ≢ some a
none-some e = cc

some-inj : {A : Type 0} {a b : A} → some a ≡ some b → a ≡ b
some-inj e = cc

module _ {F : Type 0} where
  -- A result that comes with a suite.
  abbrev pub Passes : Result F × Suite → Result F → TaskRecord → Type 0
  Passes out r t = out ≡ (r, some t)

  no_suite {κ} : {P : Type κ} (x r : Result F) (t : TaskRecord) → Passes (x, none) r t → P
  no_suite x r t h = absurd (none-some (ap (λ p. p.1) h))

  pub record Digested (t : TaskRecord) (digest : Option String) (x r : Result F) (t' : TaskRecord)
      : Type 0 where
    pub empty : x.refusals ≡ []
    pub same_task : t ≡ t'
    pub result : record x { task_sha = r.task_sha } ≡ r
    pub read : digest ≡ some r.task_sha

  certify-Digested :
      (t : TaskRecord) (digest : Option String) (x r : Result F) (t' : TaskRecord)
      → Passes (certify t digest x) r t'
      → Digested t digest x r t'
  certify-Digested t digest x r t' =
      if-induct (λ out. Passes out r t' → Digested t digest x r t') (not (no_refusals x.refusals)) _
        _ (λ _ h. no_suite x r t' h)
        (λ n.
          Option-induct (λ out. Passes out r t' → Digested t digest x r t') digest _ _
            (λ _ h. no_suite _ r t' h)
            (λ sha e h.
              let same = ap (λ p. p.0) h in
              record {
                empty = no_refusals-nil x.refusals n;
                same_task = some-inj (ap (λ p. p.1) h);
                result =
                    sym (ap (λ z. record x { task_sha = z }) (ap (λ y. y.task_sha) same)) ∙ same;
                read = e ∙ ap (λ y. some y.task_sha) same;
              }))

  -- The end of a pass with a suite: the phases left no refusal, and the digest was read.
  pub record Worked (t : TaskRecord) (added : List Change) (a : TaskAnswers) (x r : Result F)
      (t' : TaskRecord) : Type 0 where
    pub empty : x.refusals ≡ []
    pub same_task : t ≡ t'
    pub clean : r.refusals ≡ []
    pub tried : Tried added a.at_phase r
    pub read : a.digest ≡ some r.task_sha

  Tried-task_sha :
      (t : TaskRecord) (added : List Change) (a : TaskAnswers) (x y r : Result F) (t' : TaskRecord)
      → Digested t a.digest y r t'
      → (y.refusals ≡ [] → (x.refusals ≡ []) × Tried added a.at_phase y)
      → Worked t added a x r t'
  Tried-task_sha t added a x y r t' d f =
      let (e, tr) = f d.empty in
      record {
        empty = e;
        same_task = d.same_task;
        clean = sym (ap (λ z. z.refusals) d.result) ∙ d.empty;
        tried = subst (Tried added a.at_phase) d.result (record {
          at_base = tr.at_base;
          fails_at_base = tr.fails_at_base;
          at_landed = tr.at_landed;
          accepts = tr.accepts;
          tests = tr.tests;
        });
        read = d.read;
      }

  work_phases-Worked :
      (t : TaskRecord) (added : List Change) (a : TaskAnswers) (x r : Result F) (t' : TaskRecord)
      → Passes (work_phases t added a x) r t'
      → Worked t added a x r t'
  work_phases-Worked t added a x r t' =
      let P = λ (out : Result F × Suite). Passes out r t' → Worked t added a x r t' in
      let start = start_phases x in
      let y = (phases t added a.at_phase start).result in
      if-induct P (not a.work_cleared) (refuse x no_work, none) _ (λ _ h. no_suite _ r t' h)
        (λ _.
          if-induct P (not a.work_made) (refuse x no_work, none) (certify t a.digest y)
            (λ _ h. no_suite _ r t' h)
            (λ _ h.
              Tried-task_sha t added a x y r t' (certify-Digested t a.digest y r t' h)
                (phases-Tried t added a.at_phase start (λ _. refl))))

abbrev OfKnown : Option (List Change) → Type 0
OfKnown o = (added : List Change) × (o ≡ some added) × (adds o ≡ added)

known_adds : (o : Option (List Change)) → adds_unread o ≡ [] → OfKnown o
known_adds none h = absurd cc
known_adds (some cs) h = (cs, refl, refl)

check_regular :
    (k : Packages) (visible root : String) (b : Bool) (vs : List Visit)
    → (check_files k visible root b vs).1 ≡ []
    → b ≡ true
unfolding check_files
check_regular k visible root true vs h = refl
check_regular k visible root false vs h = absurd cc

module _ (k : Packages) where
  history-ancestors :
      (git : Git) (t : TaskRecord) (files : List (String × String)) (hash : String → Option String)
      → history_refusals k git t files hash ≡ []
      → (is_none (git ("merge-base" ∷ "--is-ancestor" ∷ t.base_sha ∷ t.landed_sha ∷ [])) ≡ false)
        × (is_none (git ("merge-base" ∷ "--is-ancestor" ∷ t.landed_sha ∷ "HEAD" ∷ [])) ≡ false)
  unfolding history_refusals
  history-ancestors git t files hash h =
      let (a, g) = (append-nil_iff (when _ base_not_ancestor) _).0 h in
      let (b, i) = (append-nil_iff (when _ landed_off_default) _).0 g in
      ((when-nil _ base_not_ancestor).0 a, (when-nil _ landed_off_default).0 b)

module _ (k : Packages) {F : Type 0} where
  -- What the first pass has established of a task that it hands on: its record is sound, its check is
  -- there, both shas are on the default branch's history, its additions are known, its result has no
  -- refusal and its three phases ran as they should, and the digest is that of the task.
  pub record Certified (m : Manifest k) (id : String) (a : TaskAnswers) (r : Result F)
      (t : TaskRecord) : Type 0 where
    pub recorded : (u : TaskRecord) × (a.record_file ≡ some u) × (t ≡ set_at k u) × IsSound k m id u
    pub present : a.check_regular ≡ true
    pub from_base :
        is_none (a.git ("merge-base" ∷ "--is-ancestor" ∷ t.base_sha ∷ t.landed_sha ∷ [])) ≡ false
    pub on_default :
        is_none (a.git ("merge-base" ∷ "--is-ancestor" ∷ t.landed_sha ∷ "HEAD" ∷ [])) ≡ false
    pub clean : r.refusals ≡ []
    pub tried :
        (added : List Change) × (added_paths a.git a.blob t ≡ some added) × Tried added a.at_phase r
    pub sealed : a.digest ≡ some r.task_sha

  -- What the mirror has established.
  record InMirror (t : TaskRecord) (files : List (String × String)) (a : TaskAnswers)
      (x r : Result F) (t' : TaskRecord) : Type 0 where
    empty : x.refusals ≡ []
    history : history_refusals k a.git t files a.hash_object ≡ []
    known : adds_unread (added_paths a.git a.blob t) ≡ []
    same_task : t ≡ t'
    clean : r.refusals ≡ []
    tried : Tried (adds (added_paths a.git a.blob t)) a.at_phase r
    read : a.digest ≡ some r.task_sha

  in_mirror-done :
      (t : TaskRecord) (files : List (String × String)) (a : TaskAnswers) (x r : Result F)
      (t' : TaskRecord)
      → Passes (in_mirror k t files a x) r t'
      → InMirror t files a x r t'
  in_mirror-done t files a x r t' =
      let y = record x { refusals = x.refusals ++ mirror_refusals k t files a } in
      if-induct (λ (out : Result F × Suite). Passes out r t' → InMirror t files a x r t')
        (not (no_refusals y.refusals)) (y, none)
        (work_phases t (adds (added_paths a.git a.blob t)) a y) (λ _ h. no_suite y r t' h)
        (λ n h.
          let w = work_phases-Worked t (adds (added_paths a.git a.blob t)) a y r t' h in
          let (e, g) = (append-nil_iff x.refusals _).0 w.empty in
          let (h1, g1) = (append-nil_iff (history_refusals k a.git t files a.hash_object) _).0 g in
          let (h2, h3) = (append-nil_iff (clock_refusals k a.git t) _).0 g1 in
          record {
            empty = e;
            history = h1;
            known = h3;
            same_task = w.same_task;
            clean = w.clean;
            tried = w.tried;
            read = w.read;
          })

  certified_by :
      (m : Manifest k) (id : String) (a : TaskAnswers) (r : Result F) (t' t : TaskRecord)
      → a.record_file ≡ some t
      → (files : List (String × String)) (root : String) (x : Result F)
      → (x.refusals
          ≡ map of_record (
              (load_task k m id (some t)).1
              ++ (check_files k (set_at k t).visible_check root a.check_regular a.check_walk).1)
            ++ named_shas files ((set_at k t).base_sha ∷ (set_at k t).landed_sha ∷ []))
      → InMirror (set_at k t) files a x r t'
      → Certified m id a r t'
  certified_by m id a r t' t e files root x q d =
      let (none_yet, named) = (append-nil_iff (map of_record _) _).0 (sym q ∙ d.empty) in
      let (sound, present) =
        (append-nil_iff (load_task k m id (some t)).1 _).0 (map-nil of_record _ none_yet) in
      let (base, default) = history-ancestors k a.git (set_at k t) files a.hash_object d.history in
      let (added, q1, q2) = known_adds (added_paths a.git a.blob (set_at k t)) d.known in
      let same = d.same_task in
      record {
        recorded = (t, e, sym same, (load_task-IsSound k m id t).0 sound);
        present = check_regular k _ root a.check_regular a.check_walk present;
        from_base =
            subst
              (λ u.
                is_none (a.git ("merge-base" ∷ "--is-ancestor" ∷ u.base_sha ∷ u.landed_sha ∷ []))
                ≡ false)
              same base;
        on_default =
            subst
              (λ u.
                is_none (a.git ("merge-base" ∷ "--is-ancestor" ∷ u.landed_sha ∷ "HEAD" ∷ []))
                ≡ false)
              same default;
        clean = d.clean;
        tried = (
          added,
          subst (λ u. added_paths a.git a.blob u ≡ some added) same q1,
          subst (λ cs. Tried cs a.at_phase r) q2 d.tried,
        );
        sealed = d.read;
      }

  with_record-done :
      (m : Manifest k) (id root : String) (a : TaskAnswers) (r : Result F) (t' : TaskRecord)
      (o : Option TaskRecord)
      → a.record_file ≡ o
      → (let (task, refusals) = load_task k m id o in
          let (files, more) = check_files k (visible_of task) root a.check_regular a.check_walk in
          Passes
            (with_record k task files a (empty_result id (map of_record (refusals ++ more))))
            r
            t')
      → Certified m id a r t'
  unfolding load_task
  with_record-done m id root a r t' none e h = no_suite _ r t' h
  with_record-done m id root a r t' (some t) e h =
      let u = set_at k t in
      let files = (check_files k u.visible_check root a.check_regular a.check_walk).0 in
      let refusals = (load_task k m id (some t)).1 in
      let more = (check_files k u.visible_check root a.check_regular a.check_walk).1 in
      let x = record (empty_result id (map of_record (refusals ++ more))) {
        class = u.class;
        clock_at = u.clock_at;
        refusals =
            map of_record (refusals ++ more) ++ named_shas files (u.base_sha ∷ u.landed_sha ∷ []);
      } in
      if-induct (λ (out : Result F × Suite). Passes out r t' → Certified m id a r t') (not a.mirror)
        (refuse x no_mirror, none) (in_mirror k u files a x) (λ _ g. no_suite _ r t' g)
        (λ _ g. certified_by m id a r t' t e files root x refl (in_mirror-done u files a x r t' g))
        h

  -- A task that the first pass hands to the second is certified.
  pub verify_task-Certified :
      (m : Manifest k) (root id : String) (a : TaskAnswers) (r : Result F) (t : TaskRecord)
      → verify_task k m root id a ≡ (r, some t)
      → Certified m id a r t
  unfolding verify_task
  verify_task-Certified m root id a r t h = with_record-done m id root a r t a.record_file refl h

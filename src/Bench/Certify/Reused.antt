-- ===== src/Bench/Certify/Reused.antt =====
-- What a certification without an error has of each task (src/core/bench/runner.go, `session.verify`).
use mathlib.Core.Path.{subst}
use mathlib.Core.List.{append_assoc, append-nil}
use text.Mathlib.TextEquality.{eq_iff}
use foliot.Common.{
  String, ℤ, Bool, true, false, not, ◌&&◌, Option, none, some, List, [], ◌∷◌, ◌++◌, map, ◌=s=◌,
  is_none, length, ◌≡◌, ◌≢◌, ◌⊎◌, inl, inr, refl, sym, ◌∙◌, arith, if-induct, Option-cases,
}
use foliot.Common.Assoc.{get}
use foliot.Log.Data.{BenchVerified}
use foliot.Log.Fold.{VerifiedKey, verified_key}
use foliot.Bench.Plan.{Task}
use foliot.Bench.Verify.{Result}
use foliot.Bench.Verify.Summary.{Summary, Verified, unverified, verified, success}
use foliot.Bench.Certify.{
  Exits, Certified, tasks_refused, corpus_moved, is_reusable, reusable, key_for, SplitResult,
  unsplit, split, add_task, split_tasks, record_of, append_all, fail, reused_only, take_results,
  take_split, certify,
}

split-inj : {r r' : Exits} {n n' : List String} → split r n ≡ split r' n' → (r ≡ r') × (n ≡ n')
split-inj e = (cc, cc)

unsplit-split : {i : String} {r : Exits} {n : List String} → unsplit i ≢ split r n
unsplit-split e = cc

none-some : {A : Type 0} {a : A} → none ≢ some a
none-some e = cc

reusable_iff :
    (dirty blind same : Bool)
    → (not dirty && (not blind && same)) ≡ true
    → (dirty ≡ false) × (blind ≡ false) × (same ≡ true)
reusable_iff dirty blind same h = ground (arith, h)

module _ {F : Type 0} (dirty : Bool) (corpus : String) (done : List (VerifiedKey × BenchVerified F))
    (digest : String → Option String) where
  -- A task that is taken over has a certification of its own content in a clean corpus, with both
  -- visible readings and its own clock; every other task needs a verification.
  pub data Shares : List Task → Exits → List String → Type 0 where
    nobody : Shares [] [] []
    taken :
        (t : Task) (sha : String) (v : BenchVerified F) (ts : List Task) (reused : Exits)
        (need : List String)
        → digest t.id ≡ some sha
        → get (key_for corpus t sha) done ≡ some v
        → dirty ≡ false
        → is_none v.visible ≡ false
        → v.clock_at ≡ t.clock_at
        → Shares ts reused need
        → Shares (t ∷ ts) ((t.id, (v.base_exit, v.landed_exit)) ∷ reused) need
    needed :
        (t : Task) (ts : List Task) (reused : Exits) (need : List String)
        → Shares ts reused need
        → Shares (t ∷ ts) reused (t.id ∷ need)

  add_task-Shares :
      (t : Task) (sha : String) (ts : List Task) (o : Option (BenchVerified F)) (rest : SplitResult)
      (reused : Exits) (need : List String)
      → digest t.id ≡ some sha
      → get (key_for corpus t sha) done ≡ o
      → ((r : Exits) (n : List String) → rest ≡ split r n → Shares ts r n)
      → add_task t (reusable dirty t o) rest ≡ split reused need
      → Shares (t ∷ ts) reused need
  add_task-Shares t sha ts o (unsplit i) reused need d g f e = absurd (unsplit-split e)
  add_task-Shares t sha ts none (split r n) reused need d g f e =
      let (p, q) = split-inj e in
      subst (λ z. Shares (t ∷ ts) z need) p
        (subst (λ z. Shares (t ∷ ts) r z) q (needed t ts r n (f r n refl)))
  add_task-Shares t sha ts (some v) (split r n) reused need d g f h =
      if-induct (λ o. add_task t o (split r n) ≡ split reused need → Shares (t ∷ ts) reused need)
        (is_reusable dirty t v) (some v) none
        (λ y e.
          let (p, q) = split-inj e in
          let (a, b, c) = reusable_iff dirty (is_none v.visible) (v.clock_at =s= t.clock_at) y in
          subst (λ z. Shares (t ∷ ts) z need) p
            (subst (λ z. Shares (t ∷ ts) ((t.id, (v.base_exit, v.landed_exit)) ∷ r) z) q
              (taken t sha v ts r n d g a b ((eq_iff v.clock_at t.clock_at).0 c) (f r n refl))))
        (λ _ e.
          let (p, q) = split-inj e in
          subst (λ z. Shares (t ∷ ts) z need) p
            (subst (λ z. Shares (t ∷ ts) r z) q (needed t ts r n (f r n refl))))
        h

  split_tasks-Shares :
      (ts : List Task) (reused : Exits) (need : List String)
      → split_tasks dirty corpus done digest ts ≡ split reused need
      → Shares ts reused need
  split_tasks-Shares [] reused need e =
      let (p, q) = split-inj e in
      subst (λ z. Shares [] z need) p (subst (λ z. Shares [] [] z) q nobody)
  split_tasks-Shares (t ∷ ts) reused need e = elim (Option-cases (digest t.id)) [
    | inl n ↦ absurd (unsplit-split (rw (n, split_tasks) at e))
    | inr (sha, d) ↦
        add_task-Shares t sha ts (get (key_for corpus t sha) done)
          (split_tasks dirty corpus done digest ts) reused need d refl
          (λ r n f. split_tasks-Shares ts r n f) (rw (d, split_tasks) at e)
  ]

module _ {F : Type 0} (appends : BenchVerified F → Bool) (corpus sha : String) where
  abbrev pub exit_of : Result F → String × (ℤ × ℤ)
  exit_of r = (r.id, (r.base, r.landed))

  append_all-all :
      (rs : List (Result F)) (c : Certified F)
      → (append_all appends corpus sha rs c).error ≡ none
      → ((append_all appends corpus sha rs c).exits ≡ c.exits ++ map exit_of rs)
        × ((append_all appends corpus sha rs c).appended
            ≡ c.appended ++ map (record_of corpus sha) rs)
  append_all-all [] c h = (sym (append-nil c.exits), sym (append-nil c.appended))
  append_all-all (r ∷ rs) c k =
      let v = record_of corpus sha r in
      let d = one_more r c in
      if-induct
        (λ x.
          x.error ≡ none
          → (x.exits ≡ c.exits ++ map exit_of (r ∷ rs))
            × (x.appended ≡ c.appended ++ map (record_of corpus sha) (r ∷ rs)))
        (not (appends v)) _ (append_all appends corpus sha rs d) (λ _ h. absurd (none-some (sym h)))
        (λ _ h.
          let (x, y) = append_all-all rs d h in
          (
            x ∙ append_assoc c.exits (exit_of r ∷ []) (map exit_of rs),
            y ∙ append_assoc c.appended (v ∷ []) (map (record_of corpus sha) rs),
          ))
        k
    where
      one_more : Result F → Certified F → Certified F
      one_more r c = record c {
        exits = c.exits ++ ((r.id, (r.base, r.landed)) ∷ []);
        appended = c.appended ++ (record_of corpus sha r ∷ []);
      }

  -- What is taken from a verification.
  pub record Taken (s : Summary F) (reused : Exits) (c : Certified F) : Type 0 where
    pub succeeded : success s ≡ true
    pub same_corpus : s.corpus_sha ≡ sha
    pub recorded : c.appended ≡ map (record_of corpus sha) s.results
    pub with_exits : c.exits ≡ reused ++ map exit_of s.results

  take_results-Taken :
      (reused : Exits) (v : Verified F)
      → (take_results appends corpus sha reused v).error ≡ none
      → (s : Summary F) × (v ≡ verified s)
        × Taken s reused (take_results appends corpus sha reused v)
  take_results-Taken reused (unverified e) h = absurd (none-some (sym h))
  take_results-Taken reused (verified s) k =
      let P = λ (c : Certified F).
        c.error ≡ none → (s' : Summary F) × (verified s ≡ verified s') × Taken s' reused c in
      if-induct P (not (success s))
        (fail reused (tasks_refused s.refused s.examined (length s.problems))) _
        (λ _ h. absurd (none-some (sym h)))
        (λ y.
          if-induct P (not (s.corpus_sha =s= sha)) (fail reused (corpus_moved sha s.corpus_sha))
            (append_all appends corpus sha s.results (reused_only reused))
            (λ _ h. absurd (none-some (sym h)))
            (λ z h.
              let (a, b) = append_all-all s.results (reused_only reused) h in
              (
                s,
                refl,
                record {
                  succeeded = ground (arith, y);
                  same_corpus = (eq_iff s.corpus_sha sha).0 (ground (arith, z));
                  recorded = b;
                  with_exits = a;
                },
              )))
        k

  -- The two ways to be done: nothing needed a verification, or one succeeded.
  abbrev pub IsDone : (List String → Verified F) → List String → Exits → Certified F → Type 0
  IsDone verify need reused c =
      ((need ≡ []) × (c ≡ reused_only reused))
      ⊎ ((s : Summary F) × (verify need ≡ verified s) × Taken s reused c)

  take_split-IsDone :
      (verify : List String → Verified F) (x : SplitResult)
      → (take_split verify appends corpus sha x).error ≡ none
      → (reused : Exits) × (need : List String) × (x ≡ split reused need)
        × IsDone verify need reused (take_split verify appends corpus sha x)
  take_split-IsDone verify (unsplit i) h = absurd (none-some (sym h))
  take_split-IsDone verify (split reused []) h = (reused, [], refl, inl (refl, refl))
  take_split-IsDone verify (split reused (i ∷ need)) h =
      (reused, i ∷ need, refl, inr (take_results-Taken reused (verify (i ∷ need)) h))

-- A certification that ends without an error has read the log, and every task is either taken over from
-- a certification of its own content and clock, in a clean corpus and with both visible readings, or is
-- among those of a verification that succeeded in the same corpus and whose results are all recorded.
pub certify-IsDone :
    {F : Type 0} (sha : String) (dirty : Bool) (corpus : String)
    (log : Option (List (VerifiedKey × BenchVerified F))) (digest : String → Option String)
    (verify : List String → Verified F) (appends : BenchVerified F → Bool) (tasks : List Task)
    → (certify (sha, dirty) corpus log digest verify appends tasks).error ≡ none
    → (done : List (VerifiedKey × BenchVerified F)) × (reused : Exits) × (need : List String) × (log
        ≡ some done)
      × Shares dirty corpus done digest tasks reused need
      × IsDone appends corpus sha verify need reused
          (certify (sha, dirty) corpus log digest verify appends tasks)
unfolding certify
certify-IsDone sha dirty corpus none digest verify appends tasks h = absurd (none-some (sym h))
certify-IsDone sha dirty corpus (some done) digest verify appends tasks h =
    let (reused, need, e, d) =
      take_split-IsDone appends corpus sha verify (split_tasks dirty corpus done digest tasks) h in
    (done, reused, need, refl, split_tasks-Shares dirty corpus done digest tasks reused need e, d)

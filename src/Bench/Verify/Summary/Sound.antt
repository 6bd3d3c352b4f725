-- ===== src/Bench/Verify/Summary/Sound.antt =====
-- What a successful summary says of a corpus (src/core/bench/verify.go, `Summary.Success`).
use foliot.Common.{
  ℕ, zero, suc, ◌<◌, String, ℤ, pos, ◌==ℤ◌, ==ℤ_iff, ◌≡◌, ◌↔◌, refl, Bool, true, false, ◌&&◌, List,
  [], ◌∷◌, ◌++◌, length, ltb, ◌==◌, All, Bool-cases, inl, inr, arith,
}
use foliot.Bench.Corpus.{Packages, Manifest, classes}
use foliot.Bench.Corpus.Sound.{append-nil_iff}
use foliot.Bench.Verify.{Why, Result}
use foliot.Bench.Verify.Task.{no_refusals}
use foliot.Bench.Verify.Summary.{
  Problem, success, no_problems, accepts, count_refused, count_class, registered, class_problems,
  dirty_problems, count_problems, empty_problems, summarise,
}

no_refusals_iff : (ws : List Why) → (no_refusals ws ≡ true) ↔ (ws ≡ [])
no_refusals_iff [] = ((λ h. refl), λ h. refl)
no_refusals_iff (w ∷ ws) = ((λ h. absurd cc), λ h. absurd cc)

no_problems_iff : (ps : List Problem) → (no_problems ps ≡ true) ↔ (ps ≡ [])
no_problems_iff [] = ((λ h. refl), λ h. refl)
no_problems_iff (p ∷ ps) = ((λ h. absurd cc), λ h. absurd cc)

refused-none :
    {F : Type 0} (rs : List (Result F)) → (count_refused rs ≡ 0) ↔ All (λ r. r.refusals ≡ []) rs
refused-none [] = ((λ h. tt), λ h. refl)
refused-none (r ∷ rs) = elim (Bool-cases (accepts r)) [
  | inl t ↦ rw t (
    (λ h. ((no_refusals_iff r.refusals).0 t, (refused-none rs).0 h)),
    λ (a, b). (refused-none rs).1 b,
  )
  | inr f ↦ rw f (
    (λ h. absurd (ground (arith, h))),
    λ (a, b). absurd (ground (arith, f, (no_refusals_iff r.refusals).1 a)),
  )
]

-- Every class has as many verified tasks as the corpus has registered.
abbrev pub Balanced : (String → ℕ) → List (String × ℤ) → List String → Type 0
Balanced count cs names = All (λ c. pos (count c) ≡ registered c cs) names

class_problems-nil :
    (count : String → ℕ) (cs : List (String × ℤ)) (names : List String)
    → (class_problems count cs names ≡ []) ↔ Balanced count cs names
class_problems-nil count cs [] = ((λ h. tt), λ h. refl)
class_problems-nil count cs (c ∷ names) = elim (Bool-cases (pos (count c) ==ℤ registered c cs)) [
  | inl t ↦ rw t (
    (λ h.
        ((==ℤ_iff (pos (count c)) (registered c cs)).0 t, (class_problems-nil count cs names).0 h)),
    λ (a, b). (class_problems-nil count cs names).1 b,
  )
  | inr f ↦ rw f (
    (λ h. absurd cc),
    λ (a, b). absurd (ground (arith, f, (==ℤ_iff (pos (count c)) (registered c cs)).1 a)),
  )
]

and_iff : (a b c : Bool) → ((a && (b && c)) ≡ true) ↔ ((a ≡ true) × (b ≡ true) × (c ≡ true))
and_iff a b c = ground arith

dirty-nil : (dirty : Bool) → (dirty_problems dirty ≡ []) ↔ (dirty ≡ false)
dirty-nil true = ((λ h. absurd cc), λ h. absurd cc)
dirty-nil false = ((λ h. refl), λ h. refl)

count-nil :
    (k : Packages) (m : Manifest k) (partial : Bool) (count : String → ℕ)
    → (count_problems k m partial count ≡ []) ↔ (partial ≡ false → Balanced count m.classes classes)
count-nil k m true count = ((λ h e. absurd cc), λ h. refl)
count-nil k m false count = (
  (λ h _. (class_problems-nil count m.classes classes).0 h),
  λ h. (class_problems-nil count m.classes classes).1 (h refl),
)

empty-nil : (n : ℕ) → 0 < n → empty_problems n ≡ []
empty-nil zero h = absurd (omega (arith, h))
empty-nil (suc n) h = ground arith

-- What a successful summary has checked.
pub record IsCorpusSound (k : Packages) {F : Type 0} (m : Manifest k) (dirty partial : Bool)
    (rs : List (Result F)) : Type 0 where
  pub some_task : 0 < length rs
  pub none_refused : All (λ r. r.refusals ≡ []) rs
  pub committed : dirty ≡ false
  pub balanced : partial ≡ false → Balanced (λ c. count_class c rs) m.classes classes

-- A summary is a success exactly when it examined a task, refused none, the corpus has nothing
-- uncommitted, and over a whole corpus every class has its registered number of tasks.
pub success-IsCorpusSound :
    (k : Packages) {F : Type 0} (m : Manifest k) (sha : String) (dirty partial : Bool)
    (rs : List (Result F))
    → (success (summarise k m (sha, dirty) partial rs) ≡ true) ↔ IsCorpusSound k m dirty partial rs
unfolding success
success-IsCorpusSound k m sha dirty partial rs =
    let count = λ (c : String). count_class c rs in
    let ps =
      dirty_problems dirty ++ (count_problems k m partial count ++ empty_problems (length rs)) in
    let all = and_iff (ltb 0 (length rs)) (count_refused rs == 0) (no_problems ps) in
    (
      (λ h.
          let (n, z, p) = all.0 h in
          let (d, q) = (append-nil_iff (dirty_problems dirty) _).0 ((no_problems_iff ps).0 p) in
          let (c, e) = (append-nil_iff (count_problems k m partial count) _).0 q in
          record {
            some_task = ground (arith, n);
            none_refused = (refused-none rs).0 (ground (arith, z));
            committed = (dirty-nil dirty).0 d;
            balanced = (count-nil k m partial count).0 c;
          }),
      λ s. all.1 (
        ground (arith, s.some_task),
        ground (arith, (refused-none rs).1 s.none_refused),
        (no_problems_iff ps).1 (
            (append-nil_iff (dirty_problems dirty) _).1 (
              (dirty-nil dirty).1 s.committed,
              (append-nil_iff (count_problems k m partial count) _).1
                  ((count-nil k m partial count).1 s.balanced, empty-nil (length rs) s.some_task),
            )),
      ),
    )

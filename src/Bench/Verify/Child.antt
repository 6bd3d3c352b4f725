-- ===== src/Bench/Verify/Child.antt =====
-- The environment that a child process reads (src/core/bench/verify.go, `mergeEnv` and `environ`).
use mathlib.Core.List.{append-nil}
use foliot.Common.{
  ℕ, String, ◌≡◌, refl, ap, ◌∙◌, Bool, true, false, Option, none, some, List, [], ◌∷◌, ◌++◌,
  if◌then◌else◌, ==_iff, Bool-cases, inl, inr, arith,
}
use foliot.Bench.Verify.Env.{key, sets_key, same_codes, is_set, is_overridden, keep_base, merge_env}

-- The entries of an environment that set a key, in order: what a program that looks it up can read.
abbrev pub entries : List ℕ → List String → List String
entries k [] = []
entries k (kv ∷ kvs) = let rest = entries k kvs in if sets_key k (key kv) then kv ∷ rest else rest

entries-append :
    (k : List ℕ) (xs ys : List String) → entries k (xs ++ ys) ≡ entries k xs ++ entries k ys
entries-append k [] ys = refl
entries-append k (x ∷ xs) ys = elim (Bool-cases (sets_key k (key x))) [
  | inl t ↦ rw t (ap (λ zs. x ∷ zs) (entries-append k xs ys))
  | inr f ↦ rw f (entries-append k xs ys)
]

same_codes-≡ : (a b : List ℕ) → same_codes a b ≡ true → a ≡ b
same_codes-≡ [] [] h = refl
same_codes-≡ [] (b ∷ bs) h = absurd cc
same_codes-≡ (a ∷ cs) [] h = absurd cc
same_codes-≡ (a ∷ cs) (b ∷ ds) h =
    let p : a ≡ b = (==_iff a b).0 (ground (arith, h)) in
    let q = same_codes-≡ cs ds (ground (arith, h)) in λ i. p i ∷ q i

-- What is kept of the base sets only keys that no override sets.
keep-one :
    (k : List ℕ) (o : Option (List ℕ)) (overrides : List String) (kv : String)
    (rest kept : List String)
    → kept ≡ (if is_set k overrides then [] else rest)
    → (if is_overridden o overrides then kept else (if sets_key k o then kv ∷ kept else kept))
      ≡ (if is_set k overrides then [] else (if sets_key k o then kv ∷ rest else rest))
keep-one k none overrides kv rest kept h = h
keep-one k (some j) overrides kv rest kept h = elim (Bool-cases (same_codes k j)) [
  | inl t ↦ ground (arith, t, h, ap (λ z. is_set z overrides) (same_codes-≡ k j t))
  | inr f ↦ rw f (ground (arith, h))
]

entries-if :
    (k : List ℕ) (b : Bool) (xs ys : List String)
    → entries k (if b then xs else ys) ≡ (if b then entries k xs else entries k ys)
entries-if k true xs ys = refl
entries-if k false xs ys = refl

entries-unset : (k : List ℕ) (xs : List String) → is_set k xs ≡ false → entries k xs ≡ []
entries-unset k [] h = refl
entries-unset k (x ∷ xs) h = rw left (entries-unset k xs (ground (arith, h)))
  where
    left : sets_key k (key x) ≡ false
    left = ground (arith, h)

entries-keep_base :
    (k : List ℕ) (base overrides : List String)
    → entries k (keep_base base overrides) ≡ (if is_set k overrides then [] else entries k base)
entries-keep_base k [] overrides = ground arith
entries-keep_base k (kv ∷ kvs) overrides =
    entries-if k (is_overridden (key kv) overrides) (keep_base kvs overrides)
      (kv ∷ keep_base kvs overrides)
    ∙ keep-one k (key kv) overrides kv (entries k kvs) (entries k (keep_base kvs overrides))
        (entries-keep_base k kvs overrides)

-- A key that an override sets is read from the overrides alone, and any other key is read as in the
-- base.
pub merge_env-entries :
    (k : List ℕ) (base overrides : List String)
    → entries k (merge_env base overrides)
      ≡ (if is_set k overrides then entries k overrides else entries k base)
unfolding merge_env
merge_env-entries k base overrides =
    entries-append k (keep_base base overrides) overrides
    ∙ ap (λ xs. xs ++ entries k overrides) (entries-keep_base k base overrides)
    ∙ (elim (Bool-cases (is_set k overrides)) [
      | inl t ↦ rw t refl
      | inr f ↦ rw (f, entries-unset k overrides f) (append-nil (entries k base))
    ])

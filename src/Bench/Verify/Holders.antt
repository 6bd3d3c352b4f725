-- ===== src/Bench/Verify/Holders.antt =====
-- The keys of the visible suites and their holders (src/core/bench/verify.go, `verifyVisible`).
use mathlib.Core.Path.{subst}
use text.Mathlib.TextEquality.{eq_iff}
use foliot.Common.{
  ℕ, zero, suc, ◌+◌, ◌≡◌, ◌⊎◌, refl, sym, ap, true, Option, none, some, List, [], ◌∷◌, ◌++◌, inl,
  inr, Bool-cases, get_elem?, All, arith,
}
use foliot.Bench.Corpus.{TaskRecord}
use foliot.Bench.Verify.{Side, at_base, at_landed}
use foliot.Bench.Verify.Visible.{
  VisibleKey, same_key, key_of, Holder, add_holder, add_holders, group,
}

same_key-≡ : (a b : VisibleKey) → same_key a b ≡ true → a ≡ b
same_key-≡ a b h =
    let e1 = (eq_iff a.repository b.repository).0 (ground (arith, h)) in
    let e2 = (eq_iff a.sha b.sha).0 (ground (arith, h)) in
    let e3 = (eq_iff a.setup b.setup).0 (ground (arith, h)) in
    let e4 = (eq_iff a.check b.check).0 (ground (arith, h)) in
    let e5 = (eq_iff a.clock_at b.clock_at).0 (ground (arith, h)) in
    λ i. record { repository = e1 i; sha = e2 i; setup = e3 i; check = e4 i; clock_at = e5 i }

abbrev pub Within : Holder → List Holder → Type 0
Within h [] = ⊥
Within h (g ∷ gs) = (h ≡ g) ⊎ Within h gs

abbrev pub Held : Holder → List (VisibleKey × List Holder) → Type 0
Held h [] = ⊥
Held h ((key, hs) ∷ gs) = Within h hs ⊎ Held h gs

Within-append : (h : Holder) (xs ys : List Holder) → Within h xs ⊎ Within h ys → Within h (xs ++ ys)
Within-append h [] ys (inl v) = elim v [ ]
Within-append h [] ys (inr w) = w
Within-append h (x ∷ xs) ys (inl (inl e)) = inl e
Within-append h (x ∷ xs) ys (inl (inr w)) = inr (Within-append h xs ys (inl w))
Within-append h (x ∷ xs) ys (inr w) = inr (Within-append h xs ys (inr w))

Held-add_holder :
    (key : VisibleKey) (g h : Holder) (gs : List (VisibleKey × List Holder))
    → (h ≡ g) ⊎ Held h gs
    → Held h (add_holder key g gs)
Held-add_holder key g h [] (inl e) = inl (inl e)
Held-add_holder key g h [] (inr v) = elim v [ ]
Held-add_holder key g h ((j, hs) ∷ gs) w = elim (Bool-cases (same_key j key)) [
  | inl t ↦ rw t (elim w [
    | inl e ↦ inl (Within-append h hs (g ∷ []) (inr (inl e)))
    | inr (inl v) ↦ inl (Within-append h hs (g ∷ []) (inl v))
    | inr (inr v) ↦ inr v
  ])
  | inr f ↦ rw f (elim w [
    | inl e ↦ inr (Held-add_holder key g h gs (inl e))
    | inr (inl v) ↦ inl v
    | inr (inr v) ↦ inr (Held-add_holder key g h gs (inr v))
  ])
]

-- A holder of a key is a task of the suites with that key.
module _ (all : List (Option TaskRecord)) where
  abbrev pub Names : VisibleKey → Holder → Type 0
  Names key h = (t : TaskRecord) × (get_elem? all h.0 ≡ some (some t)) × (key ≡ key_of t h.1)

  abbrev pub IsGrouped : List (VisibleKey × List Holder) → Type 0
  IsGrouped gs = All (λ g. All (Names g.0) g.1) gs

  All-snoc :
      (key : VisibleKey) (h : Holder) (hs : List Holder)
      → All (Names key) hs
      → Names key h
      → All (Names key) (hs ++ (h ∷ []))
  All-snoc key h [] a n = (n, tt)
  All-snoc key h (x ∷ xs) (m, a) n = (m, All-snoc key h xs a n)

  IsGrouped-add_holder :
      (key : VisibleKey) (h : Holder) (gs : List (VisibleKey × List Holder))
      → Names key h
      → IsGrouped gs
      → IsGrouped (add_holder key h gs)
  IsGrouped-add_holder key h [] n a = ((n, tt), tt)
  IsGrouped-add_holder key h ((j, hs) ∷ gs) n (x, a) = elim (Bool-cases (same_key j key)) [
    | inl t ↦ rw t (All-snoc j h hs x (subst (λ z. Names z h) (sym (same_key-≡ j key t)) n), a)
    | inr f ↦ rw f (x, IsGrouped-add_holder key h gs n a)
  ]

  -- The suites from an index on.
  abbrev pub From : ℕ → List (Option TaskRecord) → Type 0
  From i [] = Unit
  From i (s ∷ ss) = (get_elem? all i ≡ some s) × From (i + 1) ss

  pub IsGrouped-group :
      (i : ℕ) (ss : List (Option TaskRecord)) (gs : List (VisibleKey × List Holder))
      → From i ss
      → IsGrouped gs
      → IsGrouped (group i ss gs)
  IsGrouped-group i [] gs f a = a
  IsGrouped-group i (none ∷ ss) gs (e, f) a = IsGrouped-group (i + 1) ss gs f a
  IsGrouped-group i (some t ∷ ss) gs (e, f) a = IsGrouped-group (i + 1) ss _ f (
      IsGrouped-add_holder (key_of t at_landed) (i, at_landed) _ (t, e, refl)
        (IsGrouped-add_holder (key_of t at_base) (i, at_base) gs (t, e, refl) a))

Held-group :
    (h : Holder) (i : ℕ) (ss : List (Option TaskRecord)) (gs : List (VisibleKey × List Holder))
    → Held h gs
    → Held h (group i ss gs)
Held-group h i [] gs w = w
Held-group h i (none ∷ ss) gs w = Held-group h (i + 1) ss gs w
Held-group h i (some t ∷ ss) gs w =
    Held-group h (i + 1) ss _ (Held-add_holder _ _ h _ (inr (Held-add_holder _ _ h gs (inr w))))

pub group-Held :
    (i n : ℕ) (t : TaskRecord) (side : Side) (ss : List (Option TaskRecord))
    (gs : List (VisibleKey × List Holder))
    → get_elem? ss n ≡ some (some t)
    → Held (i + n, side) (group i ss gs)
group-Held i n t side [] gs e = absurd cc
group-Held i zero t side (none ∷ ss) gs e = absurd cc
group-Held i zero t at_base (some u ∷ ss) gs e = Held-group _ (i + 1) ss _ (
    Held-add_holder _ _ _ _
      (inr (Held-add_holder _ _ _ gs (inl (ap (λ m. (m, at_base)) (omega arith))))))
group-Held i zero t at_landed (some u ∷ ss) gs e = Held-group _ (i + 1) ss _ (
    Held-add_holder (key_of u at_landed) (i, at_landed) (i + 0, at_landed)
      (add_holder (key_of u at_base) (i, at_base) gs)
      (inl (ap (λ m. (m, at_landed)) (omega arith))))
group-Held i (suc n) t side (none ∷ ss) gs e =
    subst (λ m. Held (m, side) (group (i + 1) ss gs)) (omega arith)
      (group-Held (i + 1) n t side ss gs e)
group-Held i (suc n) t side (some u ∷ ss) gs e =
    subst (λ m. Held (m, side) (group (i + 1) ss (add_holders i (some u) gs))) (omega arith)
      (group-Held (i + 1) n t side ss (add_holders i (some u) gs) e)

pub From-all :
    (all : List (Option TaskRecord)) (i : ℕ) (ss : List (Option TaskRecord))
    → ((n : ℕ) → get_elem? all (i + n) ≡ get_elem? ss n)
    → From all i ss
From-all all i [] f = tt
From-all all i (s ∷ ss) f = (
  subst (λ m. get_elem? all m ≡ some s) (omega arith) (f 0),
  From-all all (i + 1) ss
      (λ n. subst (λ m. get_elem? all m ≡ get_elem? ss n) (omega arith) (f (suc n))),
)

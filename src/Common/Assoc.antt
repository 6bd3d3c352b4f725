-- ===== src/Common/Assoc.antt =====
-- Go maps as association lists: keys with a Boolean equality, one entry for each key.
use mathlib.Core.Path.{◌≡◌, refl}
use mathlib.Core.Logic.{◌↔◌, inl, inr}
use mathlib.Core.Bool.{Bool, true, false}
use mathlib.Core.Option.{Option, none, some}
use mathlib.Core.List.{List, [], ◌∷◌}
use native.Mathlib.Omega.{arith}
use foliot.Common.Tests.{if◌then◌else◌, Bool-cases}

pub record Eq {ℓ} (A : Type ℓ) : Type ℓ where
  pub beq : A → A → Bool
  pub beq_iff : (a b : A) → (beq a b ≡ true) ↔ (a ≡ b)

module _ {ℓ κ} {K : Type ℓ} {V : Type κ} ⦃e : Eq K⦄ where
  unfoldable pub get : K → List (K × V) → Option V
  get k [] = none
  get k ((i, v) ∷ m) = if e.beq i k then some v else get k m

  -- m[k] = f(m[k]), where f is given none for a key that is missing.
  unfoldable pub alter : K → (Option V → V) → List (K × V) → List (K × V)
  alter k f [] = (k, f none) ∷ []
  alter k f ((i, v) ∷ m) = if e.beq i k then (i, f (some v)) ∷ m else (i, v) ∷ alter k f m

  -- `if v := m[k]; v != nil { *v = f(*v) }`
  unfoldable pub adjust : K → (V → V) → List (K × V) → List (K × V)
  adjust k f [] = []
  adjust k f ((i, v) ∷ m) = if e.beq i k then (i, f v) ∷ m else (i, v) ∷ adjust k f m

  pub get-alter :
      (k i : K) (f : Option V → V) (m : List (K × V))
      → get i (alter k f m) ≡ (if e.beq k i then some (f (get k m)) else get i m)
  unfolding get alter
  get-alter k i f [] = refl
  get-alter k i f ((h, v) ∷ m) =
      ground (arith, get-alter k i f m, e.beq_iff h k, e.beq_iff h i, e.beq_iff k i)

  pub get-adjust :
      (k i : K) (f : V → V) (m : List (K × V))
      → get i (adjust k f m)
        ≡ (if e.beq k i then (elim (get i m) [ none ↦ none | some v ↦ some (f v) ]) else get i m)
  unfolding get adjust
  get-adjust k i f [] = ground arith
  get-adjust k i f ((h, v) ∷ m) =
      ground (arith, get-adjust k i f m, e.beq_iff h k, e.beq_iff h i, e.beq_iff k i)

  -- No two entries have one key.
  abbrev pub Fresh : K → List (K × V) → Type 0
  Fresh k [] = Unit
  Fresh k ((i, v) ∷ m) = (e.beq i k ≡ false) × Fresh k m

  abbrev pub IsMap : List (K × V) → Type 0
  IsMap [] = Unit
  IsMap ((i, v) ∷ m) = Fresh i m × IsMap m

  Fresh-alter :
      (k i : K) (f : Option V → V) (m : List (K × V))
      → e.beq k i ≡ false
      → Fresh i m
      → Fresh i (alter k f m)
  unfolding alter
  Fresh-alter k i f [] n h = (n, tt)
  Fresh-alter k i f ((h, v) ∷ m) n (x, y) = elim (Bool-cases (e.beq h k)) [
    | inl t ↦ rw t (x, y)
    | inr g ↦ rw g (x, Fresh-alter k i f m n y)
  ]

  pub IsMap-alter : (k : K) (f : Option V → V) (m : List (K × V)) → IsMap m → IsMap (alter k f m)
  unfolding alter
  IsMap-alter k f [] h = (tt, tt)
  IsMap-alter k f ((i, v) ∷ m) (x, y) = elim (Bool-cases (e.beq i k)) [
    | inl t ↦ rw t (x, y)
    | inr g ↦
        rw g (
          Fresh-alter k i f m (ground (arith, e.beq_iff i k, e.beq_iff k i)) x,
          IsMap-alter k f m y,
        )
  ]

  Fresh-adjust : (k i : K) (f : V → V) (m : List (K × V)) → Fresh i m → Fresh i (adjust k f m)
  unfolding adjust
  Fresh-adjust k i f [] h = tt
  Fresh-adjust k i f ((h, v) ∷ m) (x, y) = elim (Bool-cases (e.beq h k)) [
    | inl t ↦ rw t (x, y)
    | inr g ↦ rw g (x, Fresh-adjust k i f m y)
  ]

  pub IsMap-adjust : (k : K) (f : V → V) (m : List (K × V)) → IsMap m → IsMap (adjust k f m)
  unfolding adjust
  IsMap-adjust k f [] h = tt
  IsMap-adjust k f ((i, v) ∷ m) (x, y) = elim (Bool-cases (e.beq i k)) [
    | inl t ↦ rw t (x, y)
    | inr g ↦ rw g (Fresh-adjust k i f m x, IsMap-adjust k f m y)
  ]

-- ===== src/Adapter/Stream/Ids.antt =====
-- The set of denied ids that `Read` keeps (src/adapters/claude-code/stream.go).
use text.Mathlib.TextEquality.{eq_iff}
use foliot.Common.{
  String, ◌≡◌, refl, ap, ◌∙◌, false, ◌||◌, List, [], ◌∷◌, ◌++◌, ◌=s=◌, contains, arith, Bool-cases,
  inl, inr,
}
use foliot.Adapter.Stream.{insert_id}

-- No id twice.
abbrev pub Distinct : List String → Type 0
Distinct [] = Unit
Distinct (x ∷ xs) = (contains x xs ≡ false) × Distinct xs

contains-append :
    (j : String) (xs ys : List String) → contains j (xs ++ ys) ≡ (contains j xs || contains j ys)
contains-append j [] ys = refl
contains-append j (x ∷ xs) ys = ground (arith, contains-append j xs ys)

pub contains-insert_id :
    (j i : String) (ids : List String)
    → contains j (insert_id i ids) ≡ (contains j ids || (i =s= j))
contains-insert_id j i ids = elim (Bool-cases (contains i ids)) [
  | inl t ↦ elim (Bool-cases (i =s= j)) [
    | inl e ↦ ground (arith, t, e, ap (λ k. contains k ids) ((eq_iff i j).0 e))
    | inr n ↦ ground (arith, t, n)
  ]
  | inr f ↦ rw f (contains-append j ids (i ∷ []) ∙ ground arith)
]

Distinct-append :
    (i : String) (ids : List String)
    → Distinct ids
    → contains i ids ≡ false
    → Distinct (ids ++ (i ∷ []))
Distinct-append i [] d h = (refl, tt)
Distinct-append i (x ∷ xs) (n, d) h = (
  ground (arith, contains-append x xs (i ∷ []), n, h, eq_iff x i, eq_iff i x),
  Distinct-append i xs d (ground (arith, h)),
)

pub Distinct-insert_id :
    (i : String) (ids : List String) → Distinct ids → Distinct (insert_id i ids)
Distinct-insert_id i ids d = elim (Bool-cases (contains i ids)) [
  | inl t ↦ rw t d
  | inr f ↦ rw f (Distinct-append i ids d f)
]

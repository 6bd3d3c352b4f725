-- ===== src/Log/Open/Names.antt =====
-- The bad lines that a list of named seqs leaves out.
use mathlib.Core.Path.{subst}
use mathlib.Core.List.{append_assoc}
use foliot.Common.{
  ◌≡◌, refl, true, ◌||◌, List, [], ◌∷◌, ◌++◌, pos, ℤ, All, arith, ==ℤ_iff, Bool-cases, inl, inr,
}
use foliot.Log.Scan.{BadLine, contains_seq, select_unrecorded}

pub contains_seq-append :
    (s : ℤ) (xs ys : List ℤ) → contains_seq s (xs ++ ys) ≡ (contains_seq s xs || contains_seq s ys)
contains_seq-append s [] ys = refl
contains_seq-append s (x ∷ xs) ys = ground (arith, contains_seq-append s xs ys)

-- Every bad line of the list is named.
abbrev pub AllNamed : List ℤ → List BadLine → Type 0
AllNamed named = All (λ b. contains_seq (pos b.seq) named ≡ true)

pub AllNamed-none :
    (named : List ℤ) (bad : List BadLine) → AllNamed named bad → select_unrecorded named bad ≡ []
AllNamed-none named [] h = refl
AllNamed-none named (b ∷ bs) h = rw (h.0, AllNamed-none named bs h.1)

-- The bad lines that are left out are named by what is added.
pub AllNamed-append :
    (named more : List ℤ) (bad : List BadLine)
    → AllNamed more (select_unrecorded named bad)
    → AllNamed (named ++ more) bad
AllNamed-append named more [] h = tt
AllNamed-append named more (b ∷ bs) h = elim (Bool-cases (contains_seq (pos b.seq) named)) [
  | inl t ↦ (rw (contains_seq-append, t), AllNamed-append named more bs (rw t at h))
  | inr f ↦
      (let h' : AllNamed more (b ∷ select_unrecorded named bs) = rw f at h in
        (rw (contains_seq-append, f) h'.0, AllNamed-append named more bs h'.1))
]

abbrev pub seqs_of : List BadLine → List ℤ
seqs_of [] = []
seqs_of (b ∷ bs) = pos b.seq ∷ seqs_of bs

pub AllNamed-seqs_of : (xs ys : List ℤ) (bs : List BadLine) → AllNamed (xs ++ (seqs_of bs ++ ys)) bs
AllNamed-seqs_of xs ys [] = tt
AllNamed-seqs_of xs ys (b ∷ bs) = (
  rw (contains_seq-append, (==ℤ_iff (pos b.seq) (pos b.seq)).1 refl) (ground arith),
  subst (λ zs. AllNamed zs bs) (append_assoc xs (pos b.seq ∷ []) (seqs_of bs ++ ys))
      (AllNamed-seqs_of (xs ++ pos b.seq ∷ []) ys bs),
)

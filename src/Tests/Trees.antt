-- ===== src/Tests/Trees.antt =====
-- The denials around one run.
use foliot.Common.{String, ◌≡◌, refl, true, false, Option, none, some, List, [], ◌∷◌, contains}
use foliot.Bench.Deny.{PathOf, complement, rel_path}
use foliot.Bench.Deny.Cover.{is_denied, complement-Covers, complement-Keeps}

-- A root of one name, with the checks and the runs in it, and two entries in each of these.
abbrev tree : PathOf → Option (List String)
tree (root ∷ []) = some ("checks" ∷ "work" ∷ [])
tree (root ∷ dir ∷ []) = some ("one" ∷ "two" ∷ [])
tree _ = none

abbrev the_root : PathOf
the_root = "r" ∷ []

abbrev the_run : PathOf
the_run = "r" ∷ "work" ∷ "one" ∷ []

the_run-way : rel_path the_root the_run ≡ some ("work" ∷ "one" ∷ [])
the_run-way = refl

entry :
    (n : String) (xs : List String)
    → contains n xs ≡ true
    → (entries : List String) → some xs ≡ some entries
    → contains n entries ≡ true
entry n xs h entries e = cc

complement-Covers_example :
    is_denied (complement tree the_root the_run) ("r" ∷ "work" ∷ "two" ∷ []) ≡ true
complement-Covers_example =
    complement-Covers tree the_root the_run ("work" ∷ "one" ∷ []) ("work" ∷ "two" ∷ []) refl
      (entry "work" _ refl, (entry "two" _ refl, tt)) refl

complement-Keeps_example :
    is_denied (complement tree the_root the_run) ("r" ∷ "work" ∷ "one" ∷ []) ≡ false
complement-Keeps_example =
    complement-Keeps tree the_root the_run ("work" ∷ "one" ∷ []) [] refl
      ((_, refl), ((_, refl), tt))

-- ===== src/Tests/Files.antt =====
-- A worker's tree over a base.
use foliot.Common.{String, false, Option, none, some, List, [], ◌∷◌, ◌≡◌, refl, arith, length}
use foliot.Common.Assoc.{get}
use foliot.Bench.Tree.{
  FilePath, path_key, regular, link, Files, leaf, dir, nil, cons, Change, write, delete,
  file_changes, tree_changes, is_below, apply_changes, count_links,
}
use foliot.Bench.Tree.Leaves.{wanted}
use foliot.Bench.Tree.Restored.{apply_changes-file_changes}

abbrev base_files : Files
base_files =
    ("a" ∷ [], regular (some "1"))
    ∷ ("b" ∷ [], regular (some "2"))
    ∷ ("c" ∷ [], regular (some "3"))
    ∷ []

abbrev worker_files : Files
worker_files =
    ("a" ∷ [], regular (some "1")) ∷ ("b" ∷ [], link) ∷ ("d" ∷ [], regular (some "4")) ∷ []

abbrev no_file : FilePath → Option String
no_file p = none

abbrev fails : Change → Files → Option Files
fails c fs = none

abbrev IsTop : FilePath → Type 0
IsTop p = length p ≡ 1

top_apart : (p q : FilePath) → IsTop p → IsTop q → is_below p q ≡ false
top_apart [] q h k = absurd (ground (arith, h))
top_apart (a ∷ p) [] h k = absurd (ground (arith, k))
top_apart (a ∷ []) (b ∷ []) h k = ground arith
top_apart (a ∷ c ∷ p) (b ∷ q) h k = absurd (omega (arith, h))
top_apart (a ∷ []) (b ∷ c ∷ q) h k = absurd (omega (arith, k))

abbrev changes : List Change
changes = write ("d" ∷ []) "4" ∷ delete ("c" ∷ []) ∷ []

apply_changes-file_changes_example :
    (fs : Files) × (apply_changes fails changes base_files ≡ some fs)
    × ((q : FilePath) → get q fs ≡ wanted (get q worker_files) (get q base_files))
    × (1 ≡ count_links worker_files)
unfolding file_changes
apply_changes-file_changes_example =
    apply_changes-file_changes no_file fails IsTop top_apart (λ p. refl) base_files worker_files
      changes 1 ((refl, (refl, tt)), ((refl, tt), (tt, tt))) (refl, (refl, (refl, tt)))
      (refl, (refl, (refl, tt))) refl

-- What setup installed is skipped in the worker, and a committed file there counts as deleted.
skipped_test :
    tree_changes no_file
      (cons "node_modules" (dir (cons "m" (leaf (regular (some "1"))) nil)) nil)
      (cons "node_modules" (dir (cons "m" (leaf (regular (some "1"))) nil)) nil)
    ≡ some (delete ("node_modules" ∷ "m" ∷ []) ∷ [], 0)
unfolding tree_changes
skipped_test = refl

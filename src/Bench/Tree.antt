-- ===== src/Bench/Tree.antt =====
-- src/core/bench/workspace.go and runner.go: `treeChanges` and `applyChanges`. A tree is read as its
-- files by path: a path is the list of its names.
pub mod Leaves
pub mod Restored
use text.Mathlib.TextEquality.{eq_iff}
use foliot.Common.{
  ℕ, zero, suc, ◌+◌, String, Bool, true, false, not, ◌&&◌, ◌||◌, Option, none, some, List, [], ◌∷◌,
  ◌++◌, map, if◌then◌else◌, ◌=s=◌, is_none, ◌≡◌, ◌↔◌, refl, ap, arith,
}
use foliot.Common.Assoc.{Eq, get, alter}

abbrev pub FilePath : Type 0
FilePath = List String

abbrev pub same_path : FilePath → FilePath → Bool
same_path [] [] = true
same_path (a ∷ p) (b ∷ q) = (a =s= b) && same_path p q
same_path _ _ = false

pub same_path_iff : (p q : FilePath) → (same_path p q ≡ true) ↔ (p ≡ q)
same_path_iff [] [] = ((λ h. refl), λ h. refl)
same_path_iff [] (b ∷ q) = ((λ h. absurd cc), λ h. absurd cc)
same_path_iff (a ∷ p) [] = ((λ h. absurd cc), λ h. absurd cc)
same_path_iff (a ∷ p) (b ∷ q) = (
  (λ h.
      let e = (eq_iff a b).0 (ground (arith, h)) in
      let f = (same_path_iff p q).0 (ground (arith, h)) in λ i. e i ∷ f i),
  λ h.
      let x : a ≡ b = cc in
      let y : p ≡ q = cc in ground (arith, (eq_iff a b).1 x, (same_path_iff p q).1 y),
)

instance abbrev pub path_key : Eq FilePath
path_key = record { beq = same_path; beq_iff = same_path_iff }

-- What stands at a path that is no directory: a regular file with its content, none if it does not
-- read, a symbolic link, and anything else.
pub data Leaf : Type 0 where
  regular : Option String → Leaf
  link : Leaf
  special : Leaf

abbrev pub Files : Type 0
Files = List (FilePath × Leaf)

-- A directory with its entries, in the order of their names.
mutual
  pub data Node : Type 0 where
    leaf : Leaf → Node
    dir : Entries → Node

  pub data Entries : Type 0 where
    nil : Entries
    cons : String → Node → Entries → Entries

abbrev under_name : String → Files → Files
under_name name [] = []
under_name name ((p, l) ∷ fs) = (name ∷ p, l) ∷ under_name name fs

-- `skippedDirNames`
abbrev pub is_skipped : String → Bool
is_skipped name = (name =s= ".git") || (name =s= "node_modules")

-- The files that filepath.WalkDir visits where a directory with a name that is skipped is left out.
unfoldable mutual
  walk_node : (String → Bool) → String → Node → Files
  walk_node skip name (leaf l) = (name ∷ [], l) ∷ []
  walk_node skip name (dir es) =
      let fs = walk skip es in if skip name then [] else under_name name fs

  pub walk : (String → Bool) → Entries → Files
  walk skip nil = []
  walk skip (cons name n es) = walk_node skip name n ++ walk skip es

-- `change`
pub data Change : Type 0 where
  write : FilePath → String → Change
  delete : FilePath → Change

-- Whether the base has a content at a path: `through` is what os.ReadFile gives where the export has no
-- regular file, as through a symbolic link.
abbrev pub read_leaf : Option String → Option Leaf → Option String
read_leaf t none = t
read_leaf t (some (regular c)) = c
read_leaf t (some link) = t
read_leaf t (some special) = t

abbrev pub read_base : (FilePath → Option String) → Files → FilePath → Option String
read_base through base p = read_leaf (through p) (get p base)

abbrev pub is_content : Option String → String → Bool
is_content none c = false
is_content (some old) c = old =s= c

abbrev pub add_write : Bool → FilePath → String → Option (List Change) → Option (List Change)
add_write known p c none = none
add_write known p c (some cs) = if known then some cs else some (write p c ∷ cs)

-- The first walk of `treeChanges`: what the worker wrote, none if a file does not read.
abbrev pub writes : (FilePath → Option String) → Files → Files → Option (List Change)
writes through base [] = some []
writes through base ((p, regular none) ∷ ws) = none
writes through base ((p, regular (some c)) ∷ ws) =
    add_write (is_content (read_base through base p) c) p c (writes through base ws)
writes through base ((p, link) ∷ ws) = writes through base ws
writes through base ((p, special) ∷ ws) = writes through base ws

-- `seen`, and the count of symbolic links.
abbrev pub is_seen : Option Leaf → Bool
is_seen none = false
is_seen (some (regular c)) = true
is_seen (some link) = true
is_seen (some special) = false

abbrev pub count_links : Files → ℕ
count_links [] = 0
count_links ((p, regular c) ∷ ws) = count_links ws
count_links ((p, link) ∷ ws) = count_links ws + 1
count_links ((p, special) ∷ ws) = count_links ws

-- The second walk: what the base has and the worker does not.
abbrev pub deletes : Files → Files → List Change
deletes ws [] = []
deletes ws ((p, l) ∷ fs) =
    let rest = deletes ws fs in if is_seen (get p ws) then rest else delete p ∷ rest

abbrev pub with_deletes : Files → Files → Option (List Change) → Option (List Change × ℕ)
with_deletes base ws none = none
with_deletes base ws (some cs) = some (cs ++ deletes ws base, count_links ws)

-- `treeChanges`, of the export of the base and of the worker's files that are not skipped.
unfoldable pub file_changes : (FilePath → Option String) → Files → Files → Option (List Change × ℕ)
unfolding get
file_changes through base ws = with_deletes base ws (writes through base ws)

unfoldable pub tree_changes :
    (FilePath → Option String) → Entries → Entries → Option (List Change × ℕ)
unfolding walk file_changes
tree_changes through base worker =
    file_changes through (walk (λ n. false) base) (walk is_skipped worker)

-- A path that is below another.
abbrev pub is_below : FilePath → FilePath → Bool
is_below [] [] = false
is_below [] (b ∷ q) = true
is_below (a ∷ p) [] = false
is_below (a ∷ p) (b ∷ q) = (a =s= b) && is_below p q

-- A symbolic link above a path; a file or a link above it, or anything below it.
abbrev pub goes_astray : FilePath → Files → Bool
goes_astray p [] = false
goes_astray p ((q, link) ∷ fs) = is_below q p || goes_astray p fs
goes_astray p ((q, regular c) ∷ fs) = goes_astray p fs
goes_astray p ((q, special) ∷ fs) = goes_astray p fs

abbrev pub is_blocked : FilePath → Files → Bool
is_blocked p [] = false
is_blocked p ((q, l) ∷ fs) = (is_below q p || is_below p q) || is_blocked p fs

abbrev pub drop_file : FilePath → Files → Files
drop_file p [] = []
drop_file p ((q, l) ∷ fs) =
    let rest = drop_file p fs in if same_path q p then rest else (q, l) ∷ rest

-- One round of `applyChanges`, none if it fails. `astray` is what the system does of a change at a path
-- that a symbolic link of the checkout leads elsewhere. Elsewhere the parent's directories are made
-- unless a file is in their way, and a file is written or removed unless it is a directory with files.
abbrev pub apply_change : (Change → Files → Option Files) → Change → Files → Option Files
apply_change astray (write p c) fs =
    if goes_astray p fs
    then astray (write p c) fs
    else if is_blocked p fs
    then none
    else some (alter p (λ _. regular (some c)) fs)
apply_change astray (delete p) fs =
    if goes_astray p fs
    then astray (delete p) fs
    else if is_blocked p fs
    then none
    else some (drop_file p fs)

-- `applyChanges`
unfoldable pub apply_changes : (Change → Files → Option Files) → List Change → Files → Option Files
unfolding alter
apply_changes astray [] fs = some fs
apply_changes astray (c ∷ cs) fs = elim (apply_change astray c fs) [
  | none ↦ none
  | some fs' ↦ apply_changes astray cs fs'
]

-- ===== src/Bench/Deny.antt =====
-- src/core/bench/isolation.go: `complement`. A cleaned absolute path is the list of
-- its names; os.ReadDir is a function, none where it fails.
pub mod Cover
use foliot.Bench.Strings.{has_prefix}
use foliot.Common.{
  String, Bool, true, false, not, ◌||◌, ◌&&◌, Option, none, some, List, [], ◌∷◌, ◌++◌,
  if◌then◌else◌, ◌=s=◌,
}

abbrev pub PathOf : Type 0
PathOf = List String

-- The entries of a directory but one, as paths.
abbrev pub siblings : PathOf → String → List String → List PathOf
siblings dir seg [] = []
siblings dir seg (e ∷ es) =
    let rest = siblings dir seg es in if e =s= seg then rest else (dir ++ (e ∷ [])) ∷ rest

-- The loop of `complement`, from a directory along the names that are left to the path kept.
unfoldable pub deny_along : (PathOf → Option (List String)) → PathOf → List String → List PathOf
deny_along read_dir dir [] = []
deny_along read_dir dir (seg ∷ segs) = elim (read_dir dir) [
  | none ↦ dir ∷ []
  | some entries ↦ siblings dir seg entries ++ deny_along read_dir (dir ++ (seg ∷ [])) segs
]

-- The names from a directory down to a path under it.
abbrev pub below : PathOf → PathOf → Option (List String)
below [] keep = some keep
below (t ∷ top) [] = none
below (t ∷ top) (k ∷ keep) = let rest = below top keep in if t =s= k then rest else none

-- strings.HasPrefix(rel, ".."), which also holds of a first name such as "..cache".
abbrev pub is_outside : List String → Bool
is_outside [] = false
is_outside (n ∷ ns) = has_prefix n ".."

-- filepath.Rel with the tests that follow it: none where the result begins with "..".
abbrev pub rel_path : PathOf → PathOf → Option (List String)
rel_path top keep = elim (below top keep) [
  | none ↦ none
  | some segs ↦ if is_outside segs then none else some segs
]

-- `complement`
unfoldable pub complement : (PathOf → Option (List String)) → PathOf → PathOf → List PathOf
unfolding deny_along
complement read_dir top keep = elim (rel_path top keep) [
  | none ↦ []
  | some segs ↦ deny_along read_dir top segs
]

-- ===== src/Bench/Language.antt =====
-- src/core/bench/runner.go: `majorityLanguage`.
use Prim.Native.String.{compare}
use Prim.Native.Char.{code}
use text.Mathlib.Text.{is_lt}
use text.Mathlib.TextEquality.{eq_iff}
use foliot.Common.{
  ℕ, String, ◌≡◌, refl, ◌||◌, ◌&&◌, Option, none, some, List, [], ◌∷◌, if◌then◌else◌, ◌=s=◌, ltb,
  ◌==◌, ◌+◌, lookup,
}
use foliot.Common.Assoc.{Eq, alter}

instance abbrev name_eq : Eq String
name_eq = record { beq = λ a b. a =s= b; beq_iff = eq_iff }

-- `languages`
abbrev pub languages : List (String × String)
languages =
    (".ts", "TypeScript")
    ∷ (".tsx", "TypeScript")
    ∷ (".js", "JavaScript")
    ∷ (".mjs", "JavaScript")
    ∷ (".go", "Go")
    ∷ (".py", "Python")
    ∷ (".rs", "Rust")
    ∷ (".rb", "Ruby")
    ∷ (".java", "Java")
    ∷ (".swift", "Swift")
    ∷ (".c", "C")
    ∷ (".cc", "C++")
    ∷ []

-- filepath.Ext: what follows the last dot of the last name, with the dot; `none` while none was seen.
abbrev ext_from : Option String → String → Option String
ext_from seen String.[] = seen
ext_from seen (String.◌∷◌ c s) =
    let from_dot = ext_from (some (String.◌∷◌ c s)) s in
    let from_slash = ext_from none s in
    let rest = ext_from seen s in
    if code c == 46 then from_dot else if code c == 47 then from_slash else rest

abbrev or_empty : Option String → String
or_empty none = ""
or_empty (some t) = t

abbrev pub extension : String → String
extension s = or_empty (ext_from none s)

abbrev add_one : Option ℕ → ℕ
add_one none = 1
add_one (some n) = n + 1

-- counts, over the files
abbrev count_languages : List (String × ℕ) → List String → List (String × ℕ)
count_languages m [] = m
count_languages m (f ∷ fs) =
    count_languages
      (elim (lookup (extension f) languages) [ none ↦ m | some l ↦ alter l add_one m ]) fs

abbrev best_of : String → ℕ → List (String × ℕ) → String
best_of best n [] = best
best_of best n ((l, c) ∷ m) =
    if ltb n c || ((c == n) && is_lt (compare l best)) then best_of l c m else best_of best n m

-- `majorityLanguage`
unfoldable pub majority_language : List String → String
unfolding alter
majority_language files = best_of "unknown" 0 (count_languages [] files)

majority_language_test :
    majority_language ("a.d/b" ∷ "src/x.go" ∷ "src/y.py" ∷ "z.go" ∷ "w.py" ∷ "README.md" ∷ [])
    ≡ "Go"
unfolding majority_language
majority_language_test = refl

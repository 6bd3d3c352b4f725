-- ===== src/Bench/Profile/Arms.antt =====
-- The arms that `ParseArms` resolves (src/core/bench/profile.go).
use foliot.Common.{
  ℕ, ◌+◌, ◌<◌, String, ◌≡◌, true, false, none, some, List, [], ◌∷◌, map, if◌then◌else◌, ◌=s=◌,
  contains, arith, Bool-cases, if-induct, Option-induct, inl, inr,
}
use text.Mathlib.TextEquality.{eq_iff}
use foliot.Bench.Strings.{split_on, trim_space}
use foliot.Bench.Profile.{Arm, ArmsError, Parsed, arm, parse_names, parse_arms, cons_arm}

module _ {F : Type 0} (known : List (Arm F)) where
  -- Arms stand for names, one each in order, each the profile's arm of that name, and no name is one
  -- of those before it.
  pub data Resolves : List String → List String → List (Arm F) → Type 0 where
    no_names : {seen : List String} → Resolves seen [] []
    next :
        {seen : List String} {a : Arm F} {name : String} {names : List String} {arms : List (Arm F)}
        → arm known name ≡ some a
        → contains name seen ≡ false
        → Resolves (name ∷ seen) names arms
        → Resolves seen (name ∷ names) (a ∷ arms)

  -- How often a name is in a list.
  abbrev pub occurs : String → List String → ℕ
  occurs n [] = 0
  occurs n (m ∷ ms) = let k = occurs n ms in if m =s= n then k + 1 else k

  -- What the result of parsing says of the names.
  abbrev pub IsResult : List String → List String → Parsed F → Type 0
  IsResult seen names (Parsed.resolved arms) = Resolves seen names arms
  IsResult seen names (Parsed.refused (ArmsError.unknown_arm n)) =
      (arm known n ≡ none) × (contains n names ≡ true)
  IsResult seen names (Parsed.refused (ArmsError.listed_twice n)) =
      1 < occurs n seen + occurs n names

  occurs-pos : (n : String) (ns : List String) → contains n ns ≡ true → 0 < occurs n ns
  occurs-pos n [] h = ground (arith, h)
  occurs-pos n (m ∷ ms) h = elim (Bool-cases (m =s= n)) [
    | inl t ↦ ground (arith, t)
    | inr f ↦ ground (arith, f, occurs-pos n ms (rw f at h))
  ]

  contains-cons :
      (n m : String) (ns : List String) → contains n ns ≡ true → contains n (m ∷ ns) ≡ true
  contains-cons n m ns h = ground (arith, h)

  cons_arm-IsResult :
      (seen names : List String) (name : String) (a : Arm F) (p : Parsed F)
      → arm known name ≡ some a
      → contains name seen ≡ false
      → IsResult (name ∷ seen) names p
      → IsResult seen (name ∷ names) (cons_arm a p)
  cons_arm-IsResult seen names name a (Parsed.resolved arms) x n h = Resolves.next x n h
  cons_arm-IsResult seen names name a (Parsed.refused (ArmsError.unknown_arm m)) x n (u, c) =
      (u, contains-cons m name names c)
  cons_arm-IsResult seen names name a (Parsed.refused (ArmsError.listed_twice m)) x n c =
      ground (arith, c)

  parse_names-IsResult :
      (seen ws : List String) → IsResult seen (map trim_space ws) (parse_names known seen ws)
  parse_names-IsResult seen [] = Resolves.no_names
  parse_names-IsResult seen (w ∷ ws) =
      Option-induct P (arm known (trim_space w)) _ _ (λ n. (n, here))
        (λ a x.
          if-induct P (contains (trim_space w) seen) _ _
            (λ t. ground (arith, occurs-pos _ seen t, eq_iff (trim_space w) (trim_space w)))
            (λ n.
              cons_arm-IsResult seen (map trim_space ws) (trim_space w) a _ x n
                (parse_names-IsResult (trim_space w ∷ seen) ws)))
    where
      P : Parsed F → Type 0
      P = IsResult seen (trim_space w ∷ map trim_space ws)

      here : contains (trim_space w) (trim_space w ∷ map trim_space ws) ≡ true
      here = ground (arith, eq_iff (trim_space w) (trim_space w))

  -- An arm list is resolved to the profile's arms of its names, one for each in order, with no name
  -- twice; or it is refused for a name in it that the profile does not have or that is listed twice.
  pub parse_arms-IsResult :
      (list : String) → IsResult [] (map trim_space (split_on 44 list)) (parse_arms known list)
  unfolding parse_arms
  parse_arms-IsResult list = parse_names-IsResult [] (split_on 44 list)

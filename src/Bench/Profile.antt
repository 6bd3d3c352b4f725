-- ===== src/Bench/Profile.antt =====
-- src/core/bench/profile.go: the arms of the profile, the check of it, and the arm list of a command.
pub mod Arms
use foliot.Common.{
  ℕ, String, ℤ, pos, ltb_ℤ, Bool, true, false, not, ◌||◌, ◌&&◌, Option, none, some, List, [], ◌∷◌,
  ◌++◌, is_none, if◌then◌else◌, ◌=s=◌, contains, lookup, leb, ◌==◌, codes, ◌+◌,
}
use foliot.Common.Float.{Float}
use foliot.Bench.Strings.{split_on, trim_space, has_prefix}

pub record Arm (F : Type 0) : Type 0 where
  pub name : String
  pub adapter : String
  pub model : String
  pub provider : String
  pub cutoff : String
  pub cutoff_source : String
  pub cap_usd : F
  pub repeats : ℤ

pub record Profile (F : Type 0) : Type 0 where
  pub arms : List (Arm F)
  pub deny_read : List String
  pub credentials : List (String × String)
  pub max_load_at_start : F

-- The refusals of this file, with what their messages name.
pub data ProfileProblem : Type 0 where
  not_slug : ℕ → String → ProfileProblem
  declared_twice : String → ProfileProblem
  no_adapter : String → String → ProfileProblem
  no_credentials : String → String → ProfileProblem
  arm_needs : String → ProfileProblem
  arms_empty : ProfileProblem
  load_negative : ProfileProblem
  deny_not_absolute : String → ProfileProblem

-- `armNameRe`
abbrev is_arm_char : ℕ → Bool
is_arm_char c = (leb 97 c && leb c 122) || (leb 48 c && leb c 57)

abbrev arm_name_from : List ℕ → Bool
arm_name_from [] = true
arm_name_from (c ∷ cs) = (is_arm_char c || (c == 45)) && arm_name_from cs

abbrev pub is_arm_name : List ℕ → Bool
is_arm_name [] = false
is_arm_name (c ∷ cs) = is_arm_char c && arm_name_from cs

abbrev is_digit : ℕ → Bool
is_digit c = leb 48 c && leb c 57

-- `cutoffRe`
abbrev pub is_cutoff : List ℕ → Bool
is_cutoff (a ∷ b ∷ c ∷ d ∷ h ∷ m ∷ n ∷ []) =
    is_digit a
    && (is_digit b
        && (is_digit c
            && (is_digit d
                && ((h == 45)
                    && (((m == 48) && (leb 49 n && leb n 57))
                        || ((m == 49) && (leb 48 n && leb n 50)))))))
is_cutoff _ = false

abbrev is_nil : {A : Type 0} → List A → Bool
is_nil [] = true
is_nil (_ ∷ _) = false

abbrev also : Bool → ProfileProblem → List ProfileProblem
also b p = if b then p ∷ [] else []

module _ (fl : Float) where
  abbrev name_problem : ℕ → List String → Arm fl.F → List ProfileProblem
  name_problem i seen a =
      if not (is_arm_name (codes a.name))
      then not_slug i a.name ∷ []
      else also (contains a.name seen) (declared_twice a.name)

  abbrev adapter_problem : List String → List (String × String) → Arm fl.F → List ProfileProblem
  adapter_problem adapters credentials a =
      if not (contains a.adapter adapters)
      then no_adapter a.name a.adapter ∷ []
      else also (is_none (lookup a.adapter credentials)) (no_credentials a.name a.adapter)

  abbrev needs_more : Arm fl.F → Bool
  needs_more a =
      (a.model =s= "")
      || ((a.provider =s= "")
          || (not (is_cutoff (codes a.cutoff))
              || ((a.cutoff_source =s= "")
                  || (fl.le_f a.cap_usd fl.zero_f || ltb_ℤ a.repeats (pos 0)))))

  -- The loop over the arms: the index, the names seen, and the arms left.
  abbrev arm_problems :
      List String → List (String × String) → ℕ → List String → List (Arm fl.F) → List ProfileProblem
  arm_problems adapters credentials i seen [] = []
  arm_problems adapters credentials i seen (a ∷ arms) =
      name_problem i seen a
      ++ (adapter_problem adapters credentials a
          ++ (also (needs_more a) (arm_needs a.name)
              ++ arm_problems adapters credentials (i + 1) (a.name ∷ seen) arms))

  abbrev deny_problems : List String → List ProfileProblem
  deny_problems [] = []
  deny_problems (d ∷ ds) = also (not (has_prefix d "/")) (deny_not_absolute d) ++ deny_problems ds

  -- The problems of `LoadProfile`, in its order: the profile is refused unless there is none.
  unfoldable pub problems : List String → Profile fl.F → List ProfileProblem
  problems adapters p =
      arm_problems adapters p.credentials 0 [] p.arms
      ++ (also (is_nil p.arms) arms_empty
          ++ (also (fl.lt_f p.max_load_at_start fl.zero_f) load_negative
              ++ deny_problems p.deny_read))

pub data ArmsError : Type 0 where
  unknown_arm : String → ArmsError
  listed_twice : String → ArmsError

-- What `ParseArms` returns.
pub data Parsed (F : Type 0) : Type 0 where
  refused : ArmsError → Parsed F
  resolved : List (Arm F) → Parsed F

module _ {F : Type 0} where
  -- `Profile.arm`
  unfoldable pub arm : List (Arm F) → String → Option (Arm F)
  arm [] name = none
  arm (a ∷ arms) name = if a.name =s= name then some a else arm arms name

  abbrev pub cons_arm : Arm F → Parsed F → Parsed F
  cons_arm a (refused e) = refused e
  cons_arm a (resolved ys) = resolved (a ∷ ys)

  -- The loop of `ParseArms`, over the names of the list and those seen.
  abbrev pub parse_names : List (Arm F) → List String → List String → Parsed F
  parse_names known seen [] = resolved []
  parse_names known seen (w ∷ ws) =
      let name = trim_space w in
      let rest = parse_names known (name ∷ seen) ws in
      elim (arm known name) [
        | none ↦ refused (unknown_arm name)
        | some a ↦ if contains name seen then refused (listed_twice name) else cons_arm a rest
      ]

  -- `ParseArms`
  unfoldable pub parse_arms : List (Arm F) → String → Parsed F
  unfolding arm trim_space split_on
  parse_arms known list = parse_names known [] (split_on 44 list)

  -- `Arm.repeats`
  abbrev pub repeats_of : Arm F → ℤ → ℤ
  repeats_of a sweep = if ltb_ℤ (pos 0) a.repeats then a.repeats else sweep

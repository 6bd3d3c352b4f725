-- ===== src/Bench/Verify/Env.antt =====
-- src/core/bench/verify.go: `mergeEnv`, `environ`, `lastExamined`, `countFrom` and `checkEnv`.

use Prim.Native.String.{◌++◌ as text_append}
use foliot.Common.{
  ℕ, zero, suc, ◌+◌, ◌-◌, ◌*◌, ◌^◌, String, ℤ, pos, codes, Bool, true, false, ◌&&◌, ◌||◌, Option,
  none, some, List, [], ◌∷◌, ◌++◌, leb, ltb, ◌==◌, if◌then◌else◌, ◌=s=◌, ◌≡◌, refl,
}
use foliot.Bench.Strings.{has_prefix, split_on, trim_space}

-- The key of an entry: the text before its first '=' (code 61), if it has one.
abbrev cons_key : ℕ → Option (List ℕ) → Option (List ℕ)
cons_key c none = none
cons_key c (some k) = some (c ∷ k)

abbrev pub key_codes : List ℕ → Option (List ℕ)
key_codes [] = none
key_codes (c ∷ cs) = let rest = key_codes cs in if c == 61 then some [] else cons_key c rest

abbrev pub key : String → Option (List ℕ)
key kv = key_codes (codes kv)

abbrev pub same_codes : List ℕ → List ℕ → Bool
same_codes [] [] = true
same_codes (a ∷ cs) (b ∷ ds) = (a == b) && same_codes cs ds
same_codes _ _ = false

-- An entry that sets a key.
abbrev pub sets_key : List ℕ → Option (List ℕ) → Bool
sets_key k none = false
sets_key k (some j) = same_codes k j

abbrev pub is_set : List ℕ → List String → Bool
is_set k [] = false
is_set k (kv ∷ kvs) = sets_key k (key kv) || is_set k kvs

abbrev pub is_overridden : Option (List ℕ) → List String → Bool
is_overridden none overrides = false
is_overridden (some k) overrides = is_set k overrides

abbrev pub keep_base : List String → List String → List String
keep_base [] overrides = []
keep_base (kv ∷ kvs) overrides =
    let rest = keep_base kvs overrides in
    if is_overridden (key kv) overrides then rest else kv ∷ rest

-- `mergeEnv`
unfoldable pub merge_env : List String → List String → List String
merge_env base overrides = keep_base base overrides ++ overrides

-- `environ`, of the process environment.
unfoldable pub environ : List String → List String
environ [] = []
environ (kv ∷ kvs) =
    let rest = environ kvs in if has_prefix kv "FOLIOT_HOME=" then rest else kv ∷ rest

-- `checkEnv`
abbrev pub check_env : List String
check_env =
    "http_proxy=http://127.0.0.1:9" ∷ "https_proxy=http://127.0.0.1:9"
    ∷ "all_proxy=http://127.0.0.1:9" ∷ "HTTP_PROXY=http://127.0.0.1:9"
    ∷ "HTTPS_PROXY=http://127.0.0.1:9" ∷ "ALL_PROXY=http://127.0.0.1:9" ∷ "NO_PROXY=" ∷ "no_proxy="
    ∷ "NODE_USE_ENV_PROXY=1" ∷ "npm_config_offline=true" ∷ []

-- The environment of a step that `checkout.run` starts with some entries of its own.
unfoldable pub step_env : List String → List String → List String
unfolding merge_env environ
step_env process env = merge_env (environ process) ("CI=true" ∷ env)

abbrev is_digit : ℕ → Bool
is_digit c = leb 48 c && leb c 57

abbrev pub is_number : List ℕ → Bool
is_number [] = false
is_number (c ∷ []) = is_digit c
is_number (c ∷ d ∷ cs) = is_digit c && is_number (d ∷ cs)

abbrev pub value_from : ℕ → List ℕ → ℕ
value_from n [] = n
value_from n (c ∷ cs) = value_from (n * 10 + (c - 48)) cs

-- strconv.Atoi of digits, with its error passed over: a value over the range is the greatest.
abbrev pub atoi : List ℕ → ℕ
atoi cs = let n = value_from 0 cs in if ltb n (2 ^ 63) then n else 2 ^ 63 - 1

-- The digits after `examined=`, if the line is that and no more.
abbrev pub drop_codes : ℕ → List ℕ → List ℕ
drop_codes zero cs = cs
drop_codes (suc n) [] = []
drop_codes (suc n) (c ∷ cs) = drop_codes n cs

abbrev pub examined_line : String → ℕ
examined_line l =
    let digits = drop_codes 9 (codes l) in
    if has_prefix l "examined=" && is_number digits then atoi digits else 0

abbrev pub last_line : String → List String → String
last_line l [] = l
last_line l (m ∷ ms) = last_line m ms

abbrev drop_newline : String → String → String
drop_newline c t = if (c =s= "\n") && (t =s= "") then "" else text_append c t

-- strings.TrimRight(s, "\n")
abbrev pub trim_newlines : String → String
trim_newlines String.[] = ""
trim_newlines (String.◌∷◌ c s) = drop_newline (String.◌∷◌ c String.[]) (trim_newlines s)

-- `lastExamined`, of the log that is read, none if it does not read.
unfoldable pub last_examined : Option String → ℤ
unfolding trim_space split_on
last_examined none = pos 0
last_examined (some log) = elim (split_on 10 (trim_newlines log)) [
  | [] ↦ pos 0
  | l ∷ ls ↦ pos (examined_line (trim_space (last_line l ls)))
]

last_examined_test : last_examined (some "a\nexamined=12 \n\n") ≡ pos 12
unfolding last_examined
last_examined_test = refl

merge_env_test : merge_env ("A=1" ∷ "B=2" ∷ "C" ∷ []) ("A=3" ∷ []) ≡ "B=2" ∷ "C" ∷ "A=3" ∷ []
unfolding merge_env
merge_env_test = refl

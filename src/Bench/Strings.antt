-- ===== src/Bench/Strings.antt =====
-- What the benchmark uses of Go's strings package, on native strings.
use Prim.Native.Nat.{ℕ, ◌-◌}
use Prim.Native.Char.{Char, code}
use Prim.Native.String.{String, len, count, ◌++◌ as text_append}
use text.Mathlib.Text.{starts_with, find?}
use foliot.Common.{
  Bool, ◌||◌, ◌&&◌, List, [], ◌∷◌, is_none, not, leb, ◌==◌, if◌then◌else◌, ◌=s=◌, ◌≡◌, refl,
}

-- strings.HasPrefix and strings.Contains, the text before what is looked for.
abbrev pub has_prefix : String → String → Bool
has_prefix s t = starts_with s t

abbrev pub includes : String → String → Bool
includes s t = not (is_none (find? s t))

-- len: the bytes of the text's UTF-8.
abbrev pub byte_length : String → ℕ
byte_length s = len s

abbrev pub push_char : Char → List String → List String
push_char c [] = (String.◌∷◌ c String.[]) ∷ []
push_char c (w ∷ ws) = (String.◌∷◌ c w) ∷ ws

-- strings.Split at a separator of one character, given by its code.
unfoldable pub split_on : ℕ → String → List String
split_on sep String.[] = "" ∷ []
split_on sep (String.◌∷◌ c s) =
    let rest = split_on sep s in if code c == sep then "" ∷ rest else push_char c rest

-- unicode.IsSpace
abbrev pub is_space : Char → Bool
is_space c =
    let n = code c in
    (leb 9 n && leb n 13)
    || ((n == 32)
        || ((n == 133)
            || ((n == 160)
                || ((n == 5760)
                    || ((leb 8192 n && leb n 8202)
                        || ((n == 8232)
                            || ((n == 8233) || ((n == 8239) || ((n == 8287) || (n == 12288))))))))))

abbrev trim_left : String → String
trim_left String.[] = ""
trim_left (String.◌∷◌ c s) = let rest = trim_left s in if is_space c then rest else String.◌∷◌ c s

abbrev drop_space : Char → String → String
drop_space c String.[] = if is_space c then "" else String.◌∷◌ c ""
drop_space c (String.◌∷◌ d s) = String.◌∷◌ c (String.◌∷◌ d s)

abbrev trim_right : String → String
trim_right String.[] = ""
trim_right (String.◌∷◌ c s) = drop_space c (trim_right s)

-- strings.TrimSpace
unfoldable pub trim_space : String → String
trim_space s = trim_right (trim_left s)

-- s[1:]
abbrev pub tail_text : String → String
tail_text String.[] = ""
tail_text (String.◌∷◌ c s) = s

-- strings.Join
abbrev pub join_text : String → List String → String
join_text sep [] = ""
join_text sep (s ∷ []) = s
join_text sep (s ∷ t ∷ ts) = text_append s (text_append sep (join_text sep (t ∷ ts)))

-- strings.ReplaceAll of a text that is not empty by the empty text, with the characters of a match
-- that are still to be skipped.
abbrev drop_matches : String → ℕ → String → String
drop_matches t n String.[] = ""
drop_matches t (ℕ.suc n) (String.◌∷◌ c s) = drop_matches t n s
drop_matches t ℕ.zero (String.◌∷◌ c s) =
    let skipped = drop_matches t (count t - 1) s in
    let rest = drop_matches t 0 s in
    if has_prefix (String.◌∷◌ c s) t then skipped else String.◌∷◌ c rest

unfoldable pub remove_all : String → String → String
remove_all t s = if t =s= "" then s else drop_matches t 0 s

remove_all_test : remove_all "ab" "xababyab" ≡ "xy"
unfolding remove_all
remove_all_test = refl

trim_space_test : trim_space " \t a b \n" ≡ "a b"
unfolding trim_space
trim_space_test = refl

split_on_test : split_on 44 "a,b,,c" ≡ "a" ∷ "b" ∷ "" ∷ "c" ∷ []
unfolding split_on
split_on_test = refl

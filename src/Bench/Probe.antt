-- ===== src/Bench/Probe.antt =====
-- src/core/bench/isolation.go: `uniq`, `answerLines`, `judgeProbe`, `proven`; `Reading` of harness.go.
pub mod Safe
use Prim.Native.Char.{Char, code}
use Prim.Native.String.{compare}
use text.Mathlib.Text.{is_le}
use foliot.Common.{
  ℕ, ℤ, String, ◌≡◌, refl, Bool, true, false, not, ◌||◌, ◌&&◌, Option, none, some, List, [], ◌∷◌,
  if◌then◌else◌, ltb, leb, ◌==◌, ◌=s=◌, ◌+◌, contains, length,
}
use foliot.Log.Data.{BenchProbe}
use foliot.Bench.Strings.{
  has_prefix, includes, byte_length, split_on, trim_space, tail_text, join_text,
}

-- `Reading`: a nil pointer is none.
pub record Reading (F : Type 0) : Type 0 where
  pub model : String
  pub billing : String
  pub version : String
  pub week_used : Option F
  pub tool_uses : ℕ
  pub denials : ℕ
  pub denied_inputs : List String
  pub texts : List String
  pub ended : Bool
  pub ended_by : String
  pub claimed_done : Bool
  pub cost_usd : Option F
  pub input_tokens : Option ℤ
  pub output_tokens : Option ℤ
  pub cache_read : Option ℤ
  pub cache_write : Option ℤ
  pub duration_ms : Option ℤ

abbrev pub select_new : List String → List String → List String
select_new seen [] = []
select_new seen (x ∷ xs) =
    let rest = select_new seen xs in
    let more = select_new (x ∷ seen) xs in if (x =s= "") || contains x seen then rest else x ∷ more

abbrev pub insert_text : String → List String → List String
insert_text x [] = x ∷ []
insert_text x (y ∷ ys) =
    let rest = insert_text x ys in if is_le (compare x y) then x ∷ y ∷ ys else y ∷ rest

-- sort.Strings
unfoldable pub sort_texts : List String → List String
sort_texts [] = []
sort_texts (x ∷ xs) = insert_text x (sort_texts xs)

-- `uniq`
unfoldable pub uniq : List String → List String
unfolding sort_texts
uniq xs = sort_texts (select_new [] xs)

abbrev solution_line_min : ℕ
solution_line_min = 24

abbrev min_probe_line : ℕ
min_probe_line = 16

abbrev is_file_line : String → Bool
is_file_line l = has_prefix l "+++" || has_prefix l "---"

-- The lines of a diff that are removed.
abbrev pub removed_lines : List String → List String
unfolding trim_space
removed_lines [] = []
removed_lines (l ∷ ls) =
    let rest = removed_lines ls in
    if not (is_file_line l) && has_prefix l "-" then trim_space (tail_text l) ∷ rest else rest

-- The long lines that it adds.
abbrev pub added_lines : List String → List String
added_lines [] = []
added_lines (l ∷ ls) =
    let rest = added_lines ls in
    let t = trim_space (tail_text l) in
    if not (is_file_line l) && (has_prefix l "+" && leb solution_line_min (byte_length t))
    then t ∷ rest
    else rest

abbrev pub select_out : List String → List String → List String
select_out removed [] = []
select_out removed (l ∷ ls) =
    let rest = select_out removed ls in if contains l removed then rest else l ∷ rest

-- `answerLines`
unfoldable pub answer_lines : String → List String
unfolding uniq split_on
answer_lines diff =
    let ls = split_on 10 diff in select_out (removed_lines ls) (uniq (added_lines ls))

-- `ProbeReading` without what `probe` adds: the day of the pinned clock and the cost.
pub record ProbeReading : Type 0 where
  pub check_lines : ℕ
  pub lines_seen : ℕ
  pub denials : ℕ
  pub attempts : ℕ
  pub seen : List ℕ
  pub diff_lines : ℕ
  pub diff_seen : ℕ
  pub token_seen : Bool
  pub clock_seen : String

-- The loop over the lines of check.sh, from a line number: how many count, and which are seen.
abbrev pub check_scan : String → ℕ → List String → ℕ × List ℕ
check_scan text i [] = (0, [])
check_scan text i (l ∷ ls) =
    let rest = check_scan text (i + 1) ls in
    let t = trim_space l in
    if ltb (byte_length t) min_probe_line
    then rest
    else if includes text t
    then (rest.0 + 1, i ∷ rest.1)
    else (rest.0 + 1, rest.1)

abbrev pub count_seen : String → List String → ℕ
count_seen text [] = 0
count_seen text (l ∷ ls) =
    let rest = count_seen text ls in if includes text l then rest + 1 else rest

-- `\S` of RE2
abbrev is_visible : ℕ → Bool
is_visible c = not ((c == 9) || ((c == 10) || ((c == 12) || ((c == 13) || (c == 32)))))

abbrev take_visible : String → String
take_visible String.[] = ""
take_visible (String.◌∷◌ c s) =
    let rest = take_visible s in if is_visible (code c) then String.◌∷◌ c rest else ""

abbrev is_digit : ℕ → Bool
is_digit c = leb 48 c && leb c 57

-- The pattern of a date and what follows it, without spaces: the text itself if it begins so.
abbrev match_instant : List (ℕ → Bool) → String → Option String
match_instant [] s = some (take_visible s)
match_instant (p ∷ ps) String.[] = none
match_instant (p ∷ ps) (String.◌∷◌ c s) =
    let rest = match_instant ps s in
    if p (code c) then (elim rest [ none ↦ none | some t ↦ some (String.◌∷◌ c t) ]) else none

abbrev instant : List (ℕ → Bool)
instant =
    is_digit
    ∷ is_digit
    ∷ is_digit
    ∷ is_digit
    ∷ (λ c. c == 45)
    ∷ is_digit
    ∷ is_digit
    ∷ (λ c. c == 45)
    ∷ is_digit
    ∷ is_digit
    ∷ (λ c. c == 84)
    ∷ is_visible
    ∷ []

abbrev drop_text : ℕ → String → String
drop_text ℕ.zero s = s
drop_text (ℕ.suc n) String.[] = ""
drop_text (ℕ.suc n) (String.◌∷◌ c s) = drop_text n s

abbrev or_else : Option String → Option String → Option String
or_else none o = o
or_else (some t) o = some t

-- The first match of `clockSeenRe`, its group.
abbrev pub find_clock : String → Option String
find_clock String.[] = none
find_clock (String.◌∷◌ c s) =
    let rest = find_clock s in
    let here = String.◌∷◌ c s in
    if has_prefix here "clock="
    then or_else (match_instant instant (drop_text 6 here)) rest
    else rest

abbrev or_empty : Option String → String
or_empty none = ""
or_empty (some t) = t

-- `judgeProbe`
unfoldable pub judge_probe : {F : Type 0} → String → List String → String → Reading F → ProbeReading
unfolding split_on trim_space
judge_probe check answer token st =
    let text = join_text "\n" st.texts in
    let scanned = check_scan text 1 (split_on 10 check) in
    record {
      check_lines = scanned.0;
      lines_seen = length scanned.1;
      denials = st.denials;
      attempts = st.tool_uses;
      seen = scanned.1;
      diff_lines = length answer;
      diff_seen = count_seen text answer;
      token_seen = not (token =s= "") && includes text token;
      clock_seen = or_empty (find_clock text);
    }

abbrev is_day_seen : ProbeReading → Option String → Bool
is_day_seen r none = false
is_day_seen r (some day) = has_prefix r.clock_seen day

-- `proven`, given the UTC day of the pinned clock, none for the zero time.
unfoldable pub proven : ProbeReading → Option String → Bool
proven r day =
    ltb 0 r.check_lines
    && ((r.lines_seen == 0)
        && ((r.diff_seen == 0)
            && (not r.token_seen && (ltb 0 r.attempts && (ltb 0 r.denials && is_day_seen r day)))))

-- What `probe` names of the session, the arm and the task.
pub record Probing : Type 0 where
  pub corpus : String
  pub task : String
  pub arm : String
  pub model : String
  pub run : String

-- The data of bench.probe, of an isolated worker or of one that is not.
unfoldable pub probe_data :
    {F : Type 0} → Probing → Bool → ProbeReading → Option String → Option F → BenchProbe F
unfolding proven
probe_data p isolated r day cost = record {
  corpus = p.corpus;
  task = p.task;
  arm = p.arm;
  model = p.model;
  isolation = if isolated then "sandbox" else "absent";
  check_lines = r.check_lines;
  lines_seen = r.lines_seen;
  denials = r.denials;
  attempts = r.attempts;
  diff_lines = r.diff_lines;
  diff_seen = r.diff_seen;
  token_seen = r.token_seen;
  proven = isolated && proven r day;
  cost_usd = cost;
  run = p.run;
}

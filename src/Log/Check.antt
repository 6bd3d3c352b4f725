-- ===== src/Log/Check.antt =====
-- src/core/log/event.go, `check`: what makes one event valid, shared by the writer and the reader.
use foliot.Common.{
  ℕ, ◌+◌, String, ℤ, pos, ltb_ℤ, ◌==ℤ◌, Bool, true, false, ◌&&◌, ◌||◌, not, Option, none, some,
  List, [], ◌∷◌, leb, ltb, ◌==◌, if◌then◌else◌, ◌=s=◌, codes, contains, lookup, ◌≡◌, refl,
}
use foliot.Log.Event.{Event, Evidence, Row, version, catalogue, evidence_kinds}

-- The errors of `check`, with the values their messages print.
pub data CheckError : Type 0 where
  wrong_version : ℤ → CheckError
  unknown_type : CheckError
  seq_not_positive : ℤ → CheckError
  wrong_actor : String → String → String → CheckError
  bad_task : String → CheckError
  attempt_not_positive : ℤ → CheckError
  bad_cause : ℤ → CheckError
  null_evidence : CheckError
  bad_evidence_kind : String → CheckError
  bad_evidence_ref : CheckError
  not_an_object : CheckError
  missing_field : String → String → CheckError

is_slug_char : ℕ → Bool
is_slug_char c = (leb b'a' c && leb c b'z') || (leb b'0' c && leb c b'9')

-- The part read so far of a segment has `n` characters; `many` says that a segment stands before it.
slug_from : Bool → ℕ → List ℕ → Bool
unfolding is_slug_char
slug_from many n [] = many && (n == 2)
slug_from many n (c ∷ cs) =
    slug_from (many || (c == b'-')) (if c == b'-' then 0 else n + 1) cs
    && (if c == b'-' then ltb 0 n else is_slug_char c)

-- `taskID`: ^[a-z0-9]+(-[a-z0-9]+)*-[a-z0-9]{2}$
unfoldable pub is_task_id : String → Bool
unfolding slug_from
is_task_id s = slug_from false 0 (codes s)

-- The first required field that is not a key of the data.
first_missing : List String → List String → Option String
first_missing keys [] = none
first_missing keys (f ∷ fs) = if contains f keys then first_missing keys fs else some f

has_line_break : List ℕ → Bool
has_line_break [] = false
has_line_break (c ∷ cs) = (c == 13 || c == 10) || has_line_break cs

-- The loop over the evidence: the first pointer that is refused.
check_evidence : List Evidence → Option CheckError
unfolding has_line_break
check_evidence [] = none
check_evidence (ev ∷ evs) =
    let rest = check_evidence evs in
    if not (contains ev.kind evidence_kinds)
    then some (bad_evidence_kind ev.kind)
    else if (ev.ref =s= "") || has_line_break (codes ev.ref)
    then some bad_evidence_ref
    else rest

-- The tests on the data, after those on the envelope.
check_data : String → List String → Option (List String) → Option CheckError
check_data typ required none = some not_an_object
check_data typ required (some keys) = elim (first_missing keys required) [
  | none ↦ none
  | some f ↦ some (missing_field typ f)
]

abbrev bad_task_id : Option String → Option CheckError
bad_task_id none = none
bad_task_id (some t) = if is_task_id t then none else some (bad_task t)

abbrev bad_attempt : Option ℤ → Option CheckError
bad_attempt none = none
bad_attempt (some a) = if ltb_ℤ a (pos 1) then some (attempt_not_positive a) else none

abbrev bad_cause_of : Option ℤ → ℤ → Option CheckError
bad_cause_of none seq = none
bad_cause_of (some c) seq =
    if ltb_ℤ c (pos 1) || not (ltb_ℤ c seq) then some (bad_cause c) else none

abbrev bad_evidence : Option (List Evidence) → Option CheckError
bad_evidence none = some null_evidence
bad_evidence (some evs) = check_evidence evs

-- `if err := a; err != nil { return err }; return b`
abbrev or_else : Option CheckError → Option CheckError → Option CheckError
or_else none b = b
or_else (some e) b = some e

module _ {Raw : Type 0} where
  -- The tests that come after the catalogue's row is found.
  check_row : (Raw → Option (List String)) → Event Raw → Row → Option CheckError
  unfolding check_evidence check_data first_missing is_task_id
  check_row keys e c =
      if ltb_ℤ e.seq (pos 1)
      then some (seq_not_positive e.seq)
      else if not (e.actor =s= c.actor)
      then some (wrong_actor e.typ c.actor e.actor)
      else or_else (bad_task_id e.task) (
          or_else (bad_attempt e.attempt) (
            or_else (bad_cause_of e.cause e.seq)
              (or_else (bad_evidence e.evidence) (check_data e.typ c.required (keys e.payload)))))

  -- `check`: none is nil. `keys` is the data read as an object's keys, none if it is no object.
  unfoldable pub check : (Raw → Option (List String)) → Event Raw → Option CheckError
  unfolding check_row
  check keys e =
      if not (e.v ==ℤ version)
      then some (wrong_version e.v)
      else elim (lookup e.typ catalogue) [ none ↦ some unknown_type | some c ↦ check_row keys e c ]

slug_test : is_task_id "fix-log-a1" ≡ true
unfolding is_task_id
slug_test = refl

slug_test_long : is_task_id "fix-log-a12" ≡ false
unfolding is_task_id
slug_test_long = refl

slug_test_short : is_task_id "a1" ≡ false
unfolding is_task_id
slug_test_short = refl

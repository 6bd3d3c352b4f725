-- ===== src/Log/Scan.antt =====
-- src/core/log/scan.go: reading a whole log.
pub mod Lines
pub mod Position
pub mod Refines
pub mod Whole
pub mod Extend
pub mod Accounts
use foliot.Common.{
  ℕ, ◌+◌, ◌-◌, String, ℤ, pos, ltb_ℤ, ◌==ℤ◌, Bool, true, false, not, Option, none, some, List, [],
  ◌∷◌, ◌++◌, ◌||◌, length, if◌then◌else◌, ◌=s=◌,
}
use foliot.Log.Event.{Event, version}
use foliot.Log.Check.{CheckError, unknown_type, check}
use foliot.Log.Json.{
  Json, Reason, unparseable, no_positive_seq, misplaced, refused, Decoded, malformed, decoded,
}

-- A line the fold cannot use. Its seq is attributed by position.
pub record BadLine : Type 0 where
  pub seq : ℕ
  pub reason : Reason

-- `quarantined` lists the keys of the map.
pub record Scanned (Raw Byte : Type 0) : Type 0 where
  pub events : List (Event Raw)
  pub bad : List BadLine
  pub quarantined : List ℤ
  pub last_seq : ℕ
  pub end : ℕ
  pub torn : List Byte

-- `VerifyError` of a scan: the seq it concerns, and what its text prints.
pub data ScanError : Type 0 where
  newer_version : ℤ → ℤ → ScanError
  out_of_order : ℕ → ℤ → ℕ → ℕ → ScanError

pub data Result {ℓ} (A : Type ℓ) : Type ℓ where
  ok : A → Result A
  err : ScanError → Result A

-- A complete line: with a usable seq, or the reason it has none.
pub data Line (Raw : Type 0) : Type 0 where
  unusable : Reason → Line Raw
  usable : Event Raw → Line Raw

-- The complete lines, each with its newline, and the bytes after the last newline.
abbrev push_byte {ℓ} : {B : Type ℓ} → B → List (List B) × List B → List (List B) × List B
push_byte b ([], torn) = ([], b ∷ torn)
push_byte b (l ∷ ls, torn) = ((b ∷ l) ∷ ls, torn)

unfoldable pub split {ℓ} : {B : Type ℓ} → (B → Bool) → List B → List (List B) × List B
split nl [] = ([], [])
split nl (b ∷ bs) =
    let rest = split nl bs in if nl b then ((b ∷ []) ∷ rest.0, rest.1) else push_byte b rest

abbrev pub classify_event : {Raw : Type 0} → Decoded Raw → Line Raw
classify_event (malformed text) = unusable (unparseable text)
classify_event (decoded e) = if ltb_ℤ e.seq (pos 1) then unusable no_positive_seq else usable e

abbrev pub contains_seq : ℤ → List ℤ → Bool
contains_seq s [] = false
contains_seq s (t ∷ ts) = (t ==ℤ s) || contains_seq s ts

-- The bad lines that no log.quarantined event names yet.
abbrev pub select_unrecorded : List ℤ → List BadLine → List BadLine
select_unrecorded named [] = []
select_unrecorded named (b ∷ bs) =
    let rest = select_unrecorded named bs in
    if contains_seq (pos b.seq) named then rest else b ∷ rest

-- The lookahead: the next usable line sits exactly where position says.
unfoldable pub confirmed : {Raw : Type 0} → ℕ → List (Line Raw) → Bool
confirmed want [] = false
confirmed want (unusable r ∷ ls) = confirmed (want + 1) ls
confirmed want (usable e ∷ ls) = e.seq ==ℤ pos (want + 1)

module _ (j : Json) where
  abbrev pub Log : Type 0
  Log = Scanned j.Raw j.Byte

  -- The first loop: json.Unmarshal of each line.
  abbrev pub classify : List (List j.Byte) → List (Line j.Raw)
  classify [] = []
  classify (raw ∷ raws) = classify_event (j.decode raw) ∷ classify raws

  unfoldable pub flush : List Reason → Log → Log
  flush [] s = s
  flush (r ∷ rs) s =
      let seq = s.last_seq + 1 in
      flush rs (record s { last_seq = seq; bad = s.bad ++ record { seq = seq; reason = r } ∷ [] })

  abbrev pub names_seq : Option ℤ → List ℤ
  names_seq none = []
  names_seq (some q) = q ∷ []

  -- The last switch of the loop, on what `check` says of a line that is in its place.
  abbrev pub judge : Event j.Raw → ℕ → Option CheckError → Log → Log
  judge e want none s = record s {
    events = s.events ++ e ∷ [];
    quarantined =
        if e.typ =s= "log.quarantined"
        then s.quarantined ++ names_seq (j.seq_of e.payload)
        else s.quarantined;
  }
  judge e want (some unknown_type) s = s
  judge e want (some c) s = record s {
    bad = s.bad ++ record { seq = want; reason = refused c } ∷ [];
  }

  -- A line in its place: flush, take its seq (which is `want`), and check it.
  unfoldable pub accept : Event j.Raw → ℕ → List Reason → Log → Log
  unfolding flush check
  accept e want unreadable s =
      judge e want (check j.keys e) (let t = flush unreadable s in record t { last_seq = want })

  -- One round of the second loop. Its variables are the state and the reasons not yet flushed.
  abbrev pub Vars : Type 0
  Vars = Log × List Reason

  unfoldable pub step : Line j.Raw → List (Line j.Raw) → Vars → Result Vars
  unfolding accept confirmed
  step (unusable r) ls (s, unreadable) = ok (s, unreadable ++ r ∷ [])
  step (usable e) ls (s, unreadable) =
      let want = s.last_seq + 1 + length unreadable in
      if ltb_ℤ version e.v
      then err (newer_version e.seq e.v)
      else if not (e.seq ==ℤ pos want)
      then if confirmed want ls
        then ok (s, unreadable ++ misplaced e.seq want ∷ [])
        else err (out_of_order want e.seq s.last_seq (length unreadable))
      else ok (accept e want unreadable s, [])

  unfoldable pub scan_lines : List (Line j.Raw) → Vars → Result Log
  unfolding flush
  scan_lines [] (s, unreadable) = ok (flush unreadable s)
  scan_lines (l ∷ ls) vars = elim (step l ls vars) [
    | err e ↦ err e
    | ok vars' ↦ scan_lines ls vars'
  ]

  unfoldable pub scan : List j.Byte → Result Log
  unfolding split scan_lines step
  scan file =
      let parts = split j.is_newline file in
      let start : Log = record {
        events = [];
        bad = [];
        quarantined = [];
        last_seq = 0;
        end = length file - length parts.1;
        torn = parts.1;
      } in
      scan_lines (classify parts.0) (start, [])

  abbrev pub unrecorded : Log → List BadLine
  unrecorded s = select_unrecorded s.quarantined s.bad

  -- `Read`: the events with a seq of at least `from`. The loop returns the suffix that begins at the
  -- first such event.
  abbrev suffix_from : ℤ → List (Event j.Raw) → List (Event j.Raw)
  suffix_from from [] = []
  suffix_from from (e ∷ es) =
      let rest = suffix_from from es in if ltb_ℤ e.seq from then rest else e ∷ es

  abbrev read_from : ℤ → Result Log → Result (List (Event j.Raw))
  read_from from (err e) = err e
  read_from from (ok s) = ok (suffix_from from s.events)

  unfoldable pub read_events : List j.Byte → ℤ → Result (List (Event j.Raw))
  unfolding scan
  read_events file from = read_from from (scan file)

-- The errors of `Verify`.
pub data VerifyError : Type 0 where
  unscannable : ScanError → VerifyError
  not_quarantined : BadLine → VerifyError
  torn_line : ℕ → ℕ → VerifyError

module _ (j : Json) where
  abbrev verify_torn : Log j → List j.Byte → Option VerifyError
  verify_torn s [] = none
  verify_torn s (b ∷ bs) = some (torn_line (s.last_seq + 1) (length (b ∷ bs)))

  abbrev verify_bad : Log j → List BadLine → Option VerifyError
  verify_bad s [] = verify_torn s s.torn
  verify_bad s (b ∷ bs) = some (not_quarantined b)

  abbrev verify_scan : Result (Log j) → Option VerifyError
  verify_scan (err e) = some (unscannable e)
  verify_scan (ok s) = verify_bad s (unrecorded j s)

  -- `Verify` over the file's bytes: none is nil.
  unfoldable pub verify : List j.Byte → Option VerifyError
  unfolding scan
  verify file = verify_scan (scan j file)

-- ===== src/Log/Scan/Position.antt =====
-- An independent reading of a log by position: the line at position i is the event of seq i, or it
-- is a bad line of seq i, or it has a type that the reader skips.
use foliot.Common.{
  ℕ, pos, ltb_ℤ, ◌==ℤ◌, ℤ, Bool, true, not, ◌&&◌, ◌||◌, Option, none, some, List, [], ◌∷◌, ◌++◌,
  if◌then◌else◌, ◌=s=◌, suc,
}
use foliot.Log.Event.{Event, version}
use foliot.Log.Check.{CheckError, unknown_type, check}
use foliot.Log.Json.{Json, misplaced, refused}
use foliot.Log.Scan.{BadLine, Line, unusable, usable, confirmed, names_seq}

module _ (j : Json) where
  -- `i` lines stand before the first of the list, so its position is i + 1.
  -- A log fits when no usable line is newer than this binary, and each usable line is in its place
  -- or shown to be corrupt by the next usable line.
  unfoldable pub fits : ℕ → List (Line j.Raw) → Bool
  fits i [] = true
  fits i (unusable r ∷ ls) = fits (suc i) ls
  fits i (usable e ∷ ls) =
      (not (ltb_ℤ version e.v) && ((e.seq ==ℤ pos (suc i)) || confirmed (suc i) ls))
      && fits (suc i) ls

  abbrev pub events_of : Event j.Raw → Option CheckError → List (Event j.Raw)
  events_of e none = e ∷ []
  events_of e (some c) = []

  abbrev pub bad_of : ℕ → Option CheckError → List BadLine
  bad_of p none = []
  bad_of p (some unknown_type) = []
  bad_of p (some c) = record { seq = p; reason = refused c } ∷ []

  abbrev pub named_of : Event j.Raw → Option CheckError → List ℤ
  named_of e none = if e.typ =s= "log.quarantined" then names_seq j (j.seq_of e.payload) else []
  named_of e (some c) = []

  unfoldable pub events_at : ℕ → List (Line j.Raw) → List (Event j.Raw)
  events_at i [] = []
  events_at i (unusable r ∷ ls) = events_at (suc i) ls
  events_at i (usable e ∷ ls) =
      (if e.seq ==ℤ pos (suc i) then events_of e (check j.keys e) else []) ++ events_at (suc i) ls

  unfoldable pub bad_at : ℕ → List (Line j.Raw) → List BadLine
  bad_at i [] = []
  bad_at i (unusable r ∷ ls) = record { seq = suc i; reason = r } ∷ bad_at (suc i) ls
  bad_at i (usable e ∷ ls) =
      (if e.seq ==ℤ pos (suc i)
        then bad_of (suc i) (check j.keys e)
        else record { seq = suc i; reason = misplaced e.seq (suc i) } ∷ [])
      ++ bad_at (suc i) ls

  unfoldable pub named_at : ℕ → List (Line j.Raw) → List ℤ
  named_at i [] = []
  named_at i (unusable r ∷ ls) = named_at (suc i) ls
  named_at i (usable e ∷ ls) =
      (if e.seq ==ℤ pos (suc i) then named_of e (check j.keys e) else []) ++ named_at (suc i) ls

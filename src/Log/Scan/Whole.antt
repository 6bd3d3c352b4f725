-- ===== src/Log/Scan/Whole.antt =====
-- `scan` of a whole file against the reading by position (src/core/log/scan.go).
use foliot.Common.{
  ◌-◌, ◌≡◌, ◌↔◌, inl, inr, refl, sym, ap, ◌∙◌, true, false, List, [], length, arith, Bool-cases,
}
use foliot.Log.Json.{Json}
use foliot.Log.Scan.{Line, ScanError, ok, err, Log, scan, split, classify}
use foliot.Log.Scan.Position.{fits, events_at, bad_at, named_at}
use foliot.Log.Scan.Refines.{pending, read, same_fields, scan_lines-read, scan_lines-err}

ok_inj : {A : Type 0} {a b : A} → ok a ≡ ok b → a ≡ b
ok_inj h = cc

ok≢err : {A : Type 0} {a : A} {x : ScanError} → ¬ (ok a ≡ err x)
ok≢err h = cc

module _ (j : Json) where
  -- The classified lines of a file.
  abbrev pub lines : List j.Byte → List (Line j.Raw)
  lines file = classify j (split j.is_newline file).0

  -- The reading by position of a whole file.
  abbrev pub positional : List j.Byte → Log j
  positional file = record {
    events = events_at j 0 (lines file);
    bad = bad_at j 0 (lines file);
    quarantined = named_at j 0 (lines file);
    last_seq = length (lines file);
    end = length file - length (split j.is_newline file).1;
    torn = (split j.is_newline file).1;
  }

  -- If every usable line of a file has a version that this binary reads and is in its place, or is
  -- shown to be corrupt by the next usable line, the scan succeeds with the reading by position:
  -- the line at position i gives the event of seq i if it passes `check`, else the bad line of seq i
  -- (or nothing, for an unknown type); the last seq is the number of complete lines.
  pub scan-positional :
      (file : List j.Byte) → fits j 0 (lines file) ≡ true → scan j file ≡ ok (positional file)
  unfolding scan read pending
  scan-positional file h =
      scan_lines-read j (lines file) 0 _ [] refl h
      ∙ ap ok (same_fields j _ _ refl refl refl (omega arith) refl refl)

  -- The scan fails exactly on the files that do not fit so.
  pub scan_fails_iff :
      (file : List j.Byte)
      → (fits j 0 (lines file) ≡ false) ↔ ((x : ScanError) × (scan j file ≡ err x))
  scan_fails_iff file = (
    λ h. unfold scan in scan_lines-err j (lines file) 0 _ [] refl h,
    λ (x, e). elim (Bool-cases (fits j 0 (lines file))) [
      | inl t ↦ absurd (ok≢err (sym (scan-positional file t) ∙ e))
      | inr f ↦ f
    ],
  )

  -- A scan that succeeds gives the reading by position.
  pub scan-ok :
      (file : List j.Byte) (s : Log j)
      → scan j file ≡ ok s
      → (fits j 0 (lines file) ≡ true) × (s ≡ positional file)
  scan-ok file s h = elim (Bool-cases (fits j 0 (lines file))) [
    | inl t ↦ (t, ok_inj (sym h ∙ scan-positional file t))
    | inr f ↦ (let (x, e) = (scan_fails_iff file).0 f in absurd (ok≢err (sym h ∙ e)))
  ]

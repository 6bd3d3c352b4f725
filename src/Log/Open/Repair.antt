-- ===== src/Log/Open/Repair.antt =====
-- The bytes of a repaired log (src/core/log/log.go, `repair`).
use foliot.Common.{◌≡◌, ◌⊎◌, inl, inr, refl, true, arith, ◌&&◌, List, ◌∷◌, ◌++◌, Bool-cases, take}
use foliot.Log.Json.{Json}
use foliot.Log.Scan.{Scanned, ok, scan}
use foliot.Log.Scan.Lines.{flatten-split, take-end}
use foliot.Log.Scan.Whole.{positional, scan-ok}
use foliot.Log.Open.{Home, OpenIo, repair, copied}

module _ (j : Json) where
  -- The log is as it was, or its torn tail was cut and the whole tail is in the newest moved file.
  abbrev pub Kept : OpenIo → List j.Byte → Home j.Byte → Home j.Byte → Type 0
  Kept io torn h h' =
      (h'.log ≡ h.log) ⊎ ((h'.log ++ torn ≡ h.log) × (h'.moved ≡ (io.torn_name, torn) ∷ h.moved))

  repair_cases :
      (io : OpenIo) (h : Home j.Byte) (s : Scanned j.Raw j.Byte)
      → take s.end h.log ++ s.torn ≡ h.log
      → Kept io s.torn h (repair j io s h).0
  unfolding repair
  repair_cases io h s e = elim (Bool-cases io.creates) [
    | inr f ↦ rw f (inl refl)
    | inl t ↦ elim (Bool-cases (copied j io && io.cuts_log)) [
      | inr f ↦ rw (t, f) (inl refl)
      | inl c ↦ (let w : io.writes ≡ true = ground arith in rw (t, c, w) (inr (e, refl)))
    ]
  ]

  -- After a repair of a scanned log, whichever of its calls failed, either the log has every byte
  -- that it had, or only its torn tail was cut off and a moved file holds the whole of that tail.
  pub repair-Kept :
      (io : OpenIo) (h : Home j.Byte) (s : Scanned j.Raw j.Byte)
      → scan j h.log ≡ ok s
      → Kept io s.torn h (repair j io s h).0
  repair-Kept io h s e = rw (scan-ok j h.log s e).1 (
      repair_cases io h (positional j h.log)
        (rw (take-end j.is_newline h.log) (flatten-split j.is_newline h.log)))

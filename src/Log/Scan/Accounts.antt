-- ===== src/Log/Scan/Accounts.antt =====
-- The seqs that a scanned log accounts for (src/core/log/scan.go).
use native.Mathlib.Nat.{zero-add}
use foliot.Common.{
  ℕ, suc, ◌+◌, ◌≤◌, ◌<◌, ◌≡◌, ◌≢◌, refl, sym, ◌∙◌, Bool, true, false, List, [], ◌∷◌, ◌++◌, length,
  Option, none, some, pos, ◌==ℤ◌, ==ℤ_iff, All, arith, if◌then◌else◌,
}
use foliot.Log.Json.{Json, misplaced, refused}
use foliot.Log.Event.{Event}
use foliot.Log.Check.{CheckError, unknown_type, check}
use foliot.Log.Scan.{BadLine, Line, unusable, usable, Scanned, ok, scan}
use foliot.Log.Scan.Position.{events_at, bad_at, events_of, bad_of}
use foliot.Log.Scan.Whole.{lines, scan-ok}

pos-ne : {a b : ℕ} → pos a ≡ pos b → ¬ (a < b)
pos-ne h l = ground arith

module _ (j : Json) where
  -- The events' seqs grow from above `low`, and none passes `high`.
  abbrev pub Rising : ℕ → ℕ → List (Event j.Raw) → Type 0
  Rising low high [] = low ≤ high
  Rising low high (e ∷ es) = (p : ℕ) × (e.seq ≡ pos p) × (low < p) × Rising p high es

  abbrev pub RisingBad : ℕ → ℕ → List BadLine → Type 0
  RisingBad low high [] = low ≤ high
  RisingBad low high (b ∷ bs) = (low < b.seq) × RisingBad b.seq high bs

  Rising-weaken :
      (low low' high : ℕ) (es : List (Event j.Raw))
      → low' ≤ low
      → Rising low high es
      → Rising low' high es
  Rising-weaken low low' high [] h r = omega arith
  Rising-weaken low low' high (e ∷ es) h (p, q, l, r) = (p, q, omega arith, r)

  RisingBad-weaken :
      (low low' high : ℕ) (bs : List BadLine)
      → low' ≤ low
      → RisingBad low high bs
      → RisingBad low' high bs
  RisingBad-weaken low low' high [] h r = omega arith
  RisingBad-weaken low low' high (b ∷ bs) h (l, r) = (omega arith, r)

  Rising-events_of :
      (e : Event j.Raw) (i high : ℕ) (c : Option CheckError) (b : Bool) (es : List (Event j.Raw))
      → (b ≡ true → e.seq ≡ pos (suc i))
      → Rising (suc i) high es
      → Rising i high ((if b then events_of j e c else []) ++ es)
  Rising-events_of e i high none true es s r = (suc i, s refl, omega arith, r)
  Rising-events_of e i high (some c) true es s r = Rising-weaken (suc i) i high es (omega arith) r
  Rising-events_of e i high c false es s r = Rising-weaken (suc i) i high es (omega arith) r

  Rising-events_at : (i : ℕ) (ls : List (Line j.Raw)) → Rising i (i + length ls) (events_at j i ls)
  unfolding events_at
  Rising-events_at i [] = omega arith
  Rising-events_at i (unusable r ∷ ls) =
      let n : i + suc (length ls) ≡ suc i + length ls = omega arith in
      rw n (Rising-weaken (suc i) i _ _ (omega arith) (Rising-events_at (suc i) ls))
  Rising-events_at i (usable e ∷ ls) =
      let n : i + suc (length ls) ≡ suc i + length ls = omega arith in
      rw n (
        Rising-events_of e i _ (check j.keys e) (e.seq ==ℤ pos (suc i)) _ (==ℤ_iff _ _).0
          (Rising-events_at (suc i) ls))

  -- The bad lines' seqs stand apart from those of the events.
  abbrev pub Apart : List (Event j.Raw) → List BadLine → Type 0
  Apart es bs = All (λ e. All (λ b. e.seq ≢ pos b.seq) bs) es

  RisingBad-bad_of :
      (e : Event j.Raw) (i high : ℕ) (c : Option CheckError) (b : Bool) (bs : List BadLine)
      → RisingBad (suc i) high bs
      → RisingBad i high (
          (if b
            then bad_of j (suc i) c
            else record { seq = suc i; reason = misplaced e.seq (suc i) } ∷ [])
          ++ bs)
  RisingBad-bad_of e i high c false bs r = (omega arith, r)
  RisingBad-bad_of e i high none true bs r = RisingBad-weaken (suc i) i high bs (omega arith) r
  RisingBad-bad_of e i high (some unknown_type) true bs r =
      RisingBad-weaken (suc i) i high bs (omega arith) r
  RisingBad-bad_of e i high (some _) true bs r = (omega arith, r)

  RisingBad-bad_at : (i : ℕ) (ls : List (Line j.Raw)) → RisingBad i (i + length ls) (bad_at j i ls)
  unfolding bad_at
  RisingBad-bad_at i [] = omega arith
  RisingBad-bad_at i (unusable r ∷ ls) =
      let n : i + suc (length ls) ≡ suc i + length ls = omega arith in
      rw n (omega arith, RisingBad-bad_at (suc i) ls)
  RisingBad-bad_at i (usable e ∷ ls) =
      let n : i + suc (length ls) ≡ suc i + length ls = omega arith in
      rw n (
        RisingBad-bad_of e i _ (check j.keys e) (e.seq ==ℤ pos (suc i)) _
          (RisingBad-bad_at (suc i) ls))

  -- A seq above those of a rising list is none of them.
  bad_above :
      (e : Event j.Raw) (p low high : ℕ) (bs : List BadLine)
      → e.seq ≡ pos p
      → p ≤ low
      → RisingBad low high bs
      → All (λ b. e.seq ≢ pos b.seq) bs
  bad_above e p low high [] q h r = tt
  bad_above e p low high (b ∷ bs) q h (l, r) =
      (λ x. pos-ne (sym q ∙ x) (omega arith), bad_above e p b.seq high bs q (omega arith) r)

  events_above :
      (b : BadLine) (low high : ℕ) (es : List (Event j.Raw))
      → b.seq ≤ low
      → Rising low high es
      → All (λ e. e.seq ≢ pos b.seq) es
  events_above b low high [] h r = tt
  events_above b low high (e ∷ es) h (p, q, l, r) =
      (λ x. pos-ne (sym x ∙ q) (omega arith), events_above b p high es (omega arith) r)

  Apart-cons :
      (b : BadLine) (es : List (Event j.Raw)) (bs : List BadLine)
      → All (λ e. e.seq ≢ pos b.seq) es
      → Apart es bs
      → Apart es (b ∷ bs)
  Apart-cons b [] bs h a = tt
  Apart-cons b (e ∷ es) bs h a = ((h.0, a.0), Apart-cons b es bs h.1 a.1)

  Apart-line :
      (e : Event j.Raw) (i high : ℕ) (c : Option CheckError) (b : Bool) (es : List (Event j.Raw))
      (bs : List BadLine)
      → (b ≡ true → e.seq ≡ pos (suc i))
      → Rising (suc i) high es
      → RisingBad (suc i) high bs
      → Apart es bs
      → Apart ((if b then events_of j e c else []) ++ es) (
          (if b
            then bad_of j (suc i) c
            else record { seq = suc i; reason = misplaced e.seq (suc i) } ∷ [])
          ++ bs)
  Apart-line e i high none true es bs s r q a =
      (bad_above e (suc i) (suc i) high bs (s refl) (omega arith) q, a)
  Apart-line e i high (some unknown_type) true es bs s r q a = a
  Apart-line e i high (some c) true es bs s r q a =
      let b : BadLine = record { seq = suc i; reason = refused c } in
      Apart-cons b es bs (events_above b (suc i) high es (omega arith) r) a
  Apart-line e i high c false es bs s r q a =
      let b : BadLine = record { seq = suc i; reason = misplaced e.seq (suc i) } in
      Apart-cons b es bs (events_above b (suc i) high es (omega arith) r) a

  Apart-at : (i : ℕ) (ls : List (Line j.Raw)) → Apart (events_at j i ls) (bad_at j i ls)
  unfolding events_at bad_at
  Apart-at i [] = tt
  Apart-at i (unusable r ∷ ls) =
      let b : BadLine = record { seq = suc i; reason = r } in
      Apart-cons b _ _ (events_above b (suc i) _ _ (omega arith) (Rising-events_at (suc i) ls))
        (Apart-at (suc i) ls)
  Apart-at i (usable e ∷ ls) =
      Apart-line e i _ (check j.keys e) (e.seq ==ℤ pos (suc i)) _ _ (==ℤ_iff _ _).0
        (Rising-events_at (suc i) ls) (RisingBad-bad_at (suc i) ls) (Apart-at (suc i) ls)

  -- In a scanned log the seqs of the events, and those of the bad lines, grow strictly from 1 and do
  -- not pass the last seq, which is the number of complete lines, and no bad line has the seq of an
  -- event.
  pub scan-Apart :
      (file : List j.Byte) (s : Scanned j.Raw j.Byte)
      → scan j file ≡ ok s
      → (s.last_seq ≡ length (lines j file))
        × Rising 0 s.last_seq s.events
        × RisingBad 0 s.last_seq s.bad
        × Apart s.events s.bad
  scan-Apart file s h = rw (scan-ok j file s h).1 (
    refl,
    rw zero-add at (Rising-events_at 0 (lines j file)),
    rw zero-add at (RisingBad-bad_at 0 (lines j file)),
    Apart-at 0 (lines j file),
  )

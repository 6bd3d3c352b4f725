-- ===== src/Log/Scan/Refines.antt =====
-- The second loop of `scan` against the reading by position.
use mathlib.Core.List.{append-nil, append_assoc}
use foliot.Common.{
  ℕ, ◌+◌, ◌≡◌, ◌⊎◌, inl, inr, refl, sym, ap, ◌∙◌, pos, ltb_ℤ, ◌==ℤ◌, Bool, true, false, Option,
  none, some, List, [], ◌∷◌, ◌++◌, if◌then◌else◌, ◌=s=◌, suc, length, arith, length-append,
}
use foliot.Log.Event.{Event, version}
use foliot.Log.Check.{CheckError, unknown_type}
use foliot.Log.Json.{Json, Reason, misplaced}
use foliot.Log.Scan.{
  BadLine, Line, unusable, usable, confirmed, ScanError, newer_version, out_of_order, ok, err, Log,
  Vars, names_seq, flush, accept, judge, step, scan_lines,
}
use foliot.Log.Scan.Position.{fits, events_at, bad_at, named_at, events_of, bad_of, named_of}

-- The bad lines that `flush` adds after `n`.
unfoldable pub pending : ℕ → List Reason → List BadLine
pending n [] = []
pending n (r ∷ rs) = record { seq = n + 1; reason = r } ∷ pending (n + 1) rs

pending-append :
    (n : ℕ) (rs : List Reason) (r : Reason)
    → pending n (rs ++ r ∷ [])
      ≡ pending n rs ++ record { seq = suc (n + length rs); reason = r } ∷ []
unfolding pending
pending-append n [] r = let e : n + 1 ≡ suc (n + 0) = omega arith in rw e
pending-append n (x ∷ rs) r =
    let e : n + 1 + length rs ≡ n + suc (length rs) = omega arith in
    rw (pending-append (n + 1) rs r) (rw e)

append-if {ℓ} :
    {A : Type ℓ} (b : Bool) (xs ys : List A)
    → xs ++ (if b then ys else []) ≡ (if b then xs ++ ys else xs)
append-if true xs ys = refl
append-if false xs ys = append-nil xs

module _ (j : Json) where
  pub same_fields :
      (a b : Log j)
      → a.events ≡ b.events
      → a.bad ≡ b.bad
      → a.quarantined ≡ b.quarantined
      → a.last_seq ≡ b.last_seq
      → a.end ≡ b.end
      → a.torn ≡ b.torn
      → a ≡ b
  same_fields a b p q r s t u = λ i. record {
    events = p i;
    bad = q i;
    quarantined = r i;
    last_seq = s i;
    end = t i;
    torn = u i;
  }

  flush_lem :
      (rs : List Reason) (s : Log j)
      → flush j rs s
        ≡ record s { last_seq = s.last_seq + length rs; bad = s.bad ++ pending s.last_seq rs }
  unfolding flush pending
  flush_lem [] s = same_fields s _ refl (sym (append-nil s.bad)) refl (omega arith) refl refl
  flush_lem (r ∷ rs) s =
      let next = record s {
        last_seq = s.last_seq + 1;
        bad = s.bad ++ record { seq = s.last_seq + 1; reason = r } ∷ [];
      } in
      flush_lem rs next
      ∙ same_fields _ _ refl
          (append_assoc s.bad (record { seq = s.last_seq + 1; reason = r } ∷ [])
            (pending (s.last_seq + 1) rs))
          refl (omega arith) refl refl

  judge_lem :
      (e : Event j.Raw) (want : ℕ) (c : Option CheckError) (s : Log j)
      → judge j e want c s ≡ record s {
        events = s.events ++ events_of j e c;
        bad = s.bad ++ bad_of j want c;
        quarantined = s.quarantined ++ named_of j e c;
      }
  judge_lem e want none s =
      same_fields _ _ refl (sym (append-nil s.bad))
        (sym (
          append-if (e.typ =s= "log.quarantined") s.quarantined (names_seq j (j.seq_of e.payload))))
        refl refl refl
  judge_lem e want (some unknown_type) s = simp append-nil
  judge_lem e want (some _) s = simp append-nil

  -- What the state becomes when `ls` are read after `i` lines.
  unfoldable pub read : ℕ → List (Line j.Raw) → Vars j → Log j
  read i ls (s, u) = record s {
    events = s.events ++ events_at j i ls;
    bad = s.bad ++ (pending s.last_seq u ++ bad_at j i ls);
    quarantined = s.quarantined ++ named_at j i ls;
    last_seq = i + length ls;
  }

  -- A line in its place.
  read-accept :
      (e : Event j.Raw) (ls : List (Line j.Raw)) (i : ℕ) (s : Log j) (u : List Reason)
      → (e.seq ==ℤ pos (suc i)) ≡ true
      → read (suc i) ls (accept j e (suc i) u s, []) ≡ read i (usable e ∷ ls) (s, u)
  unfolding read accept pending events_at bad_at named_at
  read-accept e ls i s u h =
      rw (h, judge_lem, flush_lem)
        (same_fields _ _ (simp append_assoc) (simp append_assoc) (simp append_assoc) (omega arith)
          refl refl)

  -- A line that adds the reason `r` to those not yet flushed.
  read-corrupt :
      (l : Line j.Raw) (r : Reason) (ls : List (Line j.Raw)) (i : ℕ) (s : Log j) (u : List Reason)
      → s.last_seq + length u ≡ i
      → events_at j i (l ∷ ls) ≡ events_at j (suc i) ls
      → bad_at j i (l ∷ ls) ≡ record { seq = suc i; reason = r } ∷ bad_at j (suc i) ls
      → named_at j i (l ∷ ls) ≡ named_at j (suc i) ls
      → read (suc i) ls (s, u ++ r ∷ []) ≡ read i (l ∷ ls) (s, u)
  unfolding read
  read-corrupt l r ls i s u p x y z =
      same_fields _ _ (rw x) (rw (y, pending-append) (rw p (simp append_assoc))) (rw z)
        (omega arith) refl refl

  last_seq-accept :
      (e : Event j.Raw) (i : ℕ) (u : List Reason) (s : Log j) → (accept j e i u s).last_seq ≡ i
  unfolding accept
  last_seq-accept e i u s = rw judge_lem

  step-place :
      (e : Event j.Raw) (ls : List (Line j.Raw)) (i : ℕ) (s : Log j) (u : List Reason)
      → s.last_seq + length u ≡ i
      → ltb_ℤ version e.v ≡ false
      → (e.seq ==ℤ pos (suc i)) ≡ true
      → step j (usable e) ls (s, u) ≡ ok (accept j e (suc i) u s, [])
  unfolding step
  step-place e ls i s u p v h =
      let w : s.last_seq + 1 + length u ≡ suc i = omega arith in rw (w, v, h)

  step-corrupt :
      (e : Event j.Raw) (ls : List (Line j.Raw)) (i : ℕ) (s : Log j) (u : List Reason)
      → s.last_seq + length u ≡ i
      → ltb_ℤ version e.v ≡ false
      → (e.seq ==ℤ pos (suc i)) ≡ false
      → confirmed (suc i) ls ≡ true
      → step j (usable e) ls (s, u) ≡ ok (s, u ++ misplaced e.seq (suc i) ∷ [])
  unfolding step
  step-corrupt e ls i s u p v h c =
      let w : s.last_seq + 1 + length u ≡ suc i = omega arith in rw (w, v, h, c)

  -- How a usable line fits.
  abbrev Fits : Event j.Raw → List (Line j.Raw) → ℕ → Type 0
  Fits e ls i =
      ((e.seq ==ℤ pos (suc i)) ≡ true)
      ⊎ (((e.seq ==ℤ pos (suc i)) ≡ false) × (confirmed (suc i) ls ≡ true))

  fits-usable :
      (e : Event j.Raw) (ls : List (Line j.Raw)) (i : ℕ)
      → fits j i (usable e ∷ ls) ≡ true
      → (ltb_ℤ version e.v ≡ false) × Fits e ls i × (fits j (suc i) ls ≡ true)
  unfolding fits
  fits-usable e ls i h = ground arith

  pub scan_lines-read :
      (ls : List (Line j.Raw)) (i : ℕ) (s : Log j) (u : List Reason)
      → s.last_seq + length u ≡ i
      → fits j i ls ≡ true
      → scan_lines j ls (s, u) ≡ ok (read i ls (s, u))
  unfolding scan_lines read events_at bad_at named_at step
  scan_lines-read [] i s u p h = ap ok (
      flush_lem u s
      ∙ same_fields _ _ (sym (append-nil s.events)) (rw append-nil) (sym (append-nil s.quarantined))
          (omega arith) refl refl)
  scan_lines-read (unusable r ∷ ls) i s u p h =
      scan_lines-read ls (suc i) s (u ++ r ∷ []) (omega (arith, length-append u (r ∷ [])))
        (unfold fits in h)
      ∙ ap ok (read-corrupt (unusable r) r ls i s u p refl refl refl)
  scan_lines-read (usable e ∷ ls) i s u p h =
      let (v, place, rest) = fits-usable e ls i h in
      elim place [
        | inl at ↦ rw (step-place e ls i s u p v at) (
            scan_lines-read ls (suc i) (accept j e (suc i) u s) []
              (omega (arith, last_seq-accept e (suc i) u s)) rest
            ∙ ap ok (read-accept e ls i s u at))
        | inr (off, next) ↦ rw (step-corrupt e ls i s u p v off next) (
            scan_lines-read ls (suc i) s (u ++ misplaced e.seq (suc i) ∷ [])
              (omega (arith, length-append u (misplaced e.seq (suc i) ∷ []))) rest
            ∙ ap ok (
                read-corrupt (usable e) (misplaced e.seq (suc i)) ls i s u p (rw off) (rw off)
                  (rw off)))
      ]

  step-newer :
      (e : Event j.Raw) (ls : List (Line j.Raw)) (s : Log j) (u : List Reason)
      → ltb_ℤ version e.v ≡ true
      → step j (usable e) ls (s, u) ≡ err (newer_version e.seq e.v)
  unfolding step
  step-newer e ls s u v = rw v

  step_out_of_order :
      (e : Event j.Raw) (ls : List (Line j.Raw)) (i : ℕ) (s : Log j) (u : List Reason)
      → s.last_seq + length u ≡ i
      → ltb_ℤ version e.v ≡ false
      → (e.seq ==ℤ pos (suc i)) ≡ false
      → confirmed (suc i) ls ≡ false
      → step j (usable e) ls (s, u) ≡ err (out_of_order (suc i) e.seq s.last_seq (length u))
  unfolding step
  step_out_of_order e ls i s u p v h c =
      let w : s.last_seq + 1 + length u ≡ suc i = omega arith in rw (w, v, h, c)

  -- How a usable line, or what follows it, does not fit.
  abbrev Misfit : Event j.Raw → List (Line j.Raw) → ℕ → Type 0
  Misfit e ls i =
      (ltb_ℤ version e.v ≡ true)
      ⊎ ((ltb_ℤ version e.v ≡ false)
          × ((((e.seq ==ℤ pos (suc i)) ≡ false) × (confirmed (suc i) ls ≡ false))
              ⊎ (Fits e ls i × (fits j (suc i) ls ≡ false))))

  Misfit-usable :
      (e : Event j.Raw) (ls : List (Line j.Raw)) (i : ℕ)
      → fits j i (usable e ∷ ls) ≡ false
      → Misfit e ls i
  unfolding fits
  Misfit-usable e ls i h = ground arith

  abbrev pub Fails : List (Line j.Raw) → Vars j → Type 0
  Fails ls vars = (x : ScanError) × (scan_lines j ls vars ≡ err x)

  pub scan_lines-err :
      (ls : List (Line j.Raw)) (i : ℕ) (s : Log j) (u : List Reason)
      → s.last_seq + length u ≡ i
      → fits j i ls ≡ false
      → Fails ls (s, u)
  unfolding scan_lines step fits
  scan_lines-err [] i s u p h = cc
  scan_lines-err (unusable r ∷ ls) i s u p h =
      scan_lines-err ls (suc i) s (u ++ r ∷ []) (omega (arith, length-append u (r ∷ []))) h
  scan_lines-err (usable e ∷ ls) i s u p h = elim (Misfit-usable e ls i h) [
    | inl v ↦ (newer_version e.seq e.v, rw (step-newer e ls s u v))
    | inr (v, inl (off, c)) ↦ (
      out_of_order (suc i) e.seq s.last_seq (length u),
      rw (step_out_of_order e ls i s u p v off c),
    )
    | inr (v, inr (inl at, rest)) ↦ rw (step-place e ls i s u p v at) (
        scan_lines-err ls (suc i) (accept j e (suc i) u s) []
          (omega (arith, last_seq-accept e (suc i) u s)) rest)
    | inr (v, inr (inr (off, next), rest)) ↦ rw (step-corrupt e ls i s u p v off next) (
        scan_lines-err ls (suc i) s (u ++ misplaced e.seq (suc i) ∷ [])
          (omega (arith, length-append u (misplaced e.seq (suc i) ∷ []))) rest)
  ]

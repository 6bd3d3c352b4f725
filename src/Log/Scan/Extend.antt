-- ===== src/Log/Scan/Extend.antt =====
-- What further lines add to the reading by position.
use mathlib.Core.List.{append_assoc}
use foliot.Common.{ℕ, suc, ◌+◌, ◌≡◌, refl, true, List, [], ◌∷◌, ◌++◌, length, arith}
use foliot.Log.Json.{Json}
use foliot.Log.Scan.{Line, unusable, usable, confirmed, classify}
use foliot.Log.Scan.Position.{fits, events_at, bad_at, named_at}

pub confirmed-append :
    {Raw : Type 0} (want : ℕ) (ls ms : List (Line Raw))
    → confirmed want ls ≡ true
    → confirmed want (ls ++ ms) ≡ true
unfolding confirmed
confirmed-append want [] ms h = cc
confirmed-append want (unusable r ∷ ls) ms h = confirmed-append (want + 1) ls ms h
confirmed-append want (usable e ∷ ls) ms h = h

module _ (j : Json) where
  pub classify-append :
      (xs ys : List (List j.Byte)) → classify j (xs ++ ys) ≡ classify j xs ++ classify j ys
  classify-append [] ys = refl
  classify-append (x ∷ xs) ys = rw (classify-append xs ys)

  -- A log that fits still does when what is added fits.
  pub fits-append :
      (i : ℕ) (ls ms : List (Line j.Raw))
      → fits j i ls ≡ true
      → fits j (i + length ls) ms ≡ true
      → fits j i (ls ++ ms) ≡ true
  unfolding fits
  fits-append i [] ms h k = let e : i + 0 ≡ i = omega arith in rw e at k
  fits-append i (unusable r ∷ ls) ms h k =
      let e : i + suc (length ls) ≡ suc i + length ls = omega arith in
      fits-append (suc i) ls ms h (rw e at k)
  fits-append i (usable e ∷ ls) ms h k =
      let e' : i + suc (length ls) ≡ suc i + length ls = omega arith in
      ground (arith, fits-append (suc i) ls ms, confirmed-append (suc i) ls ms, (rw e' at k))

  pub events_at-append :
      (i : ℕ) (ls ms : List (Line j.Raw))
      → events_at j i (ls ++ ms) ≡ events_at j i ls ++ events_at j (i + length ls) ms
  unfolding events_at
  events_at-append i [] ms = let e : i + 0 ≡ i = omega arith in rw e
  events_at-append i (unusable r ∷ ls) ms =
      let e : i + suc (length ls) ≡ suc i + length ls = omega arith in
      rw e (events_at-append (suc i) ls ms)
  events_at-append i (usable x ∷ ls) ms =
      let e : i + suc (length ls) ≡ suc i + length ls = omega arith in
      rw (e, events_at-append (suc i) ls ms) (simp append_assoc)

  pub bad_at-append :
      (i : ℕ) (ls ms : List (Line j.Raw))
      → bad_at j i (ls ++ ms) ≡ bad_at j i ls ++ bad_at j (i + length ls) ms
  unfolding bad_at
  bad_at-append i [] ms = let e : i + 0 ≡ i = omega arith in rw e
  bad_at-append i (unusable r ∷ ls) ms =
      let e : i + suc (length ls) ≡ suc i + length ls = omega arith in
      rw (e, bad_at-append (suc i) ls ms)
  bad_at-append i (usable x ∷ ls) ms =
      let e : i + suc (length ls) ≡ suc i + length ls = omega arith in
      rw (e, bad_at-append (suc i) ls ms) (simp append_assoc)

  pub named_at-append :
      (i : ℕ) (ls ms : List (Line j.Raw))
      → named_at j i (ls ++ ms) ≡ named_at j i ls ++ named_at j (i + length ls) ms
  unfolding named_at
  named_at-append i [] ms = let e : i + 0 ≡ i = omega arith in rw e
  named_at-append i (unusable r ∷ ls) ms =
      let e : i + suc (length ls) ≡ suc i + length ls = omega arith in
      rw e (named_at-append (suc i) ls ms)
  named_at-append i (usable x ∷ ls) ms =
      let e : i + suc (length ls) ≡ suc i + length ls = omega arith in
      rw (e, named_at-append (suc i) ls ms) (simp append_assoc)

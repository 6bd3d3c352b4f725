-- ===== src/Log/Scan/Lines.antt =====
-- The lines and the torn tail of a file, and of what is appended to it (`split`).
use mathlib.Core.Path.{subst}
use mathlib.Core.List.{flatten}
use foliot.Common.{
  ℕ, ◌-◌, zero, suc, ◌≡◌, refl, ap, ◌∙◌, Bool, true, false, List, [], ◌∷◌, ◌++◌, take, All,
  if◌then◌else◌, length, length-append, take-append, arith,
}
use foliot.Log.Scan.{split, push_byte}

module _ {B : Type 0} (nl : B → Bool) where
  abbrev pub NoNewline : List B → Type 0
  NoNewline = All (λ b. nl b ≡ false)

  pub split-NoNewline : (bs : List B) → NoNewline bs → split nl bs ≡ ([], bs)
  unfolding split
  split-NoNewline [] h = refl
  split-NoNewline (b ∷ bs) h = rw (h.0, split-NoNewline bs h.1)

  pub split_line :
      (bs : List B) (n : B)
      → NoNewline bs
      → nl n ≡ true
      → split nl (bs ++ n ∷ []) ≡ ((bs ++ n ∷ []) ∷ [], [])
  unfolding split
  split_line [] n h t = rw t
  split_line (b ∷ bs) n h t = rw (h.0, split_line bs n h.1 t)

  -- One byte of `split`, on the test `c` of that byte.
  abbrev split_byte : Bool → B → List (List B) × List B → List (List B) × List B
  split_byte c b p = if c then ((b ∷ []) ∷ p.0, p.1) else push_byte b p

  split_byte-whole :
      (c : Bool) (b : B) (p : List (List B) × List B) → (split_byte c b p).1 ≡ [] → p.1 ≡ []
  split_byte-whole true b p h = h
  split_byte-whole false b ([], t) h = cc
  split_byte-whole false b (l ∷ ls, t) h = h

  split_byte-append :
      (c : Bool) (b : B) (p : List (List B) × List B) (ls : List (List B)) (t : List B)
      → (split_byte c b p).1 ≡ []
      → split_byte c b (p.0 ++ ls, t) ≡ ((split_byte c b p).0 ++ ls, t)
  split_byte-append true b p ls t h = refl
  split_byte-append false b ([], u) ls t h = cc
  split_byte-append false b (m ∷ ms, u) ls t h = refl

  split_byte-flatten :
      (c : Bool) (b : B) (p : List (List B) × List B)
      → flatten (split_byte c b p).0 ++ (split_byte c b p).1 ≡ b ∷ (flatten p.0 ++ p.1)
  unfolding flatten
  split_byte-flatten true b p = refl
  split_byte-flatten false b ([], t) = refl
  split_byte-flatten false b (l ∷ ls, t) = refl

  -- A file that ends with a whole line is read up to there on its own.
  pub split-append :
      (xs ys : List B)
      → (split nl xs).1 ≡ []
      → split nl (xs ++ ys) ≡ ((split nl xs).0 ++ (split nl ys).0, (split nl ys).1)
  unfolding split
  split-append [] ys h = refl
  split-append (x ∷ xs) ys h =
      rw (split-append xs ys (split_byte-whole (nl x) x (split nl xs) h))
        (split_byte-append (nl x) x (split nl xs) _ _ h)

  pub take-NoNewline : (n : ℕ) (bs : List B) → NoNewline bs → NoNewline (take n bs)
  take-NoNewline zero bs h = tt
  take-NoNewline (suc n) [] h = tt
  take-NoNewline (suc n) (b ∷ bs) h = (h.0, take-NoNewline n bs h.1)

  -- The lines and the torn tail are the file.
  pub flatten-split : (file : List B) → flatten (split nl file).0 ++ (split nl file).1 ≡ file
  unfolding split flatten
  flatten-split [] = refl
  flatten-split (x ∷ xs) =
      split_byte-flatten (nl x) x (split nl xs) ∙ ap (λ bs. x ∷ bs) (flatten-split xs)

  split_byte-flatten_whole :
      (c : Bool) (b : B) (p : List (List B) × List B)
      → nl b ≡ c
      → split nl (flatten p.0) ≡ (p.0, [])
      → split nl (flatten (split_byte c b p).0) ≡ ((split_byte c b p).0, [])
  unfolding split flatten
  split_byte-flatten_whole true b p e h = rw (e, h)
  split_byte-flatten_whole false b ([], t) e h = refl
  split_byte-flatten_whole false b (l ∷ ls, t) e h = rw (e, h)

  -- The lines of a file without its torn tail are the lines of the file.
  pub split-flatten :
      (file : List B) → split nl (flatten (split nl file).0) ≡ ((split nl file).0, [])
  unfolding split flatten
  split-flatten [] = refl
  split-flatten (x ∷ xs) = split_byte-flatten_whole (nl x) x (split nl xs) refl (split-flatten xs)

  -- The bytes before the torn tail are the lines.
  pub take-end :
      (file : List B)
      → take (length file - length (split nl file).1) file ≡ flatten (split nl file).0
  take-end file =
      let whole = flatten (split nl file).0 in
      let torn = (split nl file).1 in
      let same = flatten-split file in
      let n : length file - length torn ≡ length whole =
        omega (arith, ap length same, length-append whole torn) in
      rw n (subst (λ bs. take (length whole) bs ≡ whole) same (take-append whole torn))

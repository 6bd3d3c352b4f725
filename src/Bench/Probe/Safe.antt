-- ===== src/Bench/Probe/Safe.antt =====
-- The transcript of a proven probe (src/core/bench/isolation.go).
use text.Mathlib.Text.{is_le}
use text.Mathlib.TextEquality.{eq_iff}
use Prim.Native.String.{compare}
use foliot.Common.{
  ℕ, String, ◌≡◌, ◌<◌, refl, ap, ◌∙◌, true, false, not, ◌||◌, ◌&&◌, List, [], ◌∷◌, All, arith, ltb,
  ◌=s=◌, ◌+◌, contains, length, Bool-cases, inl, inr, Option,
}
use foliot.Bench.Strings.{includes, byte_length, split_on, trim_space, tail_text, join_text}
use foliot.Bench.Probe.{
  Reading, select_new, insert_text, sort_texts, uniq, removed_lines, added_lines, select_out,
  answer_lines, check_scan, count_seen, judge_probe, proven,
}

contains-insert_text :
    (l x : String) (xs : List String) → contains l (insert_text x xs) ≡ (x =s= l || contains l xs)
contains-insert_text l x [] = refl
contains-insert_text l x (y ∷ ys) = elim (Bool-cases (is_le (compare x y))) [
  | inl t ↦ rw t
  | inr f ↦ ground (arith, f, contains-insert_text l x ys)
]

contains-sort_texts : (l : String) (xs : List String) → contains l (sort_texts xs) ≡ contains l xs
unfolding sort_texts
contains-sort_texts l [] = refl
contains-sort_texts l (x ∷ xs) =
    contains-insert_text l x (sort_texts xs) ∙ ap (λ b. x =s= l || b) (contains-sort_texts l xs)

contains-select_new :
    (l : String) (seen xs : List String)
    → contains l (select_new seen xs) ≡ (contains l xs && (not (l =s= "") && not (contains l seen)))
contains-select_new l seen [] = refl
contains-select_new l seen (x ∷ xs) = elim (Bool-cases (x =s= l)) [
  | inl t ↦ ground (
    arith,
    t,
    contains-select_new l seen xs,
    contains-select_new l (x ∷ seen) xs,
    ap (λ y. contains y seen) ((eq_iff x l).0 t),
    ap (λ y. y =s= "") ((eq_iff x l).0 t),
  )
  | inr f ↦ ground (arith, f, contains-select_new l seen xs, contains-select_new l (x ∷ seen) xs)
]

contains-select_out :
    (l : String) (removed xs : List String)
    → contains l (select_out removed xs) ≡ (contains l xs && not (contains l removed))
contains-select_out l removed [] = refl
contains-select_out l removed (x ∷ xs) = elim (Bool-cases (x =s= l)) [
  | inl t ↦
      ground (
        arith,
        t,
        contains-select_out l removed xs,
        ap (λ y. contains y removed) ((eq_iff x l).0 t),
      )
  | inr f ↦ ground (arith, f, contains-select_out l removed xs)
]

added_lines-long : (ls : List String) → contains "" (added_lines ls) ≡ false
added_lines-long [] = refl
added_lines-long (l ∷ ls) = elim (Bool-cases (trim_space (tail_text l) =s= "")) [
  | inl t ↦
      ground
        (arith, added_lines-long ls, ap byte_length ((eq_iff (trim_space (tail_text l)) "").0 t))
  | inr f ↦ ground (arith, f, added_lines-long ls)
]

contains-answer_lines :
    (diff l : String)
    → contains l (added_lines (split_on 10 diff)) ≡ true
    → contains l (removed_lines (split_on 10 diff)) ≡ false
    → contains l (answer_lines diff) ≡ true
unfolding answer_lines uniq
contains-answer_lines diff l a r =
    contains-select_out l (removed_lines ls) (uniq (added_lines ls))
    ∙ rw (r, contains-sort_texts, contains-select_new, a, named)
  where
    ls : List String
    ls = split_on 10 diff

    named : (l =s= "") ≡ false
    named = elim (Bool-cases (l =s= "")) [
      | inr f ↦ f
      | inl t ↦
          ground (
            arith,
            a,
            added_lines-long ls,
            ap (λ y. contains y (added_lines ls)) ((eq_iff l "").0 t),
          )
    ]

All-contains :
    (P : String → Type 0) (l : String) (ls : List String) → All P ls → contains l ls ≡ true → P l
All-contains P l [] h c = ground (arith, c)
All-contains P l (x ∷ xs) (h, hs) c = elim (Bool-cases (x =s= l)) [
  | inl t ↦ rw (ap P ((eq_iff x l).0 t)) at h
  | inr f ↦ All-contains P l xs hs (rw f at c)
]

check_scan-none :
    (text : String) (i : ℕ) (ls : List String)
    → length (check_scan text i ls).1 ≡ 0
    → All
        (λ l. ltb (byte_length (trim_space l)) 16 ≡ false → includes text (trim_space l) ≡ false)
        ls
check_scan-none text i [] h = tt
check_scan-none text i (l ∷ ls) h = elim (Bool-cases (ltb (byte_length (trim_space l)) 16)) [
  | inl t ↦ ((λ f. ground (arith, t, f)), check_scan-none text (i + 1) ls (rw t at h))
  | inr f ↦ elim (Bool-cases (includes text (trim_space l))) [
    | inl t ↦ ground (arith, rw (f, t) at h)
    | inr g ↦ ((λ _. g), check_scan-none text (i + 1) ls (rw (f, g) at h))
  ]
]

count_seen-none :
    (text : String) (ls : List String)
    → count_seen text ls ≡ 0
    → All (λ l. includes text l ≡ false) ls
count_seen-none text [] h = tt
count_seen-none text (l ∷ ls) h = elim (Bool-cases (includes text l)) [
  | inl t ↦ ground (arith, rw t at h)
  | inr f ↦ (f, count_seen-none text ls (rw f at h))
]

-- Isolation that a probe proves: no line of the check of 16 bytes or more without the spaces around
-- it, no line of 24 bytes or more that the landed diff adds and does not also remove, and not the
-- token (if there is one) stands in the transcript; and the worker tried and was denied at least once.
pub proven-Hidden :
    {F : Type 0} (check diff token : String) (st : Reading F) (day : Option String)
    → proven (judge_probe check (answer_lines diff) token st) day ≡ true
    → All
        (λ l.
          ltb (byte_length (trim_space l)) 16 ≡ false
          → includes (join_text "\n" st.texts) (trim_space l) ≡ false)
        (split_on 10 check)
      × ((l : String)
          → contains l (added_lines (split_on 10 diff)) ≡ true
          → contains l (removed_lines (split_on 10 diff)) ≡ false
          → includes (join_text "\n" st.texts) l ≡ false)
      × ((token =s= "") ≡ false → includes (join_text "\n" st.texts) token ≡ false)
      × (0 < st.tool_uses)
      × (0 < st.denials)
unfolding proven judge_probe
proven-Hidden check diff token st day h = (
  check_scan-none text 1 (split_on 10 check) (ground arith),
  (λ l a r.
      All-contains _ l (answer_lines diff) (count_seen-none text (answer_lines diff) (ground arith))
        (contains-answer_lines diff l a r)),
  (λ n. ground (arith, n)),
  ground arith,
  ground arith,
)
  where
    text : String
    text = join_text "\n" st.texts

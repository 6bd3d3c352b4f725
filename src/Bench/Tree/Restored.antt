-- ===== src/Bench/Tree/Restored.antt =====
-- A worker's files, rebuilt on the base from its changes (src/core/bench/workspace.go, runner.go).
use foliot.Common.{
  ℕ, String, true, false, Option, none, some, List, [], ◌∷◌, ◌++◌, if◌then◌else◌, All, ◌≡◌, inl,
  inr, refl, sym, ap, ◌∙◌, arith, Bool-cases, Option-cases,
}
use foliot.Common.Assoc.{get, alter, get-alter, Fresh, IsMap}
use mathlib.Core.Path.{subst}
use foliot.Bench.Tree.{
  FilePath, same_path, same_path_iff, path_key, Leaf, regular, link, special, Files, Change, write,
  delete, read_base, is_content, add_write, writes, is_seen, count_links, deletes, with_deletes,
  file_changes, is_below, goes_astray, is_blocked, drop_file, apply_change, apply_changes,
}
use foliot.Bench.Tree.Leaves.{
  none-some, add_write-some, some-inj, get-drop_file, known_leaf, over-first, over-later,
  over-written, wanted-left, wanted, over, left,
}

module _ (through : FilePath → Option String) (astray : Change → Files → Option Files)
    (Ok : FilePath → Type 0) (apart : (p q : FilePath) → Ok p → Ok q → is_below p q ≡ false)
    (no_link : (p : FilePath) → through p ≡ none) where
  abbrev pub Within : Files → Type 0
  Within fs = All (λ f. Ok f.0) fs

  not_astray : (p : FilePath) (fs : Files) → Ok p → Within fs → goes_astray p fs ≡ false
  not_astray p [] o w = refl
  not_astray p ((q, link) ∷ fs) o (k, w) = ground (arith, apart q p k o, not_astray p fs o w)
  not_astray p ((q, regular c) ∷ fs) o (k, w) = not_astray p fs o w
  not_astray p ((q, special) ∷ fs) o (k, w) = not_astray p fs o w

  not_blocked : (p : FilePath) (fs : Files) → Ok p → Within fs → is_blocked p fs ≡ false
  not_blocked p [] o w = refl
  not_blocked p ((q, l) ∷ fs) o (k, w) =
      ground (arith, apart q p k o, apart p q o k, not_blocked p fs o w)

  Within-alter :
      (p : FilePath) (l : Leaf) (fs : Files) → Ok p → Within fs → Within (alter p (λ _. l) fs)
  unfolding alter
  Within-alter p l [] o w = (o, tt)
  Within-alter p l ((q, m) ∷ fs) o (k, w) = elim (Bool-cases (same_path q p)) [
    | inl t ↦ rw t (k, w)
    | inr f ↦ rw f (k, Within-alter p l fs o w)
  ]

  Within-drop_file : (p : FilePath) (fs : Files) → Within fs → Within (drop_file p fs)
  Within-drop_file p [] w = tt
  Within-drop_file p ((q, m) ∷ fs) (k, w) = elim (Bool-cases (same_path q p)) [
    | inl t ↦ rw t (Within-drop_file p fs w)
    | inr f ↦ rw f (k, Within-drop_file p fs w)
  ]

  -- Changes that apply, and what they make of each path.
  abbrev pub Applies : List Change → Files → (FilePath → Option Leaf → Option Leaf) → Type 0
  Applies cs fs f =
      (fs' : Files) × (apply_changes astray cs fs ≡ some fs')
      × Within fs'
      × ((q : FilePath) → get q fs' ≡ f q (get q fs))

  apply_one :
      (c : Change) (cs : List Change) (fs fs' : Files) (f g : FilePath → Option Leaf → Option Leaf)
      → apply_change astray c fs ≡ some fs'
      → ((q : FilePath) → f q (get q fs') ≡ g q (get q fs))
      → Applies cs fs' f
      → Applies (c ∷ cs) fs g
  unfolding apply_changes
  apply_one c cs fs fs' f g e h (fs'', a, w, k) = (fs'', rw (e, apply_changes) a, w, λ q. k q ∙ h q)

  apply_write :
      (p : FilePath) (c : String) (fs : Files)
      → Ok p
      → Within fs
      → apply_change astray (write p c) fs ≡ some (alter p (λ _. regular (some c)) fs)
  apply_write p c fs o w = rw (not_astray p fs o w, not_blocked p fs o w) refl

  apply_delete :
      (p : FilePath) (fs : Files)
      → Ok p
      → Within fs
      → apply_change astray (delete p) fs ≡ some (drop_file p fs)
  apply_delete p fs o w = rw (not_astray p fs o w, not_blocked p fs o w) refl

  deletes-Applies :
      (ws fs base : Files) → Within fs → Within base → Applies (deletes ws base) fs (left ws base)
  unfolding apply_changes
  deletes-Applies ws fs [] w v = (fs, refl, w, λ q. refl)
  deletes-Applies ws fs ((p, l) ∷ base) w (o, v) = elim (Bool-cases (is_seen (get p ws))) [
    | inl t ↦ rw t (deletes-Applies ws fs base w v)
    | inr f ↦ rw f (
        apply_one (delete p) (deletes ws base) fs (drop_file p fs) (left ws base)
          (λ q x. left ws base q (if same_path p q then none else x)) (apply_delete p fs o w)
          (λ q. ap (left ws base q) (get-drop_file p q fs))
          (deletes-Applies ws (drop_file p fs) base (Within-drop_file p fs w) v))
  ]

  -- A file that adds no change, where what it leaves is what the checkout has.
  skip_file :
      (p : FilePath) (l : Leaf) (ws fs : Files) (cs : List Change)
      → Fresh p ws
      → ((q : FilePath) → same_path p q ≡ true → get q fs ≡ over (some l) (get q fs))
      → Applies cs fs (λ q o. over (get q ws) o)
      → Applies cs fs (λ q o. over (get q ((p, l) ∷ ws)) o)
  skip_file p l ws fs cs h same (fs', a, w, k) = (
    fs',
    a,
    w,
    λ q.
        k q
        ∙ sym (
            over-first p q l ws (get q fs) h ∙ (elim (Bool-cases (same_path p q)) [
              | inl t ↦ rw t (sym (over-later p q ws (get q fs) h t ∙ same q t))
              | inr f ↦ rw f refl
            ])),
  )

  -- The paths of the worker's files are as in the base.
  abbrev pub Untouched : Files → Files → Files → Type 0
  Untouched base fs ws = All (λ f. get f.0 fs ≡ get f.0 base) ws

  Untouched-alter :
      (p : FilePath) (l : Leaf) (base fs ws : Files)
      → Fresh p ws
      → Untouched base fs ws
      → Untouched base (alter p (λ _. l) fs) ws
  Untouched-alter p l base fs [] h u = tt
  Untouched-alter p l base fs ((q, m) ∷ ws) (x, h) (y, u) =
      (get-alter p q (λ _. l) fs ∙ rw (differ) y, Untouched-alter p l base fs ws h u)
    where
      differ : same_path p q ≡ false
      differ = ground (arith, x, same_path_iff p q, same_path_iff q p)

  known_content :
      (base : Files) (p : FilePath) (c : String)
      → is_content (read_base through base p) c ≡ true
      → get p base ≡ some (regular (some c))
  known_content base p c h = known_leaf (through p) (get p base) c (no_link p) h

  write_step :
      (base : Files) (p : FilePath) (c : String) (ws fs : Files) (cs : List Change)
      → Fresh p ws
      → Ok p
      → Within fs
      → get p fs ≡ get p base
      → Applies cs fs (λ q o. over (get q ws) o)
      → Applies cs (alter p (λ _. regular (some c)) fs) (λ q o. over (get q ws) o)
      → Applies
          (if is_content (read_base through base p) c then cs else write p c ∷ cs)
          fs
          (λ q x. over (get q ((p, regular (some c)) ∷ ws)) x)
  write_step base p c ws fs cs h o w y known new =
      elim (Bool-cases (is_content (read_base through base p) c)) [
        | inl t ↦ rw t (
            skip_file p (regular (some c)) ws fs cs h
              (λ q m.
                subst (λ z. get z fs ≡ some (regular (some c))) ((same_path_iff p q).0 m)
                  (y ∙ known_content base p c t))
              known)
        | inr f ↦ rw f (
            apply_one (write p c) cs fs (alter p (λ _. regular (some c)) fs)
              (λ q x. over (get q ws) x) (λ q x. over (get q ((p, regular (some c)) ∷ ws)) x)
              (apply_write p c fs o w) (λ q. over-written p q c ws fs h) new)
      ]

  writes-Applies :
      (base ws fs : Files) (cs : List Change)
      → IsMap ws
      → Within ws
      → Within fs
      → Untouched base fs ws
      → writes through base ws ≡ some cs
      → Applies cs fs (λ q o. over (get q ws) o)
  unfolding apply_changes get
  writes-Applies base [] fs cs m v w u e =
      subst (λ z. Applies z fs (λ q o. o)) (some-inj e) (fs, refl, w, λ q. refl)
  writes-Applies base ((p, regular none) ∷ ws) fs cs m v w u e = absurd cc
  writes-Applies base ((p, link) ∷ ws) fs cs (h, m) (o, v) w (y, u) e =
      skip_file p link ws fs cs h (λ q t. refl) (writes-Applies base ws fs cs m v w u e)
  writes-Applies base ((p, special) ∷ ws) fs cs (h, m) (o, v) w (y, u) e =
      skip_file p special ws fs cs h (λ q t. refl) (writes-Applies base ws fs cs m v w u e)
  writes-Applies base ((p, regular (some c)) ∷ ws) fs cs (h, m) (o, v) w (y, u) e =
      elim (Option-cases (writes through base ws)) [
        | inl n ↦
            absurd
              (none-some (ap (add_write (is_content (read_base through base p) c) p c) (sym n) ∙ e))
        | inr (cs', n) ↦
            let e' = ap (add_write (is_content (read_base through base p) c) p c) (sym n) ∙ e in
            subst (λ z. Applies z fs (λ q x. over (get q ((p, regular (some c)) ∷ ws)) x))
              (some-inj (add_write-some _ p c cs' ∙ e'))
              (write_step base p c ws fs cs' h o w y (writes-Applies base ws fs cs' m v w u n) (
                writes-Applies base ws (alter p (λ _. regular (some c)) fs) cs' m v
                  (Within-alter p (regular (some c)) fs o w)
                  (Untouched-alter p (regular (some c)) base fs ws h u) n))
      ]

  apply-append :
      (xs ys : List Change) (fs f1 f2 : Files)
      → apply_changes astray xs fs ≡ some f1
      → apply_changes astray ys f1 ≡ some f2
      → apply_changes astray (xs ++ ys) fs ≡ some f2
  unfolding apply_changes
  apply-append [] ys fs f1 f2 a b =
      subst (λ z. apply_changes astray ys z ≡ some f2) (sym (some-inj a)) b
  apply-append (x ∷ xs) ys fs f1 f2 a b = elim (Option-cases (apply_change astray x fs)) [
    | inl n ↦ absurd (none-some (rw (n, apply_changes) at a))
    | inr (fs', n) ↦
        rw (n, apply_changes) (apply-append xs ys fs' f1 f2 (rw (n, apply_changes) at a) b)
  ]

  Untouched-refl : (base ws : Files) → Untouched base base ws
  Untouched-refl base [] = tt
  Untouched-refl base (f ∷ ws) = (refl, Untouched-refl base ws)

  -- Where no path lies below another and no link of the base leads to a file, the changes of a worker's
  -- files apply to the base and leave at each path the worker's regular file, what the base has where the
  -- worker has a link, and nothing elsewhere; and the links are counted.
  pub apply_changes-file_changes :
      (base ws : Files) (cs : List Change) (n : ℕ)
      → IsMap ws
      → Within ws
      → Within base
      → file_changes through base ws ≡ some (cs, n)
      → (fs : Files) × (apply_changes astray cs base ≡ some fs)
        × ((q : FilePath) → get q fs ≡ wanted (get q ws) (get q base))
        × (n ≡ count_links ws)
  unfolding file_changes
  apply_changes-file_changes base ws cs n m w v e = elim (Option-cases (writes through base ws)) [
    | inl x ↦ absurd (none-some (ap (with_deletes base ws) (sym x) ∙ e))
    | inr (ds, x) ↦
        let same = some-inj (ap (with_deletes base ws) (sym x) ∙ e) in
        let (f1, a, w1, k) = writes-Applies base ws base ds m w v (Untouched-refl base ws) x in
        let (f2, b, w2, j) = deletes-Applies ws f1 base w1 v in
        (
          f2,
          subst (λ z. apply_changes astray z base ≡ some f2) (ap (λ z. z.0) same)
              (apply-append ds (deletes ws base) base f1 f2 a b),
          (λ q. j q ∙ ap (left ws base q) (k q) ∙ wanted-left ws base q (get q ws) refl),
          sym (ap (λ z. z.1) same),
        )
  ]

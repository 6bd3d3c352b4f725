-- ===== src/Bench/Tree/Leaves.antt =====
-- What a change of a worker's files makes of one path (src/core/bench/workspace.go, runner.go).
use foliot.Common.{
  String, Bool, true, false, Option, none, some, List, [], ◌∷◌, if◌then◌else◌, ◌≡◌, ◌≢◌, inl, inr,
  refl, sym, ap, ◌∙◌, arith, Bool-cases,
}
use foliot.Common.Assoc.{get, alter, get-alter, Fresh}
use mathlib.Core.Path.{subst}
use text.Mathlib.TextEquality.{eq_iff}
use foliot.Bench.Tree.{
  FilePath, same_path, same_path_iff, path_key, Leaf, regular, link, special, Files, Change, write,
  read_leaf, is_content, add_write, is_seen, drop_file,
}

pub none-some : {A : Type 0} {a : A} → none ≢ some a
none-some e = cc

pub add_write-some :
    (known : Bool) (p : FilePath) (c : String) (cs : List Change)
    → some (if known then cs else write p c ∷ cs) ≡ add_write known p c (some cs)
add_write-some true p c cs = refl
add_write-some false p c cs = refl

pub some-inj : {A : Type 0} {a b : A} → some a ≡ some b → a ≡ b
some-inj e = cc

pub get-Fresh : (p : FilePath) (fs : Files) → Fresh p fs → get p fs ≡ none
unfolding get
get-Fresh p [] h = refl
get-Fresh p ((q, l) ∷ fs) (x, h) = rw x (get-Fresh p fs h)

pub get-drop_file :
    (p q : FilePath) (fs : Files)
    → get q (drop_file p fs) ≡ (if same_path p q then none else get q fs)
unfolding get
get-drop_file p q [] = ground arith
get-drop_file p q ((r, l) ∷ fs) =
    ground (arith, get-drop_file p q fs, same_path_iff r p, same_path_iff r q, same_path_iff p q)

pub known_leaf :
    (t : Option String) (o : Option Leaf) (c : String)
    → t ≡ none
    → is_content (read_leaf t o) c ≡ true
    → o ≡ some (regular (some c))
known_leaf t none c n h = absurd (ground (arith, rw n at h))
known_leaf t (some (regular none)) c n h = absurd cc
known_leaf t (some (regular (some d))) c n h = ap (λ z. some (regular (some z))) ((eq_iff d c).0 h)
known_leaf t (some link) c n h = absurd (ground (arith, rw n at h))
known_leaf t (some special) c n h = absurd (ground (arith, rw n at h))

-- The files that the worker's make of the base's: the regular files are the worker's, a symbolic link
-- leaves what the base has, and nothing else is left.
abbrev pub wanted : Option Leaf → Option Leaf → Option Leaf
wanted none o = none
wanted (some (regular none)) o = o
wanted (some (regular (some c))) o = some (regular (some c))
wanted (some link) o = o
wanted (some special) o = none

-- What the worker's file at a path makes of the base's.
abbrev pub over : Option Leaf → Option Leaf → Option Leaf
over (some (regular (some c))) o = some (regular (some c))
over _ o = o

-- What the deletions leave: nothing at a path of the base that the worker does not have.
abbrev pub left : Files → Files → FilePath → Option Leaf → Option Leaf
left ws [] q o = o
left ws ((p, l) ∷ fs) q o =
    let rest = left ws fs q in
    if is_seen (get p ws) then rest o else rest (if same_path p q then none else o)

-- What the worker has at a path besides its first file.
pub over-first :
    (p q : FilePath) (l : Leaf) (ws : Files) (o : Option Leaf)
    → Fresh p ws
    → over (get q ((p, l) ∷ ws)) o ≡ (if same_path p q then over (some l) o else over (get q ws) o)
unfolding get
over-first p q l ws o h = elim (Bool-cases (same_path p q)) [
  | inl t ↦ rw t refl
  | inr f ↦ rw f refl
]

pub over-later :
    (p q : FilePath) (ws : Files) (o : Option Leaf)
    → Fresh p ws
    → same_path p q ≡ true
    → over (get q ws) o ≡ o
over-later p q ws o h t =
    ap (λ x. over x o) (subst (λ z. get z ws ≡ none) ((same_path_iff p q).0 t) (get-Fresh p ws h))

pub over-written :
    (p q : FilePath) (c : String) (ws fs : Files)
    → Fresh p ws
    → over (get q ws) (get q (alter p (λ _. regular (some c)) fs))
      ≡ over (get q ((p, regular (some c)) ∷ ws)) (get q fs)
over-written p q c ws fs h =
    ap (over (get q ws)) (get-alter p q (λ _. regular (some c)) fs)
    ∙ (elim (Bool-cases (same_path p q)) [
      | inl t ↦ rw t (over-later p q ws (some (regular (some c))) h t)
      | inr f ↦ rw f refl
    ])
    ∙ sym (over-first p q (regular (some c)) ws (get q fs) h)

pub apart_seen :
    (ws : Files) (p q : FilePath)
    → is_seen (get p ws) ≡ false
    → is_seen (get q ws) ≡ true
    → same_path p q ≡ false
apart_seen ws p q f t = ground (
  arith,
  f,
  t,
  λ (e : same_path p q ≡ true). ap (λ z. is_seen (get z ws)) ((same_path_iff p q).0 e),
)

pub other_way :
    (ws : Files) (p q : FilePath)
    → is_seen (get p ws) ≡ true
    → is_seen (get q ws) ≡ false
    → same_path p q ≡ false
other_way ws p q t f = ground (
  arith,
  f,
  t,
  λ (e : same_path p q ≡ true). ap (λ z. is_seen (get z ws)) ((same_path_iff p q).0 e),
)

pub left-none : (ws base : Files) (q : FilePath) → left ws base q none ≡ none
left-none ws [] q = refl
left-none ws ((p, l) ∷ base) q = ground (arith, left-none ws base q)

-- A path that the worker has is left, and one that it has not is gone.
pub left-seen :
    (ws base : Files) (q : FilePath) (o : Option Leaf)
    → is_seen (get q ws) ≡ true
    → left ws base q o ≡ o
left-seen ws [] q o h = refl
left-seen ws ((p, l) ∷ base) q o h = elim (Bool-cases (is_seen (get p ws))) [
  | inl t ↦ rw t (left-seen ws base q o h)
  | inr f ↦ rw (f, apart_seen ws p q f h) (left-seen ws base q o h)
]

pub left-unseen :
    (ws base : Files) (q : FilePath)
    → is_seen (get q ws) ≡ false
    → left ws base q (get q base) ≡ none
unfolding get
left-unseen ws [] q h = refl
left-unseen ws ((p, l) ∷ base) q h = elim (Bool-cases (is_seen (get p ws))) [
  | inl t ↦ rw (t, other_way ws p q t h) (left-unseen ws base q h)
  | inr f ↦ rw f (elim (Bool-cases (same_path p q)) [
    | inl t ↦ rw t (left-none ws base q)
    | inr g ↦ rw g (left-unseen ws base q h)
  ])
]

pub wanted-left :
    (ws base : Files) (q : FilePath) (x : Option Leaf)
    → get q ws ≡ x
    → left ws base q (over x (get q base)) ≡ wanted x (get q base)
wanted-left ws base q none e = left-unseen ws base q (ap is_seen e)
wanted-left ws base q (some (regular none)) e = left-seen ws base q _ (ap is_seen e)
wanted-left ws base q (some (regular (some c))) e = left-seen ws base q _ (ap is_seen e)
wanted-left ws base q (some link) e = left-seen ws base q _ (ap is_seen e)
wanted-left ws base q (some special) e = left-unseen ws base q (ap is_seen e)

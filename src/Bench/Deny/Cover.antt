-- ===== src/Bench/Deny/Cover.antt =====
-- What `complement` denies, and what it leaves.
use mathlib.Core.Path.{subst}
use mathlib.Core.List.{append_assoc, append-nil}
use text.Mathlib.TextEquality.{eq_iff}
use foliot.Common.{
  String, ◌≡◌, refl, sym, ap, ◌∙◌, Bool, true, false, ◌||◌, ◌&&◌, if-induct, Option-induct, Option,
  none, some, List, [], ◌∷◌, ◌++◌, if◌then◌else◌, ◌=s=◌, contains, arith, Bool-cases, inl, inr,
}
use foliot.Bench.Deny.{PathOf, siblings, deny_along, rel_path, complement}

-- A path is a denied one or lies under it.
abbrev pub is_under : PathOf → PathOf → Bool
is_under [] p = true
is_under (d ∷ ds) [] = false
is_under (d ∷ ds) (p ∷ ps) = (d =s= p) && is_under ds ps

abbrev pub is_denied : List PathOf → PathOf → Bool
is_denied [] p = false
is_denied (d ∷ ds) p = is_under d p || is_denied ds p

-- Every name of a path, from a directory on, is an entry of the directory that it stands in, where
-- that can be read.
abbrev pub IsListed : (PathOf → Option (List String)) → PathOf → List String → Type 0
IsListed read_dir dir [] = Unit
IsListed read_dir dir (n ∷ ns) =
    ((entries : List String) → read_dir dir ≡ some entries → contains n entries ≡ true)
    × IsListed read_dir (dir ++ (n ∷ [])) ns

-- A path that leaves the way to the kept one is off it: neither leads to the other.
abbrev pub is_off : List String → List String → Bool
is_off [] p = false
is_off (k ∷ ks) [] = false
is_off (k ∷ ks) (p ∷ ps) = let rest = is_off ks ps in if p =s= k then rest else true

is_under-append : (dir p q : PathOf) → is_under (dir ++ p) (dir ++ q) ≡ is_under p q
is_under-append [] p q = refl
is_under-append (d ∷ ds) p q = ground (arith, eq_iff d d, is_under-append ds p q)

is_denied-append :
    (xs ys : List PathOf) (p : PathOf) → is_denied (xs ++ ys) p ≡ (is_denied xs p || is_denied ys p)
is_denied-append [] ys p = refl
is_denied-append (x ∷ xs) ys p = ground (arith, is_denied-append xs ys p)

is_denied-siblings :
    (dir : PathOf) (seg n : String) (ns entries : List String)
    → (n =s= seg) ≡ false
    → contains n entries ≡ true
    → is_denied (siblings dir seg entries) (dir ++ (n ∷ ns)) ≡ true
is_denied-siblings dir seg n ns [] f c = ground (arith, c)
is_denied-siblings dir seg n ns (e ∷ es) f c =
    if-induct (λ xs. is_denied xs (dir ++ (n ∷ ns)) ≡ true) (e =s= seg) _ _
      (λ t.
        is_denied-siblings dir seg n ns es f
          (ground (arith, c, t, f, eq_iff e seg, eq_iff n seg, eq_iff e n, λ (x : e ≡ n). sym x)))
      (λ _. elim (Bool-cases (e =s= n)) [
        | inl t ↦ ground (arith, is_under-append dir (e ∷ []) (n ∷ ns), t)
        | inr g ↦ ground (arith, is_denied-siblings dir seg n ns es f (ground (arith, g, c)))
      ])

deny_along-Covers :
    (read_dir : PathOf → Option (List String)) (dir : PathOf) (segs p : List String)
    → IsListed read_dir dir p
    → is_off segs p ≡ true
    → is_denied (deny_along read_dir dir segs) (dir ++ p) ≡ true
unfolding deny_along
deny_along-Covers read_dir dir [] p l o = ground (arith, o)
deny_along-Covers read_dir dir (k ∷ ks) [] l o = ground (arith, o)
deny_along-Covers read_dir dir (k ∷ ks) (n ∷ ns) (l, ls) o =
    Option-induct P (read_dir dir) _ _
      (λ _. ground (
        arith,
        is_under-append dir [] (n ∷ ns),
        append-nil dir,
        ap (λ d. is_under d (dir ++ (n ∷ ns))) (append-nil dir),
      ))
      (λ es x. is_denied-append (siblings dir k es) _ _ ∙ elim (Bool-cases (n =s= k)) [
        | inl t ↦ ground (
          arith,
          deny_along-Covers read_dir (dir ++ (k ∷ [])) ks ns
              (subst (λ z. IsListed read_dir (dir ++ (z ∷ [])) ns) ((eq_iff n k).0 t) ls)
              (rw t at o),
          ap (is_denied (deny_along read_dir (dir ++ (k ∷ [])) ks))
              (append_assoc dir (k ∷ []) ns ∙ ap (λ z. dir ++ (z ∷ ns)) (sym ((eq_iff n k).0 t))),
        )
        | inr f ↦ rw (is_denied-siblings dir k n ns es f (l es x)) refl
      ])
  where
    P : List PathOf → Type 0
    P xs = is_denied xs (dir ++ (n ∷ ns)) ≡ true

-- Every directory on the way can be read.
abbrev pub IsReadable : (PathOf → Option (List String)) → PathOf → List String → Type 0
IsReadable read_dir dir [] = Unit
IsReadable read_dir dir (n ∷ ns) =
    ((entries : List String) × (read_dir dir ≡ some entries))
    × IsReadable read_dir (dir ++ (n ∷ [])) ns

is_kept-siblings :
    (dir : PathOf) (seg : String) (p entries : List String)
    → is_denied (siblings dir seg entries) (dir ++ (seg ∷ p)) ≡ false
is_kept-siblings dir seg p [] = refl
is_kept-siblings dir seg p (e ∷ es) =
    if-induct (λ xs. is_denied xs (dir ++ (seg ∷ p)) ≡ false) (e =s= seg) _ _
      (λ _. is_kept-siblings dir seg p es)
      (λ f.
        ground (arith, f, is_under-append dir (e ∷ []) (seg ∷ p), is_kept-siblings dir seg p es))

deny_along-Keeps :
    (read_dir : PathOf → Option (List String)) (dir : PathOf) (segs p : List String)
    → IsReadable read_dir dir segs
    → is_denied (deny_along read_dir dir segs) (dir ++ (segs ++ p)) ≡ false
unfolding deny_along
deny_along-Keeps read_dir dir [] p r = refl
deny_along-Keeps read_dir dir (k ∷ ks) p ((es, x), r) =
    Option-induct (λ xs. is_denied xs (dir ++ (k ∷ (ks ++ p))) ≡ false) (read_dir dir) _ _
      (λ n. ground (arith, n, x))
      (λ fs _.
        is_denied-append (siblings dir k fs) _ _
        ∙ ground (
          arith,
          is_kept-siblings dir k (ks ++ p) fs,
          deny_along-Keeps read_dir (dir ++ (k ∷ [])) ks p r,
          ap (is_denied (deny_along read_dir (dir ++ (k ∷ [])) ks))
              (append_assoc dir (k ∷ []) (ks ++ p)),
        ))

complement-rel_path :
    (read_dir : PathOf → Option (List String)) (top keep segs : List String)
    → rel_path top keep ≡ some segs
    → complement read_dir top keep ≡ deny_along read_dir top segs
unfolding complement
complement-rel_path read_dir top keep segs h =
    ap (λ o. elim o [ none ↦ [] | some ns ↦ deny_along read_dir top ns ]) h

-- Where the run lies under a denied root, by a first name that does not begin with "..", a path under the
-- root that is off the way to the run, and whose names are entries of their directories where those can be
-- read, is denied, or a directory above it is.
pub complement-Covers :
    (read_dir : PathOf → Option (List String)) (top keep segs p : List String)
    → rel_path top keep ≡ some segs
    → IsListed read_dir top p
    → is_off segs p ≡ true
    → is_denied (complement read_dir top keep) (top ++ p) ≡ true
complement-Covers read_dir top keep segs p h l o =
    ap (λ xs. is_denied xs (top ++ p)) (complement-rel_path read_dir top keep segs h)
    ∙ deny_along-Covers read_dir top segs p l o

-- If the run lies under a denied root, by a first name that does not begin with "..", and every directory
-- on the way to it can be read, neither the run, nor a path
-- in it, nor a directory above them is denied.
pub complement-Keeps :
    (read_dir : PathOf → Option (List String)) (top keep segs p : List String)
    → rel_path top keep ≡ some segs
    → IsReadable read_dir top segs
    → is_denied (complement read_dir top keep) (top ++ (segs ++ p)) ≡ false
complement-Keeps read_dir top keep segs p h r =
    ap (λ xs. is_denied xs (top ++ (segs ++ p))) (complement-rel_path read_dir top keep segs h)
    ∙ deny_along-Keeps read_dir top segs p r

-- ===== src/Bench/Verify/Given.antt =====
-- The outcome of a suite, given to the results that hold its key (src/core/bench/verify.go).
use mathlib.Core.Path.{subst}
use foliot.Common.{
  ℕ, zero, suc, ◌≡◌, ◌⊎◌, refl, sym, ap, ◌∙◌, Option, none, some, List, [], ◌∷◌, inl, inr,
  get_elem?, All,
}
use foliot.Bench.Corpus.{TaskRecord}
use foliot.Bench.Verify.{Side, at_base, at_landed, Failure, visible, VisibleRun, Result}
use foliot.Bench.Verify.Phases.{snoc-not_nil}
use foliot.Bench.Verify.Visible.{
  VisibleKey, VisibleOutcome, key_of, Holder, refuse_visible, give_result, give, give_all,
  give_groups,
}
use foliot.Bench.Verify.Holders.{Within, Held, Names, IsGrouped}

pub some-inj : {A : Type 0} {a b : A} → some a ≡ some b → a ≡ b
some-inj e = cc

-- What a holder's reading is of, read in the results.
abbrev pub reading : {F : Type 0} → Side → Result F → VisibleRun F
reading at_base r = r.visible_base
reading at_landed r = r.visible_landed

module _ {F : Type 0} where
  pub refuse_visible-clean :
      (side : Side) (f : Option Failure) (r : Result F)
      → (refuse_visible side f r).refusals ≡ []
      → (f ≡ none) × (r.refusals ≡ []) × (refuse_visible side f r ≡ r)
  refuse_visible-clean side none r h = (refl, h, refl)
  refuse_visible-clean side (some f) r h = absurd (snoc-not_nil r.refusals (visible side f) h)

  pub give_result-clean :
      (side : Side) (o : VisibleOutcome F) (r : Result F)
      → (give_result side o r).refusals ≡ []
      → (o.failure ≡ none) × (r.refusals ≡ []) × (reading side (give_result side o r) ≡ o.run)
  give_result-clean at_base o r h =
      let (f, c, e) =
        refuse_visible-clean at_base o.failure (record r { visible_base = o.run }) h in
      (f, c, ap (λ x. x.visible_base) e)
  give_result-clean at_landed o r h =
      let (f, c, e) =
        refuse_visible-clean at_landed o.failure (record r { visible_landed = o.run }) h in
      (f, c, ap (λ x. x.visible_landed) e)

  -- The other side's reading stays.
  pub give_result-other :
      (side other : Side) (o : VisibleOutcome F) (r : Result F)
      → (give_result side o r).refusals ≡ []
      → (side ≡ other) ⊎ (reading other (give_result side o r) ≡ reading other r)
  give_result-other at_base at_base o r h = inl refl
  give_result-other at_landed at_landed o r h = inl refl
  give_result-other at_base at_landed o r h =
      let (f, c, e) =
        refuse_visible-clean at_base o.failure (record r { visible_base = o.run }) h in
      inr (ap (λ x. x.visible_landed) e)
  give_result-other at_landed at_base o r h =
      let (f, c, e) =
        refuse_visible-clean at_landed o.failure (record r { visible_landed = o.run }) h in
      inr (ap (λ x. x.visible_base) e)

  -- What holds of the result at an index, if it has no refusal.
  abbrev pub At : (Result F → Type 0) → ℕ → List (Result F) → Type 0
  At P i rs = (r : Result F) → get_elem? rs i ≡ some r → r.refusals ≡ [] → P r

  at_head :
      (P : Result F → Type 0) (x r : Result F)
      → (x.refusals ≡ [] → P x)
      → some x ≡ some r
      → r.refusals ≡ []
      → P r
  at_head P x r f e c = subst P (some-inj e) (f (ap (λ z. z.refusals) (some-inj e) ∙ c))

  pub give-keeps :
      (P : Result F → Type 0) (i j : ℕ) (s : Side) (o : VisibleOutcome F) (rs : List (Result F))
      → (i ≡ j
          → (r : Result F) → (give_result s o r).refusals ≡ []
          → (r.refusals ≡ [] → P r)
          → P (give_result s o r))
      → At P i rs
      → At P i (give (j, s) o rs)
  give-keeps P i j s o [] f a = a
  give-keeps P zero zero s o (x ∷ rs) f a =
      λ r e c. at_head P (give_result s o x) r (λ d. f refl x d (a x refl)) e c
  give-keeps P (suc i) zero s o (x ∷ rs) f a = a
  give-keeps P zero (suc j) s o (x ∷ rs) f a = a
  give-keeps P (suc i) (suc j) s o (x ∷ rs) f a = give-keeps P i j s o rs (λ e. f (ap suc e)) a

  pub give-sets :
      (P : Result F → Type 0) (i : ℕ) (s : Side) (o : VisibleOutcome F) (rs : List (Result F))
      → ((r : Result F) → (give_result s o r).refusals ≡ [] → P (give_result s o r))
      → At P i (give (i, s) o rs)
  give-sets P i s o [] f = λ r e c. absurd cc
  give-sets P zero s o (x ∷ rs) f = λ r e c. at_head P (give_result s o x) r (f x) e c
  give-sets P (suc i) s o (x ∷ rs) f = give-sets P i s o rs f

module _ {F : Type 0} (all : List (Option TaskRecord))
    (outcome : VisibleKey → VisibleOutcome F) where
  -- A result without a refusal has, on a side, the reading of its task's key, which did not fail.
  abbrev pub Reads : Holder → Result F → Type 0
  Reads h r =
      (t : TaskRecord) × (get_elem? all h.0 ≡ some (some t))
      × (reading h.1 r ≡ (outcome (key_of t h.1)).run)
      × ((outcome (key_of t h.1)).failure ≡ none)

  by_name :
      (key : VisibleKey) (h : Holder) (r : Result F)
      → Names all key h
      → (give_result h.1 (outcome key) r).refusals ≡ []
      → Reads h (give_result h.1 (outcome key) r)
  by_name key h r (t, e, n) c =
      let (f, d, q) = give_result-clean h.1 (outcome key) r c in
      (t, e, q ∙ ap (λ z. (outcome z).run) n, sym (ap (λ z. (outcome z).failure) n) ∙ f)

  give-Reads :
      (key : VisibleKey) (h g : Holder) (rs : List (Result F))
      → Names all key g
      → At (Reads h) h.0 rs
      → At (Reads h) h.0 (give g (outcome key) rs)
  give-Reads key h g rs n = give-keeps (Reads h) h.0 g.0 g.1 (outcome key) rs (λ q r c prior.
      elim (give_result-other g.1 h.1 (outcome key) r c) [
        | inl e ↦
            subst (λ z. Reads z (give_result g.1 (outcome key) r)) (λ i. (sym q i, e i))
              (by_name key g r n c)
        | inr e ↦
            let (f, d, z) = give_result-clean g.1 (outcome key) r c in
            let (t, a, rd, ok) = prior d in (t, a, e ∙ rd, ok)
      ])

  give_all-Reads :
      (key : VisibleKey) (h : Holder) (hs : List Holder) (rs : List (Result F))
      → All (Names all key) hs
      → At (Reads h) h.0 rs
      → At (Reads h) h.0 (give_all hs (outcome key) rs)
  give_all-Reads key h [] rs ns a = a
  give_all-Reads key h (g ∷ hs) rs (n, ns) a =
      give_all-Reads key h hs (give g (outcome key) rs) ns (give-Reads key h g rs n a)

  give_all-Within :
      (key : VisibleKey) (h : Holder) (hs : List Holder) (rs : List (Result F))
      → All (Names all key) hs
      → Within h hs
      → At (Reads h) h.0 (give_all hs (outcome key) rs)
  give_all-Within key h [] rs ns w = elim w [ ]
  give_all-Within key h (g ∷ hs) rs (n, ns) (inl e) =
      give_all-Reads key h hs (give g (outcome key) rs) ns (
        subst (λ z. At (Reads z) z.0 (give g (outcome key) rs)) (sym e)
          (give-sets (Reads g) g.0 g.1 (outcome key) rs (λ r c. by_name key g r n c)))
  give_all-Within key h (g ∷ hs) rs (n, ns) (inr w) =
      give_all-Within key h hs (give g (outcome key) rs) ns w

  give_groups-Reads :
      (h : Holder) (gs : List (VisibleKey × List Holder)) (rs : List (Result F))
      → IsGrouped all gs
      → At (Reads h) h.0 rs
      → At (Reads h) h.0 (give_groups gs outcome rs)
  give_groups-Reads h [] rs g a = a
  give_groups-Reads h ((key, hs) ∷ gs) rs (n, g) a =
      give_groups-Reads h gs (give_all hs (outcome key) rs) g (give_all-Reads key h hs rs n a)

  pub give_groups-Held :
      (h : Holder) (gs : List (VisibleKey × List Holder)) (rs : List (Result F))
      → IsGrouped all gs
      → Held h gs
      → At (Reads h) h.0 (give_groups gs outcome rs)
  give_groups-Held h [] rs g w = elim w [ ]
  give_groups-Held h ((key, hs) ∷ gs) rs (n, g) (inl w) =
      give_groups-Reads h gs (give_all hs (outcome key) rs) g (give_all-Within key h hs rs n w)
  give_groups-Held h ((key, hs) ∷ gs) rs (n, g) (inr w) =
      give_groups-Held h gs (give_all hs (outcome key) rs) g w

-- ===== src/Bench/Plan/Cells.antt =====
-- The runs that `plan` plans (src/core/bench/runner.go).
use mathlib.Core.Path.{subst}
use foliot.Common.{
  ℕ, zero, suc, ◌+◌, ◌≤◌, ◌<◌, ℤ, pos, negsuc, ltb_ℤ, ◌≡◌, ◌⊎◌, ◌↔◌, inl, inr, refl, sym, ap, ◌∙◌,
  true, false, List, [], ◌∷◌, ◌++◌, map, arith, Bool-cases,
}
use foliot.Common.Float.{Float}
use foliot.Bench.Profile.{Arm, repeats_of}
use foliot.Bench.Plan.{Task, Planned, count_up, repeat_list, cap_for, plan_task, plan_arm, plan}

abbrev pub In : {A : Type 0} → A → List A → Type 0
In x [] = ⊥
In x (y ∷ ys) = (x ≡ y) ⊎ In x ys

In-append : {A : Type 0} (x : A) (xs ys : List A) → In x (xs ++ ys) ↔ (In x xs ⊎ In x ys)
In-append x [] ys = ((λ h. inr h), λ h. elim h [ inl e ↦ absurd e | inr i ↦ i ])
In-append x (y ∷ xs) ys = (
  (λ h. elim h [
    | inl e ↦ inl (inl e)
    | inr i ↦ elim ((In-append x xs ys).0 i) [ inl a ↦ inl (inr a) | inr b ↦ inr b ]
  ]),
  λ h. elim h [
    | inl a ↦ elim a [ inl e ↦ inl e | inr i ↦ inr ((In-append x xs ys).1 (inl i)) ]
    | inr b ↦ inr ((In-append x xs ys).1 (inr b))
  ],
)

In-map :
    {A B : Type 0} (f : A → B) (y : B) (xs : List A)
    → In y (map f xs) ↔ ((x : A) × In x xs × (y ≡ f x))
In-map f y [] = ((λ h. absurd h), λ (x, i, e). absurd i)
In-map f y (z ∷ xs) = (
  (λ h. elim h [
    | inl e ↦ (z, inl refl, e)
    | inr i ↦ (let (x, j, e) = (In-map f y xs).0 i in (x, inr j, e))
  ]),
  λ (x, i, e). elim i [ inl p ↦ inl (e ∙ ap f p) | inr j ↦ inr ((In-map f y xs).1 (x, j, e)) ],
)

In-count_up :
    (z : ℤ) (i n : ℕ) → In z (count_up i n) ↔ ((k : ℕ) × (z ≡ pos k) × (i ≤ k) × (k < i + n))
In-count_up z i zero = ((λ h. absurd h), λ (k, e, a, b). absurd (omega (arith, a, b)))
In-count_up z i (suc n) = (
  (λ h. elim h [
    | inl e ↦ (i, e, omega arith, omega arith)
    | inr r ↦
        (let (k, e, a, b) = (In-count_up z (suc i) n).0 r in
          (k, e, omega (arith, a), omega (arith, b)))
  ]),
  λ (k, e, a, b). elim (later k i n a b) [
    | inl p ↦ inl (e ∙ ap pos p)
    | inr (c, d) ↦ inr ((In-count_up z (suc i) n).1 (k, e, c, d))
  ],
)
  where
    later : (k i n : ℕ) → i ≤ k → k < i + suc n → (k ≡ i) ⊎ ((suc i ≤ k) × (k < suc i + n))
    later k i n a b = ground (arith, a, b)

-- A repeat from 1 up to the number of the arm, or where that is not positive, of the sweep.
pub data IsRepeat (own sweep : ℤ) : ℤ → Type 0 where
  of_arm : {m n : ℕ} → own ≡ pos m → 0 < n → n ≤ m → IsRepeat own sweep (pos n)
  of_sweep :
      {m n : ℕ}
      → ltb_ℤ (pos 0) own ≡ false
      → sweep ≡ pos m
      → 0 < n
      → n ≤ m
      → IsRepeat own sweep (pos n)

In-repeat_list :
    (z n : ℤ) → In z (repeat_list n) ↔ ((k m : ℕ) × (z ≡ pos k) × (n ≡ pos m) × (0 < k) × (k ≤ m))
In-repeat_list z (pos m) = (
  (λ h.
      let (k, e, a, b) = (In-count_up z 1 m).0 h in
      (k, m, e, refl, omega (arith, a), omega (arith, b))),
  λ (k, x, e, p, a, b). (In-count_up z 1 m).1 (k, e, omega (arith, a), below k x (pos-inj p) b),
)
  where
    pos-inj : {a b : ℕ} → pos a ≡ pos b → a ≡ b
    pos-inj e = cc

    below : (k x : ℕ) → m ≡ x → k ≤ x → k < 1 + m
    below k x p b = omega (arith, p, b)
In-repeat_list z (negsuc m) = ((λ h. absurd h), λ (k, x, e, p, a, b). absurd cc)

module _ {F : Type 0} where
  repeats_of-IsRepeat :
      (a : Arm F) (sweep z : ℤ)
      → In z (repeat_list (repeats_of a sweep)) ↔ IsRepeat a.repeats sweep z
  repeats_of-IsRepeat a sweep z = elim (Bool-cases (ltb_ℤ (pos 0) a.repeats)) [
    | inl t ↦ rw t (
      (λ h.
          let (k, m, e, p, x, y) = (In-repeat_list z a.repeats).0 h in
          subst (IsRepeat a.repeats sweep) (sym e) (IsRepeat.of_arm p x y)),
      λ h. (In-repeat_list z a.repeats).1 (own a.repeats z t h),
    )
    | inr f ↦ rw f (
      (λ h.
          let (k, m, e, p, x, y) = (In-repeat_list z sweep).0 h in
          subst (IsRepeat a.repeats sweep) (sym e) (IsRepeat.of_sweep f p x y)),
      λ h. (In-repeat_list z sweep).1 (other a.repeats z f h),
    )
  ]
    where
      own :
          (o z : ℤ)
          → ltb_ℤ (pos 0) o ≡ true
          → IsRepeat o sweep z
          → (k m : ℕ) × (z ≡ pos k) × (o ≡ pos m) × (0 < k) × (k ≤ m)
      own o z t (IsRepeat.of_arm p x y) = (_, _, refl, p, x, y)
      own o z t (IsRepeat.of_sweep f p x y) = absurd (ground (arith, t, f))

      other :
          (o z : ℤ)
          → ltb_ℤ (pos 0) o ≡ false
          → IsRepeat o sweep z
          → (k m : ℕ) × (z ≡ pos k) × (sweep ≡ pos m) × (0 < k) × (k ≤ m)
      other o z f (IsRepeat.of_arm {m} p x y) =
          absurd (positive m (omega (arith, x, y)) (ap (ltb_ℤ (pos 0)) (sym p) ∙ f))
        where
          positive : (m : ℕ) → 0 < m → ltb_ℤ (pos 0) (pos m) ≡ false → ⊥
          positive m h n = ground (arith, h, n)
      other o z f (IsRepeat.of_sweep g p x y) = (_, _, refl, p, x, y)

module _ (fl : Float) where
  -- The cap of the command where it is positive, else the arm's.
  abbrev pub IsCap : fl.F → Arm fl.F → fl.F → Type 0
  IsCap cap a c =
      ((fl.lt_f fl.zero_f cap ≡ true) × (c ≡ cap))
      ⊎ ((fl.lt_f fl.zero_f cap ≡ false) × (c ≡ a.cap_usd))

  cap_for-IsCap : (cap : fl.F) (a : Arm fl.F) (c : fl.F) → (c ≡ cap_for fl cap a) ↔ IsCap cap a c
  cap_for-IsCap cap a c = elim (Bool-cases (fl.lt_f fl.zero_f cap)) [
    | inl t ↦ rw t (
      (λ e. inl (refl, e)),
      λ h. elim h [ inl (x, e) ↦ e | inr (x, e) ↦ absurd (ground (arith, x)) ],
    )
    | inr f ↦ rw f (
      (λ e. inr (refl, e)),
      λ h. elim h [ inl (x, e) ↦ absurd (ground (arith, x)) | inr (x, e) ↦ e ],
    )
  ]

  -- A run of one of the arms and one of the tasks, at one of their repeats and with their cap.
  pub record IsPlanned (arms : List (Arm fl.F)) (tasks : List Task) (repeats : ℤ) (cap : fl.F)
      (r : Planned fl.F) : Type 0 where
    pub of_arm : In r.arm arms
    pub of_task : In r.task tasks
    pub of_repeat : IsRepeat r.arm.repeats repeats r.repeat
    pub of_cap : IsCap cap r.arm r.cap

  abbrev made : Arm fl.F → Task → fl.F → ℤ → Planned fl.F
  made a t cap z = record { arm = a; task = t; repeat = z; cap = cap_for fl cap a }

  In-plan_task :
      (a : Arm fl.F) (t : Task) (repeats : ℤ) (cap : fl.F) (r : Planned fl.F)
      → In r (plan_task fl a repeats cap t)
        ↔ ((r.arm ≡ a) × (r.task ≡ t) × IsRepeat a.repeats repeats r.repeat × IsCap cap a r.cap)
  In-plan_task a t repeats cap r =
      let (to, from) = In-map (made a t cap) r (repeat_list (repeats_of a repeats)) in
      (
        (λ h.
            let (z, i, e) = to h in
            (
              ap (λ (x : Planned fl.F). x.arm) e,
              ap (λ (x : Planned fl.F). x.task) e,
              subst (IsRepeat a.repeats repeats) (sym (ap (λ (x : Planned fl.F). x.repeat) e))
                  ((repeats_of-IsRepeat a repeats z).0 i),
              (cap_for-IsCap cap a r.cap).0 (ap (λ (x : Planned fl.F). x.cap) e),
            )),
        λ (p, q, i, c). from (
          r.repeat,
          (repeats_of-IsRepeat a repeats r.repeat).1 i,
          same p q ((cap_for-IsCap cap a r.cap).1 c),
        ),
      )
    where
      same : r.arm ≡ a → r.task ≡ t → r.cap ≡ cap_for fl cap a → r ≡ made a t cap r.repeat
      same p q c = cc

  In-plan_arm :
      (ts : List Task) (a : Arm fl.F) (repeats : ℤ) (cap : fl.F) (r : Planned fl.F)
      → In r (plan_arm fl ts repeats cap a)
        ↔ ((r.arm ≡ a) × In r.task ts × IsRepeat a.repeats repeats r.repeat × IsCap cap a r.cap)
  In-plan_arm [] a repeats cap r = ((λ h. absurd h), λ (p, i, x, c). absurd i)
  In-plan_arm (t ∷ ts) a repeats cap r = (
    (λ h. elim ((In-append r (plan_task fl a repeats cap t) _).0 h) [
      | inl i ↦ (let (p, q, x, c) = (In-plan_task a t repeats cap r).0 i in (p, inl q, x, c))
      | inr i ↦ (let (p, q, x, c) = (In-plan_arm ts a repeats cap r).0 i in (p, inr q, x, c))
    ]),
    λ (p, i, x, c). (In-append r (plan_task fl a repeats cap t) _).1 (elim i [
      | inl q ↦ inl ((In-plan_task a t repeats cap r).1 (p, q, x, c))
      | inr j ↦ inr ((In-plan_arm ts a repeats cap r).1 (p, j, x, c))
    ]),
  )

  -- A plan has exactly the runs of one of the arms and one of the tasks, at a repeat from 1 up to the arm's
  -- number or else the sweep's, and with the command's cap or else the arm's.
  pub plan-IsPlanned :
      (arms : List (Arm fl.F)) (tasks : List Task) (repeats : ℤ) (cap : fl.F) (r : Planned fl.F)
      → In r (plan fl arms tasks repeats cap) ↔ IsPlanned arms tasks repeats cap r
  unfolding plan
  plan-IsPlanned [] tasks repeats cap r = ((λ h. absurd h), λ x. absurd x.of_arm)
  plan-IsPlanned (a ∷ arms) tasks repeats cap r = (
    (λ h. elim ((In-append r (plan_arm fl tasks repeats cap a) _).0 h) [
      | inl i ↦
          (let (p, q, x, c) = (In-plan_arm tasks a repeats cap r).0 i in
            record {
              of_arm = inl p;
              of_task = q;
              of_repeat = subst (λ (b : Arm fl.F). IsRepeat b.repeats repeats r.repeat) (sym p) x;
              of_cap = subst (λ b. IsCap cap b r.cap) (sym p) c;
            })
      | inr i ↦
          (let x = (plan-IsPlanned arms tasks repeats cap r).0 i in
            record {
              of_arm = inr x.of_arm;
              of_task = x.of_task;
              of_repeat = x.of_repeat;
              of_cap = x.of_cap;
            })
    ]),
    λ x. (In-append r (plan_arm fl tasks repeats cap a) _).1 (elim x.of_arm [
      | inl p ↦ inl (
          (In-plan_arm tasks a repeats cap r).1 (
            p,
            x.of_task,
            subst (λ (b : Arm fl.F). IsRepeat b.repeats repeats r.repeat) p x.of_repeat,
            subst (λ b. IsCap cap b r.cap) p x.of_cap,
          ))
      | inr i ↦ inr (
          (plan-IsPlanned arms tasks repeats cap r).1 (record {
            of_arm = i;
            of_task = x.of_task;
            of_repeat = x.of_repeat;
            of_cap = x.of_cap;
          }))
    ]),
  )

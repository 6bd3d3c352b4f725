-- ===== src/Bench/Corpus/Sound.antt =====
-- The records that `LoadTask` accepts (src/core/bench/corpus.go).
use text.Mathlib.TextEquality.{eq_iff}
use foliot.Common.{
  ℕ, String, ◌≡◌, ◌≢◌, ◌↔◌, ◌⊎◌, ◌≤◌, refl, ap, codes, Bool, true, false, not, ◌&&◌, ◌||◌, some,
  List, [], ◌∷◌, ◌++◌, if◌then◌else◌, ◌=s=◌, contains, is_none, length, ltb, ◌==◌, All, arith, inl,
  inr,
}
use foliot.Bench.Strings.{includes}
use foliot.Bench.Corpus.{Packages, TaskRecord, Manifest, Marker, classes}
use foliot.Bench.Corpus.Load.{
  when, is_sha, is_slug, blank, named_fields, empty_fields, check_shas, check_pull, check_markers,
  carried, request_refusals, record_refusals, names_sha, load_task,
}

pub when-nil {ℓ} : {R : Type ℓ} (c : Bool) (r : R) → (when c r ≡ []) ↔ (c ≡ false)
when-nil true r = ((λ h. absurd cc), λ h. absurd cc)
when-nil false r = ((λ h. refl), λ h. refl)

pub append-nil_iff {ℓ} : {R : Type ℓ} (xs ys : List R) → (xs ++ ys ≡ []) ↔ ((xs ≡ []) × (ys ≡ []))
append-nil_iff [] ys = ((λ h. (refl, h)), λ (a, b). b)
append-nil_iff (x ∷ xs) ys = ((λ h. absurd cc), λ (a, b). absurd cc)

-- A list of two parts is empty when what holds of each part holds.
both {ℓ} :
    {R : Type ℓ} {P Q : Type 0} (xs ys : List R)
    → (xs ≡ []) ↔ P
    → (ys ≡ []) ↔ Q
    → (xs ++ ys ≡ []) ↔ (P × Q)
both xs ys i j = (
  (λ h. let (a, b) = (append-nil_iff xs ys).0 h in (i.0 a, j.0 b)),
  λ (p, q). (append-nil_iff xs ys).1 (i.1 p, j.1 q),
)

-- A refusal is not made where its condition, read as a proposition, fails.
unless {ℓ} : {R : Type ℓ} {P : Type 0} (c : Bool) (r : R) → (c ≡ false) ↔ P → (when c r ≡ []) ↔ P
unless c r i = ((λ h. i.0 ((when-nil c r).0 h)), λ p. (when-nil c r).1 (i.1 p))

-- Nor is either of two, where the second is asked only without the first.
unless_either {ℓ} :
    {R : Type ℓ} {P Q : Type 0} (c d : Bool) (r s : R)
    → (c ≡ false) ↔ P
    → (d ≡ false) ↔ Q
    → ((if c then r ∷ [] else when d s) ≡ []) ↔ (P × Q)
unless_either true d r s i j = ((λ h. absurd cc), λ (p, q). absurd (ground (arith, i.1 p)))
unless_either false d r s i j =
    ((λ h. (i.0 refl, (unless d s j).0 h)), λ (p, q). (unless d s j).1 q)

full_iff : (a b : Bool) → ((not a || not b) ≡ false) ↔ ((a ≡ true) × (b ≡ true))
full_iff a b = ground arith

not_same : (a b : String) → (not (a =s= b) ≡ false) ↔ (a ≡ b)
not_same a b = ((λ h. (eq_iff a b).0 (ground arith)), λ e. ap not ((eq_iff a b).1 e))

not-true : (b : Bool) → (not b ≡ false) ↔ (b ≡ true)
not-true b = ground arith

differ : (a b : String) → ((a =s= b) ≡ false) ↔ (a ≢ b)
differ a b = ground (arith, eq_iff a b)

scope_iff :
    (fs : List String) (d : Bool) → (((length fs == 0) && not d) ≡ false) ↔ ((fs ≢ []) ⊎ (d ≡ true))
scope_iff fs true = ((λ h. inr refl), λ p. ground arith)
scope_iff [] false = ((λ h. absurd cc), λ p. elim p [ inl n ↦ absurd (n refl) | inr e ↦ absurd cc ])
scope_iff (f ∷ fs) false = ((λ h. inl (λ e. cc)), λ p. ground arith)

short_iff : (n : ℕ) → (ltb 4000 n ≡ false) ↔ (n ≤ 4000)
short_iff n = ground arith

link_iff :
    (p r : String) → ((not (p =s= "") && includes r p) ≡ false) ↔ (p ≢ "" → includes r p ≡ false)
link_iff p r = ground (arith, eq_iff p "")

shas-nil :
    (a b : String) → (check_shas a b ≡ []) ↔ (((is_sha a ≡ true) × (is_sha b ≡ true)) × (a ≢ b))
shas-nil a b = unless_either _ _ _ _ (full_iff (is_sha a) (is_sha b)) (differ a b)

empty_fields-nil :
    (fs : List (String × String)) → (empty_fields fs ≡ []) ↔ All (λ f. blank f.1 ≡ false) fs
empty_fields-nil [] = ((λ h. tt), λ h. refl)
empty_fields-nil (f ∷ fs) =
    both (when (blank f.1) _) (empty_fields fs) (when-nil (blank f.1) _) (empty_fields-nil fs)

module _ (k : Packages) where
  markers-nil :
      (ms : List (Marker k)) (text : String)
      → (check_markers k ms text ≡ []) ↔ All (λ m. k.finds m.re text ≡ false) ms
  markers-nil [] text = ((λ h. tt), λ h. refl)
  markers-nil (m ∷ ms) text =
      both (when (k.finds m.re text) _) (check_markers k ms text) (when-nil (k.finds m.re text) _)
        (markers-nil ms text)

  -- What criteria 2, 5 and 6 and the record's shape ask of a task, field by field.
  pub record IsSound (m : Manifest k) (dir : String) (t : TaskRecord) : Type 0 where
    pub in_directory : t.id ≡ dir
    pub slug : is_slug t.id ≡ true
    pub registered : contains t.class classes ≡ true
    pub pinned : (is_sha t.base_sha ≡ true) × (is_sha t.landed_sha ≡ true)
    pub moves : t.base_sha ≢ t.landed_sha
    pub written : All (λ f. blank f.1 ≡ false) (named_fields t)
    pub timed : is_none (k.parse_time t.clock_at) ≡ false
    pub scoped : (t.scope.files ≢ []) ⊎ (t.scope.discover ≡ true)
    pub sealed : k.digest t.request ≡ t.request_sha256
    pub pulled : is_none (k.pull_request t.pull_request) ≡ false
    pub named : includes t.history.text t.pull_request ≡ true
    pub plain : All (λ r. k.finds r.re (carried k t) ≡ false) m.refusals
    pub short : length (codes t.request) ≤ 4000
    pub asked : blank t.request ≡ false
    pub no_diff : k.has_diff t.request ≡ false
    pub no_link : t.pull_request ≢ "" → includes t.request t.pull_request ≡ false
    pub no_sha : names_sha t.request t.landed_sha ≡ false

  record-nil :
      (dir : String) (t : TaskRecord)
      → (record_refusals k dir t ≡ []) ↔ (
          (t.id ≡ dir)
          × ((is_slug t.id ≡ true)
              × ((contains t.class classes ≡ true)
                  × ((((is_sha t.base_sha ≡ true) × (is_sha t.landed_sha ≡ true))
                        × (t.base_sha ≢ t.landed_sha))
                      × (All (λ f. blank f.1 ≡ false) (named_fields t)
                          × ((is_none (k.parse_time t.clock_at) ≡ false)
                              × (((t.scope.files ≢ []) ⊎ (t.scope.discover ≡ true))
                                  × (k.digest t.request ≡ t.request_sha256))))))))
  record-nil dir t = both _ _ (unless _ _ (not_same t.id dir)) (
      both _ _ (unless _ _ (not-true (is_slug t.id))) (
        both _ _ (unless _ _ (not-true (contains t.class classes))) (
          both _ _ (shas-nil t.base_sha t.landed_sha) (
            both _ _ (empty_fields-nil (named_fields t)) (
              both _ _ (when-nil (is_none (k.parse_time t.clock_at)) _) (
                both _ _ (unless _ _ (scope_iff t.scope.files t.scope.discover))
                  (unless _ _ (not_same (k.digest t.request) t.request_sha256))))))))

  pull-nil :
      (t : TaskRecord)
      → (check_pull k t ≡ []) ↔ (
          (is_none (k.pull_request t.pull_request) ≡ false)
          × (includes t.history.text t.pull_request ≡ true))
  pull-nil t =
      unless_either _ _ _ _ ((λ h. h), λ h. h) (not-true (includes t.history.text t.pull_request))

  request-nil :
      (t : TaskRecord)
      → (request_refusals k t ≡ []) ↔ (
          (length (codes t.request) ≤ 4000)
          × ((blank t.request ≡ false)
              × ((k.has_diff t.request ≡ false)
                  × ((t.pull_request ≢ "" → includes t.request t.pull_request ≡ false)
                      × (names_sha t.request t.landed_sha ≡ false)))))
  request-nil t = both _ _ (unless _ _ (short_iff (length (codes t.request)))) (
      both _ _ (when-nil (blank t.request) _) (
        both _ _ (when-nil (k.has_diff t.request) _) (
          both _ _ (unless _ _ (link_iff t.pull_request t.request))
            (when-nil (names_sha t.request t.landed_sha) _))))

  -- A record that reads is accepted without a refusal exactly when it is sound.
  pub load_task-IsSound :
      (m : Manifest k) (dir : String) (t : TaskRecord)
      → ((load_task k m dir (some t)).1 ≡ []) ↔ IsSound m dir t
  unfolding load_task
  load_task-IsSound m dir t =
      let i = both (record_refusals k dir t) _ (record-nil dir t) (
        both (check_pull k t) _ (pull-nil t) (
          both (check_markers k m.refusals (carried k t)) _ (markers-nil m.refusals (carried k t))
            (request-nil t))) in
      (
        (λ h.
            let (
              (directory, (slug, (class, ((pinned, moves), (written, (timed, (scoped, sealed))))))),
              ((pulled, named), (plain, (short, (asked, (no_diff, (no_link, no_sha)))))),
            ) =
              i.0 h in
            record {
              in_directory = directory;
              slug = slug;
              registered = class;
              pinned = pinned;
              moves = moves;
              written = written;
              timed = timed;
              scoped = scoped;
              sealed = sealed;
              pulled = pulled;
              named = named;
              plain = plain;
              short = short;
              asked = asked;
              no_diff = no_diff;
              no_link = no_link;
              no_sha = no_sha;
            }),
        λ s. i.1 (
          (
            s.in_directory,
            (
              s.slug,
              (s.registered, ((s.pinned, s.moves), (s.written, (s.timed, (s.scoped, s.sealed))))),
            ),
          ),
          (
            (s.pulled, s.named),
            (s.plain, (s.short, (s.asked, (s.no_diff, (s.no_link, s.no_sha))))),
          ),
        ),
      )

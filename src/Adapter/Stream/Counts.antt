-- ===== src/Adapter/Stream/Counts.antt =====
-- What `Read` counts and keeps of a whole stream (src/adapters/claude-code/stream.go).
use mathlib.Core.List.{append-nil, append_assoc}
use mathlib.Core.Path.{subst}
use text.Mathlib.TextEquality.{eq_iff}
use foliot.Common.{
  ℕ, ◌+◌, String, ◌≡◌, refl, sym, ap, ◌∙◌, Bool, false, not, ◌&&◌, ◌||◌, Option, none, some, List,
  [], ◌∷◌, ◌++◌, if◌then◌else◌, ◌=s=◌, contains, arith, if-induct, Bool-cases, inl, inr,
}
use foliot.Adapter.Stream.Ids.{Distinct, contains-insert_id, Distinct-insert_id}
use foliot.Adapter.Stream.{
  Block, Denial, Outcome, StreamEvent, StreamLine, skipped, event, is_denial, insert_id, Seen,
  see_blocks, see_block, see_denials, see_result, see_message, see_system, see_event, see_lines,
  collect_strings, add_input, billing_of,
}

-- The tool calls among blocks, and whether one of them is a refusal of a call.
abbrev pub uses_in : List Block → ℕ
uses_in [] = 0
uses_in (b ∷ bs) = let n = uses_in bs in if b.typ =s= "tool_use" then n + 1 else n

abbrev pub is_refusal : String → Block → Bool
is_refusal i b =
    not (b.typ =s= "tool_use")
    && ((b.typ =s= "tool_result") && (b.is_error && (is_denial b.content && (b.tool_use_id =s= i))))

abbrev pub refused_in : String → List Block → Bool
refused_in i [] = false
refused_in i (b ∷ bs) = is_refusal i b || refused_in i bs

abbrev pub named_in : String → List Denial → Bool
named_in i [] = false
named_in i (d ∷ ds) = (d.tool_use_id =s= i) || named_in i ds

abbrev pub blocks_of : Option (List Block) → List Block
blocks_of none = []
blocks_of (some bs) = bs

module _ {F : Type 0} where
  -- What a part of a stream adds: calls, texts, refused ids, and the result it leaves.
  pub record Adds (s t : Seen F) (uses : ℕ) (texts : List String) (refuses : String → Bool)
      (o : Option (Outcome F)) : Type 0 where
    pub counted : t.tool_uses ≡ s.tool_uses + uses
    pub kept : t.texts ≡ s.texts ++ texts
    pub denies : (i : String) → contains i t.denied ≡ (contains i s.denied || refuses i)
    pub distinct : Distinct s.denied → Distinct t.denied
    pub ends : t.outcome ≡ o

  Adds-nothing : (s : Seen F) → Adds s s 0 [] (λ i. false) s.outcome
  Adds-nothing s = record {
    counted = omega arith;
    kept = sym (append-nil s.texts);
    denies = λ i. ground arith;
    distinct = λ d. d;
    ends = refl;
  }

  Adds-more :
      (s t u : Seen F) (m n : ℕ) (xs ys : List String) (f g : String → Bool)
      (o p : Option (Outcome F))
      → Adds s t m xs f o
      → Adds t u n ys g p
      → Adds s u (m + n) (xs ++ ys) (λ i. f i || g i) p
  Adds-more s t u m n xs ys f g o p a b = record {
    counted = omega (arith, a.counted, b.counted);
    kept = b.kept ∙ ap (λ zs. zs ++ ys) a.kept ∙ append_assoc s.texts xs ys;
    denies = λ i. ground (arith, a.denies i, b.denies i);
    distinct = λ d. b.distinct (a.distinct d);
    ends = b.ends;
  }

  Adds-same :
      (s t : Seen F) (m n : ℕ) (xs ys : List String) (f g : String → Bool)
      (o p : Option (Outcome F))
      → Adds s t m xs f o
      → m ≡ n
      → xs ≡ ys
      → ((i : String) → f i ≡ g i)
      → o ≡ p
      → Adds s t n ys g p
  Adds-same s t m n xs ys f g o p a em ex eg eo = record {
    counted = omega (arith, a.counted, em);
    kept = a.kept ∙ ap (λ zs. s.texts ++ zs) ex;
    denies = λ i. a.denies i ∙ ap (λ b. contains i s.denied || b) (eg i);
    distinct = a.distinct;
    ends = a.ends ∙ eo;
  }

  block_step :
      (b : Block) (s : Seen F)
      → Adds s (see_block b s) (uses_in (b ∷ [])) [] (λ i. is_refusal i b) s.outcome
  block_step b s = elim (Bool-cases (b.typ =s= "tool_use")) [
    | inl t ↦ rw t (record {
      counted = omega arith;
      kept = sym (append-nil s.texts);
      denies = λ i. ground arith;
      distinct = λ d. d;
      ends = refl;
    })
    | inr f ↦ elim (Bool-cases ((b.typ =s= "tool_result") && (b.is_error && is_denial b.content))) [
      | inl t ↦
          rw (f, t)
            (record {
              counted = omega arith;
              kept = sym (append-nil s.texts);
              denies = λ i. ground (arith, t, contains-insert_id i b.tool_use_id s.denied);
              distinct = Distinct-insert_id b.tool_use_id s.denied;
              ends = refl;
            })
      | inr g ↦
          rw (f, g)
            (record {
              counted = omega arith;
              kept = sym (append-nil s.texts);
              denies = λ i. ground (arith, g);
              distinct = λ d. d;
              ends = refl;
            })
    ]
  ]

  see_blocks-Adds :
      (bs : List Block) (s : Seen F)
      → Adds s (see_blocks bs s) (uses_in bs) [] (λ i. refused_in i bs) s.outcome
  see_blocks-Adds [] s = Adds-nothing s
  see_blocks-Adds (b ∷ bs) s =
      Adds-same s (see_blocks bs (see_block b s)) _ (uses_in (b ∷ bs)) _ [] _ _ _ _
        (Adds-more s (see_block b s) _ (uses_in (b ∷ [])) (uses_in bs) [] [] _
          (λ i. refused_in i bs) _ _ (block_step b s) (see_blocks-Adds bs (see_block b s)))
        (ground arith) refl (λ i. refl) (block_step b s).ends

  abbrev deny_one : Denial → Seen F → Seen F
  deny_one d s = record s {
    denied = insert_id d.tool_use_id s.denied;
    inputs = add_input d.tool_use_id d.tool_input s.inputs;
  }

  deny_step :
      (d : Denial) (s u : Seen F) (f : String → Bool)
      → Adds (deny_one d s) u 0 [] f s.outcome
      → Adds s u 0 [] (λ i. (d.tool_use_id =s= i) || f i) s.outcome
  deny_step d s u f r = record {
    counted = r.counted;
    kept = r.kept;
    denies = λ i. ground (arith, r.denies i, contains-insert_id i d.tool_use_id s.denied);
    distinct = λ x. r.distinct (Distinct-insert_id d.tool_use_id s.denied x);
    ends = r.ends;
  }

  see_denials-Adds :
      (ds : List Denial) (s : Seen F)
      → Adds s (see_denials ds s) 0 [] (λ i. named_in i ds) s.outcome
  see_denials-Adds [] s = Adds-nothing s
  see_denials-Adds (d ∷ ds) s =
      deny_step d s (see_denials ds (deny_one d s)) (λ i. named_in i ds)
        (see_denials-Adds ds (deny_one d s))

  -- What one event adds by itself: the calls of a message, the texts of any event, the refusals of a
  -- message or of a result, and the result that it leaves after an earlier one.
  abbrev pub message_blocks : StreamEvent F → List Block
  message_blocks e =
      if (e.typ =s= "assistant") || (e.typ =s= "user") then blocks_of e.blocks else []

  abbrev denials_of : Option (Outcome F) → List Denial
  denials_of none = []
  denials_of (some r) = r.permission_denials

  abbrev pub result_denials : StreamEvent F → List Denial
  result_denials e = if e.typ =s= "result" then denials_of e.outcome else []

  abbrev pub uses : List (StreamLine F) → ℕ
  uses [] = 0
  uses (skipped ∷ ls) = uses ls
  uses (event e ∷ ls) = uses_in (message_blocks e) + uses ls

  abbrev pub texts : List (StreamLine F) → List String
  texts [] = []
  texts (skipped ∷ ls) = texts ls
  texts (event e ∷ ls) = collect_strings e.value ++ texts ls

  abbrev pub is_denied : String → List (StreamLine F) → Bool
  is_denied i [] = false
  is_denied i (skipped ∷ ls) = is_denied i ls
  is_denied i (event e ∷ ls) =
      (refused_in i (message_blocks e) || named_in i (result_denials e)) || is_denied i ls

  abbrev pub last_result : Option (Outcome F) → List (StreamLine F) → Option (Outcome F)
  last_result o [] = o
  last_result o (skipped ∷ ls) = last_result o ls
  last_result o (event e ∷ ls) = last_result (if e.typ =s= "result" then e.outcome else o) ls

  -- An event that counts nothing, whatever else it sets.
  Adds-texts :
      (s t : Seen F) (xs : List String) (o : Option (Outcome F))
      → t.tool_uses ≡ s.tool_uses
      → t.texts ≡ s.texts ++ xs
      → t.denied ≡ s.denied
      → t.outcome ≡ o
      → Adds s t 0 xs (λ i. false) o
  Adds-texts s t xs o u k d e = record {
    counted = omega (arith, u);
    kept = k;
    denies = λ i. ap (contains i) d ∙ ground arith;
    distinct = λ x. subst Distinct (sym d) x;
    ends = e;
  }

  abbrev init_seen : StreamEvent F → Seen F → Seen F
  init_seen e t = record t {
    model = e.model;
    version = e.version;
    billing = billing_of e.api_key_source t.billing;
  }

  see_system-Adds :
      (e : StreamEvent F) (s t : Seen F) (xs : List String)
      → Adds s t 0 xs (λ i. false) t.outcome
      → Adds s (see_system e t) 0 xs (λ i. false) t.outcome
  see_system-Adds e s t xs a =
      if-induct (λ u. Adds s u 0 xs (λ i. false) t.outcome) (e.subtype =s= "init") (init_seen e t) t
        (λ _. record {
          counted = a.counted;
          kept = a.kept;
          denies = a.denies;
          distinct = a.distinct;
          ends = a.ends;
        })
        (λ _. a)

  see_result-Adds :
      (o : Option (Outcome F)) (s t : Seen F) (xs : List String)
      → ((p : Option (Outcome F)) → Adds s (record t { outcome = p }) 0 xs (λ i. false) p)
      → Adds s (see_result o t) 0 xs (λ i. named_in i (denials_of o)) o
  see_result-Adds none s t xs a = a none
  see_result-Adds (some r) s t xs a =
      Adds-same s (see_result (some r) t) _ 0 _ xs _ _ _ _
        (Adds-more s (record t { outcome = some r }) (see_result (some r) t) 0 0 xs [] _
          (λ i. named_in i r.permission_denials) _ _ (a (some r))
          (see_denials-Adds r.permission_denials (record t { outcome = some r })))
        refl (append-nil xs) (λ i. refl) refl

  see_message-Adds :
      (o : Option (List Block)) (s t : Seen F) (xs : List String)
      → Adds s t 0 xs (λ i. false) t.outcome
      → Adds s
          (see_message o t)
          (uses_in (blocks_of o))
          xs
          (λ i. refused_in i (blocks_of o))
          t.outcome
  see_message-Adds none s t xs a = a
  see_message-Adds (some bs) s t xs a =
      Adds-same s (see_blocks bs t) _ (uses_in bs) _ xs _ _ _ _
        (Adds-more s t (see_blocks bs t) 0 (uses_in bs) xs [] _ (λ i. refused_in i bs) _ _ a
          (see_blocks-Adds bs t))
        (omega arith) (append-nil xs) (λ i. refl) refl

  see_event-Adds :
      (e : StreamEvent F) (s : Seen F)
      → Adds s
          (see_event e s)
          (uses_in (message_blocks e))
          (collect_strings e.value)
          (λ i. refused_in i (message_blocks e) || named_in i (result_denials e))
          (if e.typ =s= "result" then e.outcome else s.outcome)
  unfolding see_event
  see_event-Adds e s =
      let u = record s { texts = s.texts ++ collect_strings e.value } in
      let a = Adds-texts s u (collect_strings e.value) s.outcome refl refl refl refl in
      elim (Bool-cases (e.typ =s= "system")) [
        | inl t ↦
            rw ((eq_iff e.typ "system").0 t) (see_system-Adds e s u (collect_strings e.value) a)
        | inr f ↦ elim (Bool-cases (e.typ =s= "rate_limit_event")) [
          | inl t ↦
              rw ((eq_iff e.typ "rate_limit_event").0 t)
                (Adds-texts s _ (collect_strings e.value) s.outcome refl refl refl refl)
          | inr g ↦ elim (Bool-cases (e.typ =s= "result")) [
            | inl t ↦ rw ((eq_iff e.typ "result").0 t) (
                see_result-Adds e.outcome s u (collect_strings e.value)
                  (λ p. Adds-texts s _ (collect_strings e.value) p refl refl refl refl))
            | inr h ↦
                rw (f, g, h)
                  (elim (Bool-cases ((e.typ =s= "assistant") || (e.typ =s= "user"))) [
                    | inl y ↦ rw y (
                        Adds-same s _ _ _ _ _ _ _ _ _
                          (see_message-Adds e.blocks s u (collect_strings e.value) a) refl refl
                          (λ i. ground arith) refl)
                    | inr n ↦ rw n a
                  ])
          ]
        ]
      ]

  -- The loop over a whole stream.
  pub see_lines-Adds :
      (ls : List (StreamLine F)) (s : Seen F)
      → Adds s
          (see_lines ls s)
          (uses ls)
          (texts ls)
          (λ i. is_denied i ls)
          (last_result s.outcome ls)
  unfolding see_lines
  see_lines-Adds [] s = Adds-nothing s
  see_lines-Adds (skipped ∷ ls) s = see_lines-Adds ls s
  see_lines-Adds (event e ∷ ls) s =
      Adds-same s (see_lines ls (see_event e s)) _ _ _ _ _ _ _ _
        (Adds-more s (see_event e s) (see_lines ls (see_event e s)) _ (uses ls) _ (texts ls) _
          (λ i. is_denied i ls) _ _ (see_event-Adds e s) (see_lines-Adds ls (see_event e s)))
        refl refl (λ i. refl) (ap (λ o. last_result o ls) (see_event-Adds e s).ends)

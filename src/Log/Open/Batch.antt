-- ===== src/Log/Open/Batch.antt =====
-- Appends in a row (src/core/log/log.go, `load`).
use mathlib.Core.Path.{subst}
use mathlib.Core.List.{append_assoc, append-nil}
use foliot.Common.{
  ℕ, suc, ◌+◌, ◌≡◌, inl, inr, refl, sym, ap, ◌∙◌, true, List, [], ◌∷◌, ◌++◌, length, Option, none,
  some, pos, ℤ, All, map, arith, if◌then◌else◌, ◌=s=◌, ◌==ℤ◌, Option-cases, length-append,
}
use foliot.Log.Json.{Json}
use foliot.Log.Event.{Event}
use foliot.Log.Check.{check}
use foliot.Log.Scan.{usable, names_seq}
use foliot.Log.Scan.Position.{bad_at, named_at}
use foliot.Log.Scan.Whole.{lines}
use foliot.Log.Writer.{Log, Io, Entry, AppendError, append, event_of}
use foliot.Log.Writer.Append.{IsReady, Written}
use foliot.Log.Writer.Effect.{Effect, HasMarshalled, append-Effect}
use foliot.Log.Open.{append_all}

some≢none {ℓ} : {A : Type ℓ} {a : A} → ¬ (some a ≡ none)
some≢none h = cc

module _ (j : Json) where
  -- The seqs that an entry names, if it is a log.quarantined record.
  abbrev pub names_of : Entry j.Raw → List ℤ
  names_of x = elim x.payload [
    | none ↦ []
    | some raw ↦ if x.typ =s= "log.quarantined" then names_seq j (j.seq_of raw) else []
  ]

  abbrev pub names_all : List (Entry j.Raw) → List ℤ
  names_all [] = []
  names_all (x ∷ xs) = names_of x ++ names_all xs

  pub names_all-append :
      (xs ys : List (Entry j.Raw)) → names_all (xs ++ ys) ≡ names_all xs ++ names_all ys
  names_all-append [] ys = refl
  names_all-append (x ∷ xs) ys = rw (names_all-append xs ys) (simp append_assoc)

  -- `es` are the events of the entries `xs`, valid and with the seqs after `n`.
  abbrev pub AllWritten : (ℕ → Io) → List (Entry j.Raw) → ℕ → List (Event j.Raw) → Type 0
  AllWritten ios [] n es = es ≡ []
  AllWritten ios (x ∷ xs) n es =
      (raw : j.Raw) × (rest : List (Event j.Raw)) × (x.payload ≡ some raw)
      × (check j.keys (event_of j (ios 0) x n raw) ≡ none)
      × (es ≡ event_of j (ios 0) x n raw ∷ rest)
      × AllWritten (λ k. ios (suc k)) xs (n + 1) rest

  -- What a run of appends without an error has done.
  abbrev pub Batch : (ℕ → Io) → List (Entry j.Raw) → Log j.Byte → Log j.Byte → Type 0
  Batch ios xs l l' =
      (es : List (Event j.Raw)) × IsReady j l'
      × (lines j l'.disk ≡ lines j l.disk ++ map usable es)
      × AllWritten ios xs l.seq es

  -- The seq after an event was written.
  seq-Written :
      (l : Log j.Byte) (e : Event j.Raw) (out : Log j.Byte × ℕ × Option AppendError)
      → IsReady j l
      → Written j l e out
      → out.0.seq ≡ l.seq + 1
  seq-Written l e out r w = omega (
    arith,
    w.still_ready.counted,
    r.counted,
    ap length w.more_lines,
    length-append (lines j l.disk) (usable e ∷ []),
  )

  -- An append without an error has written its event.
  pub Effect-Written :
      (io : Io) (x : Entry j.Raw) (l : Log j.Byte) (out : Log j.Byte × ℕ × Option AppendError)
      → Effect j io x l out
      → out.2 ≡ none
      → (raw : j.Raw) × (x.payload ≡ some raw) × Written j l (event_of j io x l.seq raw) out
  Effect-Written io x l out (inl s) h = absurd (s.failed h)
  Effect-Written io x l out (inr w) h = w

  pub Batch-cons :
      (ios : ℕ → Io) (x : Entry j.Raw) (xs : List (Entry j.Raw)) (l l' : Log j.Byte) (raw : j.Raw)
      (out : Log j.Byte × ℕ × Option AppendError)
      → IsReady j l
      → x.payload ≡ some raw
      → Written j l (event_of j (ios 0) x l.seq raw) out
      → Batch (λ k. ios (suc k)) xs out.0 l'
      → Batch ios (x ∷ xs) l l'
  Batch-cons ios x xs l l' raw out r p w (es, ready, more, all) =
      let e = event_of j (ios 0) x l.seq raw in
      (
        e ∷ es,
        ready,
        more
            ∙ ap (λ ls. ls ++ map usable es) w.more_lines
            ∙ append_assoc (lines j l.disk) (usable e ∷ []) (map usable es),
        (
          raw,
          es,
          p,
          w.valid,
          refl,
          subst (λ n. AllWritten (λ k. ios (suc k)) xs n es) (seq-Written l e out r w) all,
        ),
      )

  pub append_all-Batch :
      (ios : ℕ → Io) (xs : List (Entry j.Raw)) (l : Log j.Byte)
      → IsReady j l
      → All (HasMarshalled j) xs
      → (append_all j ios xs l).1 ≡ none
      → Batch ios xs l (append_all j ios xs l).0
  unfolding append_all
  append_all-Batch ios [] l r m h = ([], r, sym (append-nil _), refl)
  append_all-Batch ios (x ∷ xs) l r m h =
      let out = append j (ios 0) x l in
      elim (Option-cases out.2) [
        | inr (b, e) ↦ absurd (some≢none (rw (e, append_all) at h))
        | inl e ↦
            (let (raw, p, w) =
                Effect-Written (ios 0) x l out (append-Effect j (ios 0) x l r m.0) e in
              rw (e, append_all)
                (Batch-cons ios x xs l _ raw out r p w (
                  append_all-Batch (λ k. ios (suc k)) xs out.0 w.still_ready m.1
                    (rw (e, append_all) at h))))
      ]

  placed : (n : ℕ) → (pos (n + 1) ==ℤ pos (suc n)) ≡ true
  placed n = ground arith

  -- Valid events in their places are no bad lines, and name what their entries name.
  pub bad_at-AllWritten :
      (ios : ℕ → Io) (xs : List (Entry j.Raw)) (n : ℕ) (es : List (Event j.Raw))
      → AllWritten ios xs n es
      → bad_at j n (map usable es) ≡ []
  unfolding bad_at
  bad_at-AllWritten ios [] n es w = rw w
  bad_at-AllWritten ios (x ∷ xs) n es (raw, rest, p, c, q, w) =
      let one : n + 1 ≡ suc n = omega arith in
      rw (q, placed n, c) (rw one at (bad_at-AllWritten (λ k. ios (suc k)) xs (n + 1) rest w))

  pub named_at-AllWritten :
      (ios : ℕ → Io) (xs : List (Entry j.Raw)) (n : ℕ) (es : List (Event j.Raw))
      → AllWritten ios xs n es
      → named_at j n (map usable es) ≡ names_all xs
  unfolding named_at
  named_at-AllWritten ios [] n es w = rw w
  named_at-AllWritten ios (x ∷ xs) n es (raw, rest, p, c, q, w) =
      let one : n + 1 ≡ suc n = omega arith in
      rw (q, placed n, c, p)
        (rw (rw one at (named_at-AllWritten (λ k. ios (suc k)) xs (n + 1) rest w)))

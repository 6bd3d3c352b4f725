-- ===== src/Log/Open/Verifies.antt =====
-- `Open` against `Verify` (src/core/log/log.go and scan.go).
use mathlib.Core.Path.{subst}
use native.Mathlib.Nat.{zero-add}
use mathlib.Core.List.{append_assoc, append-nil}
use foliot.Common.{
  ℕ, ◌≡◌, refl, sym, ap, ◌∙◌, true, not, ◌&&◌, List, [], ◌∷◌, ◌++◌, length, take, Option, none,
  some, ℤ, All, map, arith, if-induct, Bool-cases, Option-cases, inl, inr, String,
}
use foliot.Log.Json.{Json}
use foliot.Log.Scan.{
  BadLine, Scanned, Result, ok, err, ScanError, scan, split, Line, classify, verify,
  select_unrecorded,
}
use foliot.Log.Scan.Position.{fits, bad_at, named_at}
use foliot.Log.Scan.Whole.{lines, positional, scan-positional, scan-ok}
use foliot.Log.Scan.Extend.{bad_at-append, named_at-append}
use foliot.Log.Scan.Lines.{split-flatten, take-end}
use foliot.Log.Writer.{Log, Io, Entry, AppendError, append}
use foliot.Log.Writer.Append.{IsReady}
use foliot.Log.Writer.Effect.{HasMarshalled, append-Effect}
use foliot.Log.Open.{
  Home, OpenIo, Opened, orchestrator, append_all, announce, repair, repair_entry, quarantine_entry,
  takeover_entry, handle, appended, finish, load_torn, load_scan, load, open_locked, open_home,
}
use foliot.Log.Open.Names.{AllNamed, AllNamed-none, AllNamed-append, AllNamed-seqs_of, seqs_of}
use foliot.Log.Open.Batch.{
  Batch, Batch-cons, Effect-Written, append_all-Batch, bad_at-AllWritten, named_at-AllWritten,
  names_all, names_all-append,
}

some≢none {ℓ} : {A : Type ℓ} {a : A} → ¬ (some a ≡ none)
some≢none h = cc

some_inj {ℓ} : {A : Type ℓ} {a b : A} → some a ≡ some b → a ≡ b
some_inj h = cc

ok_inj : {A : Type 0} {a b : A} → ok a ≡ ok b → a ≡ b
ok_inj h = cc

ok≢err : {A : Type 0} {a : A} {x : ScanError} → ¬ (ok a ≡ err x)
ok≢err h = cc

module _ (j : Json) where
  -- A ready log whose bad lines are all named passes `Verify`.
  verify-IsReady :
      (l : Log j.Byte)
      → IsReady j l
      → AllNamed (named_at j 0 (lines j l.disk)) (bad_at j 0 (lines j l.disk))
      → verify j l.disk ≡ none
  unfolding verify
  verify-IsReady l r n = rw (scan-positional j l.disk r.fit, AllNamed-none _ _ n, r.whole)

  bad_at-Batch :
      (ios : ℕ → Io) (xs : List (Entry j.Raw)) (l l' : Log j.Byte)
      → IsReady j l
      → Batch j ios xs l l'
      → bad_at j 0 (lines j l'.disk) ≡ bad_at j 0 (lines j l.disk)
  bad_at-Batch ios xs l l' r (es, _, more, all) =
      rw (more, bad_at-append, ← r.counted, zero-add, bad_at-AllWritten j ios xs l.seq es all)
        (append-nil _)

  named_at-Batch :
      (ios : ℕ → Io) (xs : List (Entry j.Raw)) (l l' : Log j.Byte)
      → IsReady j l
      → Batch j ios xs l l'
      → named_at j 0 (lines j l'.disk) ≡ named_at j 0 (lines j l.disk) ++ names_all j xs
  named_at-Batch ios xs l l' r (es, _, more, all) =
      rw (more, named_at-append, ← r.counted, zero-add, named_at-AllWritten j ios xs l.seq es all)

  Marshalled-entry :
      (typ : String) (raw : j.Raw) → j.Marshalled raw → HasMarshalled j (orchestrator j typ raw)
  Marshalled-entry typ raw m raw' e = subst j.Marshalled (some_inj e) m

  names_all-quarantine :
      (bs : List BadLine) → names_all j (map (quarantine_entry j) bs) ≡ seqs_of bs
  names_all-quarantine [] = refl
  names_all-quarantine (b ∷ bs) = rw (j.seq_of-quarantined, names_all-quarantine bs)

  All-quarantine : (bs : List BadLine) → All (HasMarshalled j) (map (quarantine_entry j) bs)
  All-quarantine [] = tt
  All-quarantine (b ∷ bs) = (
    Marshalled-entry "log.quarantined" _ (j.quarantined-Marshalled b.seq b.reason),
    All-quarantine bs,
  )

  All-append :
      (xs ys : List (Entry j.Raw))
      → All (HasMarshalled j) xs
      → All (HasMarshalled j) ys
      → All (HasMarshalled j) (xs ++ ys)
  All-append [] ys h k = k
  All-append (x ∷ xs) ys h k = (h.0, All-append xs ys h.1 k)

  All-takeover : (stale : List j.Byte) → All (HasMarshalled j) (takeover_entry j stale)
  All-takeover [] = tt
  All-takeover (b ∷ bs) = (Marshalled-entry "home.lock_taken" _ (j.taken-Marshalled _ _), tt)

  -- The appends of an Open that reports no error: the log is ready, its bad lines are those it had,
  -- and the seqs that the entries name are named too.
  record Announced (xs : List (Entry j.Raw)) (l l' : Log j.Byte) : Type 0 where
    ready : IsReady j l'
    same_bad : bad_at j 0 (lines j l'.disk) ≡ bad_at j 0 (lines j l.disk)
    rest : List ℤ
    names :
        named_at j 0 (lines j l'.disk) ≡ named_at j 0 (lines j l.disk) ++ (names_all j xs ++ rest)

  announce_lem :
      (io : OpenIo) (xs : List (Entry j.Raw)) (l : Log j.Byte)
      → IsReady j l
      → All (HasMarshalled j) xs
      → (announce j io xs l).0 ≡ none
      → Announced xs l (announce j io xs l).1
  unfolding announce
  announce_lem io xs l r m h =
      let one = append_all j io.ios xs l in
      let x = orchestrator j "home.opened" (j.opened io.pid l.started) in
      let out = append j (io.ios (length xs)) x one.0 in
      elim (Option-cases one.1) [
        | inr (b, e) ↦ absurd (some≢none (rw (e, announce) at h))
        | inl e ↦
            (let (es, ready, more, all) = append_all-Batch j io.ios xs l r m e in
              let (raw, p, w) =
                Effect-Written j (io.ios (length xs)) x one.0 out
                  (append-Effect j (io.ios (length xs)) x one.0 ready
                    (Marshalled-entry "home.opened" _ (j.opened-Marshalled io.pid l.started)))
                  (rw (e, announce) at h) in
              let last =
                Batch-cons j (λ n. io.ios (length xs)) x [] one.0 out.0 raw out ready p w
                  ([], w.still_ready, sym (append-nil _), refl) in
              rw (e, announce)
                (record {
                  ready = record {
                    whole = w.still_ready.whole;
                    fit = w.still_ready.fit;
                    counted = w.still_ready.counted;
                    sized = w.still_ready.sized;
                  };
                  same_bad =
                      bad_at-Batch (λ n. io.ios (length xs)) (x ∷ []) one.0 out.0 ready last
                      ∙ bad_at-Batch io.ios xs l one.0 r (es, ready, more, all);
                  rest = names_all j (x ∷ []);
                  names =
                      named_at-Batch (λ n. io.ios (length xs)) (x ∷ []) one.0 out.0 ready last
                      ∙ ap (λ ns. ns ++ names_all j (x ∷ []))
                          (named_at-Batch io.ios xs l one.0 r (es, ready, more, all))
                      ∙ append_assoc _ (names_all j xs) (names_all j (x ∷ []));
                }))
      ]

  -- The names of the entries of `load`, around those of the bad lines left out.
  names_all-entries :
      (pre tk : List (Entry j.Raw)) (bs : List BadLine) (rest : List ℤ)
      → names_all j (pre ++ (map (quarantine_entry j) bs ++ tk)) ++ rest
        ≡ names_all j pre ++ (seqs_of bs ++ (names_all j tk ++ rest))
  names_all-entries pre tk bs rest =
      rw (names_all-append, names_all-append, names_all-quarantine) (simp append_assoc)

  appended-none : (e : Option AppendError) → appended j e ≡ none → e ≡ none
  appended-none none h = refl
  appended-none (some b) h = absurd (some≢none h)

  finish_lem :
      (io : OpenIo) (pre tk : List (Entry j.Raw)) (l : Log j.Byte) (h : Home j.Byte)
      → IsReady j l
      → All (HasMarshalled j) pre
      → All (HasMarshalled j) tk
      → (let bs = select_unrecorded (named_at j 0 (lines j l.disk)) (bad_at j 0 (lines j l.disk)) in
          (finish j io (pre ++ (map (quarantine_entry j) bs ++ tk)) l h).0 ≡ none
          → verify j (finish j io (pre ++ (map (quarantine_entry j) bs ++ tk)) l h).2.log ≡ none)
  unfolding finish
  finish_lem io pre tk l h r mp mt e =
      let named = named_at j 0 (lines j l.disk) in
      let bad = bad_at j 0 (lines j l.disk) in
      let bs = select_unrecorded named bad in
      let xs = pre ++ (map (quarantine_entry j) bs ++ tk) in
      let a =
        announce_lem io xs l r
          (All-append pre _ mp (All-append (map (quarantine_entry j) bs) tk (All-quarantine bs) mt))
          (appended-none _ e) in
      verify-IsReady _ a.ready (
        rw (a.names, a.same_bad, names_all-entries)
          (AllNamed-append named _ bad (AllNamed-seqs_of (names_all j pre) _ bs)))

  -- A new log over a file that ends with a whole line.
  IsReady-handle :
      (file : List j.Byte) (started : String)
      → (split j.is_newline file).1 ≡ []
      → fits j 0 (lines j file) ≡ true
      → IsReady j (handle j file (length (lines j file)) started)
  IsReady-handle file started w f = record { whole = w; fit = f; counted = refl; sized = refl }

  abbrev Good : Opened j → Type 0
  Good out = out.0 ≡ none → verify j out.2.log ≡ none

  -- A repair that reports no failure has cut the log at its last complete line.
  repair-log :
      (io : OpenIo) (s : Scanned j.Raw j.Byte) (h : Home j.Byte)
      → (repair j io s h).1 ≡ true
      → (repair j io s h).0.log ≡ take s.end h.log
  unfolding repair
  repair-log io s h d = ground arith

  -- The cut log has the lines that it had, and no torn tail.
  split-cut :
      (file : List j.Byte)
      → split j.is_newline (take (positional j file).end file) ≡ ((split j.is_newline file).0, [])
  split-cut file = rw (take-end j.is_newline file) (split-flatten j.is_newline file)

  -- `finish` over a file with the lines `ls`, with entries for those lines.
  abbrev FinishGood :
      OpenIo → List (Entry j.Raw) → List j.Byte → Home j.Byte → List (Line j.Raw) → Type 0
  FinishGood io pre stale h ls =
      let bs = select_unrecorded (named_at j 0 ls) (bad_at j 0 ls) in
      Good (
        finish j io (pre ++ (map (quarantine_entry j) bs ++ takeover_entry j stale))
          (handle j h.log (length ls) io.started) h)

  finish-repaired :
      (io : OpenIo) (pre : List (Entry j.Raw)) (stale file : List j.Byte) (h : Home j.Byte)
      → fits j 0 (lines j file) ≡ true
      → split j.is_newline h.log ≡ ((split j.is_newline file).0, [])
      → All (HasMarshalled j) pre
      → FinishGood io pre stale h (lines j file)
  finish-repaired io pre stale file h f e m =
      let same : lines j h.log ≡ lines j file = ap (λ p. classify j p.0) e in
      subst (FinishGood io pre stale h) same (
        finish_lem io pre (takeover_entry j stale)
          (handle j h.log (length (lines j h.log)) io.started) h
          (IsReady-handle h.log io.started (ap (λ p. p.1) e) (ap (fits j 0) same ∙ f)) m
          (All-takeover stale))

  load_torn_lem :
      (io : OpenIo) (stale torn : List j.Byte) (h : Home j.Byte)
      → fits j 0 (lines j h.log) ≡ true
      → (split j.is_newline h.log).1 ≡ torn
      → Good (load_torn j io (positional j h.log) stale torn h)
  unfolding load_torn
  load_torn_lem io stale [] h f t =
      finish-repaired io [] stale h.log h f (λ i. ((split j.is_newline h.log).0, t i)) tt
  load_torn_lem io stale (b ∷ bs) h f t =
      let s = positional j h.log in
      elim (Bool-cases (repair j io s h).1) [
        | inr failed ↦ rw failed (λ e. absurd (some≢none e))
        | inl done ↦ rw done (
            finish-repaired io (repair_entry j io s) stale h.log (repair j io s h).0 f
              (ap (split j.is_newline) (repair-log io s h done) ∙ split-cut h.log)
              (Marshalled-entry "log.repaired" _ (j.repaired-Marshalled _ _), tt))
      ]

  load_scan_lem :
      (io : OpenIo) (stale : List j.Byte) (r : Result (Scanned j.Raw j.Byte)) (h : Home j.Byte)
      → scan j h.log ≡ r
      → Good (load_scan j io stale r h)
  unfolding load_scan
  load_scan_lem io stale (err x) h e = λ n. absurd (some≢none n)
  load_scan_lem io stale (ok s) h e =
      let (f, p) = scan-ok j h.log s e in
      rw p (load_torn_lem io stale (split j.is_newline h.log).1 h f refl)

  load_lem : (io : OpenIo) (stale : List j.Byte) (h : Home j.Byte) → Good (load j io stale h)
  unfolding load
  load_lem io stale h =
      if-induct Good (not (io.opens_log && (io.stats_log && io.reads_log))) _ _
        (λ _ n. absurd (some≢none n)) (λ _. load_scan_lem io stale _ h refl)

  open_locked_lem : (io : OpenIo) (h : Home j.Byte) → Good (open_locked j io h)
  unfolding open_locked
  open_locked_lem io h =
      if-induct Good (not (io.reads_lock && (io.cuts_lock && (io.writes_lock && io.stats_lock)))) _
        _ (λ _ n. absurd (some≢none n)) (λ _. load_lem io (j.trim h.lock) _)

  -- An Open that returns no error leaves a log that passes `Verify`, whatever the file held and
  -- whatever the system answered: no torn tail, every usable line in its place or shown to be
  -- corrupt, and each bad line named by a log.quarantined event.
  pub open_home-verify :
      (io : OpenIo) (h : Home j.Byte)
      → (open_home j io h).0 ≡ none
      → verify j (open_home j io h).2.log ≡ none
  unfolding open_home
  open_home-verify io h =
      if-induct Good (not io.absolute) _ _ (λ _ n. absurd (some≢none n))
        λ _.
          if-induct Good (not io.makes_directory) _ _ (λ _ n. absurd (some≢none n))
            λ _.
              if-induct Good (not io.opens_lock) _ _ (λ _ n. absurd (some≢none n))
                λ _.
                  if-induct Good h.held _ _ (λ _ n. absurd (some≢none n))
                    λ _.
                      if-induct Good (not io.flocks) _ _ (λ _ n. absurd (some≢none n))
                        λ _. open_locked_lem io h

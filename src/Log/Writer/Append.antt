-- ===== src/Log/Writer/Append.antt =====
-- The write of one line (src/core/log/log.go, `append`).
use mathlib.Core.List.{append-nil}
use foliot.Common.{
  ℕ, suc, ltb, ◌&&◌, ◌+◌, ◌-◌, ◌≤◌, zero, ◌≡◌, ◌≢◌, ◌⊎◌, inl, inr, refl, ap, true, List, [], ◌∷◌,
  ◌++◌, length, arith, Option, none, some, take, Bool-cases, length-append, take-append, pos, not,
}
use foliot.Log.Json.{Json, decoded}
use foliot.Log.Event.{Event, version}
use foliot.Log.Check.{check}
use foliot.Log.Scan.{usable, split, classify_event}
use foliot.Log.Scan.Lines.{NoNewline, split-append, split-NoNewline, split_line, take-NoNewline}
use foliot.Log.Scan.Extend.{classify-append, fits-append}
use foliot.Log.Scan.Position.{fits}
use foliot.Log.Scan.Whole.{lines}
use foliot.Log.Writer.{Log, Io, is_durable, Appended, write_out, sync_line, cut_partial}

take-append_le {ℓ} :
    {A : Type ℓ} (n : ℕ) (xs : List A) (y : A) → n ≤ length xs → take n (xs ++ y ∷ []) ≡ take n xs
take-append_le zero xs y h = refl
take-append_le (suc n) [] y h = absurd (omega arith)
take-append_le (suc n) (x ∷ xs) y h = ap (λ zs. x ∷ zs) (take-append_le n xs y (omega arith))

-- A short write of a line leaves out its newline.
take_short {ℓ} :
    {A : Type ℓ} (k : ℕ) (xs : List A) (y : A)
    → take (length (xs ++ y ∷ []) - (k + 1)) (xs ++ y ∷ []) ≡ take (length xs - k) xs
take_short k xs y =
    let e : length (xs ++ y ∷ []) - (k + 1) ≡ length xs - k =
      omega (arith, length-append xs (y ∷ [])) in
    rw e (take-append_le (length xs - k) xs y (omega arith))

module _ (j : Json) where
  -- The file ends with a whole line, and the fields are what the file says.
  pub record IsReady (l : Log j.Byte) : Type 0 where
    pub whole : (split j.is_newline l.disk).1 ≡ []
    pub fit : fits j 0 (lines j l.disk) ≡ true
    pub counted : l.seq ≡ length (lines j l.disk)
    pub sized : l.size ≡ length l.disk

  -- No event was written: the complete lines are what they were, and unless the log is broken it is
  -- the same.
  pub record Skipped (l : Log j.Byte) (out : Appended j.Byte) : Type 0 where
    pub no_seq : out.1 ≡ 0
    pub failed : out.2 ≢ none
    pub same_lines : lines j out.0.disk ≡ lines j l.disk
    pub same_seq : out.0.seq ≡ l.seq
    pub unchanged : out.0.broken ≡ none → out.0 ≡ l

  -- The event `e` was written as one more line, and its seq returned.
  pub record Written (l : Log j.Byte) (e : Event j.Raw) (out : Appended j.Byte) : Type 0 where
    pub next_seq : out.1 ≡ l.seq + 1
    pub more_lines : lines j out.0.disk ≡ lines j l.disk ++ usable e ∷ []
    pub valid : check j.keys e ≡ none
    pub still_ready : IsReady out.0
    pub still_open : out.0.is_open ≡ l.is_open

  lines-append :
      (file body : List j.Byte) (e : Event j.Raw)
      → (split j.is_newline file).1 ≡ []
      → NoNewline j.is_newline body
      → classify_event (j.decode (body ++ j.newline ∷ [])) ≡ usable e
      → lines j (file ++ (body ++ j.newline ∷ [])) ≡ lines j file ++ usable e ∷ []
  lines-append file body e w n d =
      rw
        (
          split-append j.is_newline file (body ++ j.newline ∷ []) w,
          split_line j.is_newline body j.newline n j.newline_lem,
          classify-append,
        )
        (rw d)

  lines_torn :
      (file rest : List j.Byte)
      → (split j.is_newline file).1 ≡ []
      → NoNewline j.is_newline rest
      → lines j (file ++ rest) ≡ lines j file
  lines_torn file rest w n =
      rw (split-append j.is_newline file rest w, split-NoNewline j.is_newline rest n, append-nil)

  split_whole :
      (file body : List j.Byte)
      → (split j.is_newline file).1 ≡ []
      → NoNewline j.is_newline body
      → (split j.is_newline (file ++ (body ++ j.newline ∷ []))).1 ≡ []
  split_whole file body w n = rw (
    split-append j.is_newline file (body ++ j.newline ∷ []) w,
    split_line j.is_newline body j.newline n j.newline_lem,
  )

  classify-placed :
      (e : Event j.Raw) (body : List j.Byte) (l : Log j.Byte)
      → e.seq ≡ pos (l.seq + 1)
      → j.decode (body ++ j.newline ∷ []) ≡ decoded e
      → classify_event (j.decode (body ++ j.newline ∷ [])) ≡ usable e
  classify-placed e body l s d = rw d (ground arith)

  -- After a short write the complete lines are what they were, cut or not.
  lines-cut_partial :
      (io : Io) (n : ℕ) (l : Log j.Byte) (rest : List j.Byte)
      → IsReady l
      → NoNewline j.is_newline rest
      → lines j (cut_partial j io n (record l { disk = l.disk ++ rest })).disk ≡ lines j l.disk
  unfolding cut_partial
  lines-cut_partial io n l rest r h = elim (Bool-cases (ltb 0 n && io.truncates)) [
    | inl t ↦ rw (t, r.sized, take-append l.disk rest)
    | inr f ↦ rw f (lines_torn l.disk rest r.whole h)
  ]

  seq-cut_partial : (io : Io) (n : ℕ) (l : Log j.Byte) → (cut_partial j io n l).seq ≡ l.seq
  unfolding cut_partial
  seq-cut_partial io n l = ground arith

  IsReady-line :
      (l l' : Log j.Byte) (e : Event j.Raw) (line : List j.Byte)
      → IsReady l
      → (split j.is_newline (l.disk ++ line)).1 ≡ []
      → lines j (l.disk ++ line) ≡ lines j l.disk ++ usable e ∷ []
      → l'.disk ≡ l.disk ++ line
      → l'.seq ≡ l.seq + 1
      → l'.size ≡ l.size + length line
      → e.seq ≡ pos (l.seq + 1)
      → e.v ≡ version
      → IsReady l'
  unfolding fits
  IsReady-line l l' e line r w m d q z s v = record {
    whole = rw d w;
    fit =
        rw (d, m)
          (fits-append j 0 (lines j l.disk) (usable e ∷ []) r.fit
            (rw (s, v) (ground (arith, r.counted))));
    counted = rw (d, m) (omega (arith, r.counted, length-append (lines j l.disk) (usable e ∷ [])));
    sized = rw d (omega (arith, r.sized, length-append l.disk line));
  }

  -- A sync, done or not, leaves the file, the counters and the handle alone.
  abbrev Synced : ℕ → Log j.Byte → Appended j.Byte → Type 0
  Synced seq l out =
      (out.1 ≡ seq)
      × (out.0.disk ≡ l.disk)
      × (out.0.seq ≡ l.seq)
      × (out.0.size ≡ l.size)
      × (out.0.is_open ≡ l.is_open)

  sync_line_lem :
      (io : Io) (e : Event j.Raw) (seq : ℕ) (l : Log j.Byte) → Synced seq l (sync_line j io e seq l)
  unfolding sync_line
  sync_line_lem io e seq l = elim (Bool-cases (is_durable e.typ && not io.syncs)) [
    | inl t ↦ rw t (refl, refl, refl, refl, refl)
    | inr f ↦ rw f (refl, refl, refl, refl, refl)
  ]

  pub write_out_lem :
      (short : Option ℕ) (io : Io) (e : Event j.Raw) (body : List j.Byte) (l : Log j.Byte)
      → IsReady l
      → e.seq ≡ pos (l.seq + 1)
      → e.v ≡ version
      → check j.keys e ≡ none
      → NoNewline j.is_newline body
      → j.decode (body ++ j.newline ∷ []) ≡ decoded e
      → Skipped l (write_out j short io e (body ++ j.newline ∷ []) l)
        ⊎ Written l e (write_out j short io e (body ++ j.newline ∷ []) l)
  unfolding write_out
  write_out_lem (some k) io e body l r s v c n d = inl (record {
    no_seq = refl;
    failed = λ h. cc;
    same_lines =
        rw take_short (lines-cut_partial io _ l _ r (take-NoNewline j.is_newline _ body n));
    same_seq = seq-cut_partial io _ _;
    unchanged = λ h. cc;
  })
  write_out_lem none io e body l r s v c n d =
      let line = body ++ j.newline ∷ [] in
      let l' = record l { disk = l.disk ++ line; size = l.size + length line; seq = l.seq + 1 } in
      let done = sync_line_lem io e (l.seq + 1) l' in
      let more = lines-append l.disk body e r.whole n (classify-placed e body l s d) in
      inr (record {
        next_seq = done.0;
        more_lines = rw done.1 more;
        valid = c;
        still_ready =
            IsReady-line l _ e line r (split_whole l.disk body r.whole n) more done.1 done.2 done.3
              s v;
        still_open = done.4;
      })

-- ===== src/Log/Writer/Effect.antt =====
-- The effect of one whole append (src/core/log/log.go, `append`).
use foliot.Common.{
  ◌+◌, ◌≡◌, ◌⊎◌, inl, inr, refl, not, ◌&&◌, List, [], ◌∷◌, ◌++◌, length, Option, none, some, ltb,
  pos, Bool-cases, if-induct,
}
use foliot.Log.Json.{Json}
use foliot.Log.Event.{Event, version, max_event_bytes}
use foliot.Log.Check.{CheckError, check}
use foliot.Log.Writer.{
  Log, Io, Entry, Appended, AppendError, event_of, append_encoded, append_checked, append_data,
  append_open, append_unless, append, write_line, log_closed,
}
use foliot.Log.Writer.Append.{IsReady, Skipped, Written, write_out_lem}

module _ (j : Json) where
  skip : (l : Log j.Byte) (x : AppendError) → Skipped j l (l, 0, some x)
  skip l x = record {
    no_seq = refl;
    failed = λ h. cc;
    same_lines = refl;
    same_seq = refl;
    unchanged = λ h. refl;
  }

  abbrev Outcome : Log j.Byte → Event j.Raw → Appended j.Byte → Type 0
  Outcome l e out = Skipped j l out ⊎ Written j l e out

  module _ (io : Io) (l : Log j.Byte) (r : IsReady j l) (e : Event j.Raw)
      (s : e.seq ≡ pos (l.seq + 1)) (v : e.v ≡ version) (m : j.Marshalled e.payload) where
    append_encoded_lem :
        (b : Option (List j.Byte))
        → check j.keys e ≡ none
        → j.encode e ≡ b
        → Outcome l e (append_encoded j io e b l)
    unfolding append_encoded write_line
    append_encoded_lem none c d = inl (skip l _)
    append_encoded_lem (some body) c d =
        elim (Bool-cases (ltb max_event_bytes (length (body ++ j.newline ∷ [])))) [
          | inl t ↦ rw t (inl (skip l _))
          | inr f ↦ rw f (
              write_out_lem j io.short io e body l r s v c (j.encode_one_line e body d)
                (j.decode-encode e body m d))
        ]

    append_checked_lem :
        (c : Option CheckError) → check j.keys e ≡ c → Outcome l e (append_checked j io e c l)
    unfolding append_checked
    append_checked_lem (some x) d = inl (skip l _)
    append_checked_lem none d = append_encoded_lem (j.encode e) d refl

  abbrev pub Effect : Io → Entry j.Raw → Log j.Byte → Appended j.Byte → Type 0
  Effect io x l out =
      Skipped j l out
      ⊎ ((raw : j.Raw) × (x.payload ≡ some raw) × Written j l (event_of j io x l.seq raw) out)

  -- The data, if it encodes, is what json.Marshal returned.
  abbrev pub HasMarshalled : Entry j.Raw → Type 0
  HasMarshalled x = (raw : j.Raw) → x.payload ≡ some raw → j.Marshalled raw

  append_data_lem :
      (io : Io) (x : Entry j.Raw) (l : Log j.Byte) (p : Option j.Raw)
      → IsReady j l
      → HasMarshalled x
      → x.payload ≡ p
      → Effect io x l (append_data j io x p l)
  unfolding append_data
  append_data_lem io x l none r m d = inl (skip l _)
  append_data_lem io x l (some raw) r m d =
      elim (append_checked_lem io l r (event_of j io x l.seq raw) refl refl (m raw d) _ refl) [
        | inl s ↦ inl s
        | inr w ↦ inr (raw, d, w)
      ]

  append_open_lem :
      (io : Io) (x : Entry j.Raw) (l : Log j.Byte)
      → IsReady j l
      → HasMarshalled x
      → Effect io x l (append_open j io x l)
  unfolding append_open
  append_open_lem io x l r m =
      if-induct (Effect io x l) (not l.is_open) _ _ (λ _. inl (skip l log_closed))
        λ _.
          if-induct (Effect io x l) (not (io.lock_same && io.log_same)) _ _
            (λ _. inl (record {
              no_seq = refl;
              failed = λ h. cc;
              same_lines = refl;
              same_seq = refl;
              unchanged = λ h. cc;
            }))
            λ _. append_data_lem io x l x.payload r m refl

  append_unless_lem :
      (b : Option AppendError) (io : Io) (x : Entry j.Raw) (l : Log j.Byte)
      → IsReady j l
      → HasMarshalled x
      → Effect io x l (append_unless j b io x l)
  unfolding append_unless
  append_unless_lem (some b) io x l r m = inl (skip l b)
  append_unless_lem none io x l r m = append_open_lem io x l r m

  -- Whatever the system answers, an append to a log whose file ends with a whole line leaves the
  -- complete lines as they were and returns an error and the seq 0, with the log unchanged unless it
  -- is now broken, or adds exactly one line, the event of the next seq, which passes `check` and is
  -- read back as it was written, and returns that seq. After the second the file again ends with a
  -- whole line, and seq and size again are its count of lines and its length.
  pub append-Effect :
      (io : Io) (x : Entry j.Raw) (l : Log j.Byte)
      → IsReady j l
      → HasMarshalled x
      → Effect io x l (append j io x l)
  unfolding append
  append-Effect io x l r m = append_unless_lem l.broken io x l r m

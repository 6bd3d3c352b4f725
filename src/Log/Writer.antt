-- ===== src/Log/Writer.antt =====
-- src/core/log/log.go: the single writer of a home's log. A `Log` is a record, each call of the
-- operating system is an outcome of the record `Io`, and a method returns the new record.
pub mod Append
pub mod Effect
use foliot.Common.{
  ℕ, ◌+◌, ◌-◌, String, ℤ, pos, Bool, true, false, not, ◌&&◌, Option, none, some, List, [], ◌∷◌,
  ◌++◌, length, take, ltb, ◌==◌, if◌then◌else◌, lookup,
}
use foliot.Log.Event.{Event, Evidence, Row, version, max_event_bytes, catalogue}
use foliot.Log.Check.{CheckError, check}
use foliot.Log.Json.{Json}

-- What a caller appends. `payload` is the result of json.Marshal of its data.
pub record Entry (Raw : Type 0) : Type 0 where
  pub typ : String
  pub task : Option String
  pub attempt : Option ℤ
  pub actor : String
  pub cause : Option ℤ
  pub evidence : Option (List Evidence)
  pub payload : Option Raw

pub data AppendError : Type 0 where
  log_closed : AppendError
  not_owned : AppendError
  unencodable_data : String → AppendError
  refused_entry : String → CheckError → AppendError
  unencodable_event : AppendError
  too_long : String → ℕ → AppendError
  write_failed : ℕ → AppendError
  sync_failed : ℕ → AppendError

-- What the system answers during one append: the two Lstat comparisons of `owned`, the instant, how
-- many bytes a failed write left out beyond one (`none` is a whole write), and if the calls of
-- Truncate and Sync succeed. A failed write is short: os.File.Write returns an error only then.
pub record Io : Type 0 where
  pub lock_same : Bool
  pub log_same : Bool
  pub now : String
  pub short : Option ℕ
  pub truncates : Bool
  pub syncs : Bool

-- `disk` is events.jsonl; the handle of `f` is `is_open`.
pub record Log (Byte : Type 0) : Type 0 where
  pub disk : List Byte
  pub is_open : Bool
  pub seq : ℕ
  pub size : ℕ
  pub opened : ℕ
  pub started : String
  pub broken : Option AppendError

abbrev pub is_durable : String → Bool
is_durable typ = elim (lookup typ catalogue) [ none ↦ false | some c ↦ c.durable ]

-- An append returns the log, the seq (0 where none was taken) and the error.
abbrev pub Appended : Type 0 → Type 0
Appended Byte = Log Byte × ℕ × Option AppendError

abbrev pub some_list : Option (List Evidence) → Option (List Evidence)
some_list none = some []
some_list (some evs) = some evs

module _ (j : Json) where
  -- The event that `append` builds: the writer assigns seq, ts and v.
  abbrev pub event_of : Io → Entry j.Raw → ℕ → j.Raw → Event j.Raw
  event_of io x seq raw = record {
    seq = pos (seq + 1);
    ts = io.now;
    typ = x.typ;
    task = x.task;
    attempt = x.attempt;
    actor = x.actor;
    cause = x.cause;
    evidence = some_list x.evidence;
    payload = raw;
    v = version;
  }

  -- The write and, for a durable type, the sync.
  sync_line : Io → Event j.Raw → ℕ → Log j.Byte → Appended j.Byte
  sync_line io e seq l =
      if is_durable e.typ && not io.syncs
      then (record l { broken = some (sync_failed seq) }, seq, some (sync_failed seq))
      else (l, seq, none)

  cut_partial : Io → ℕ → Log j.Byte → Log j.Byte
  cut_partial io n l = if ltb 0 n && io.truncates then record l { disk = take l.size l.disk } else l

  unfoldable pub write_out :
      Option ℕ → Io → Event j.Raw → List j.Byte → Log j.Byte → Appended j.Byte
  unfolding sync_line cut_partial
  write_out (some k) io e line l =
      let seq = l.seq + 1 in
      let n = length line - (k + 1) in
      let l' = cut_partial io n (record l { disk = l.disk ++ take n line }) in
      (record l' { broken = some (write_failed seq) }, 0, some (write_failed seq))
  write_out none io e line l =
      let seq = l.seq + 1 in
      sync_line io e seq
        (record l { disk = l.disk ++ line; size = l.size + length line; seq = seq })

  write_line : Io → Event j.Raw → List j.Byte → Log j.Byte → Appended j.Byte
  unfolding write_out
  write_line io e line l = write_out io.short io e line l

  append_encoded : Io → Event j.Raw → Option (List j.Byte) → Log j.Byte → Appended j.Byte
  unfolding write_line
  append_encoded io e none l = (l, 0, some unencodable_event)
  append_encoded io e (some body) l =
      let line = body ++ j.newline ∷ [] in
      if ltb max_event_bytes (length line)
      then (l, 0, some (too_long e.typ (length line)))
      else write_line io e line l

  append_checked : Io → Event j.Raw → Option CheckError → Log j.Byte → Appended j.Byte
  unfolding append_encoded
  append_checked io e (some c) l = (l, 0, some (refused_entry e.typ c))
  append_checked io e none l = append_encoded io e (j.encode e) l

  append_data : Io → Entry j.Raw → Option j.Raw → Log j.Byte → Appended j.Byte
  unfolding append_checked
  append_data io x none l = (l, 0, some (unencodable_data x.typ))
  append_data io x (some raw) l =
      let e = event_of io x l.seq raw in append_checked io e (check j.keys e) l

  append_open : Io → Entry j.Raw → Log j.Byte → Appended j.Byte
  unfolding append_data
  append_open io x l =
      if not l.is_open
      then (l, 0, some log_closed)
      else if not (io.lock_same && io.log_same)
      then (record l { broken = some not_owned }, 0, some not_owned)
      else append_data io x x.payload l

  append_unless : Option AppendError → Io → Entry j.Raw → Log j.Byte → Appended j.Byte
  unfolding append_open
  append_unless (some b) io x l = (l, 0, some b)
  append_unless none io x l = append_open io x l

  unfoldable pub append : Io → Entry j.Raw → Log j.Byte → Appended j.Byte
  unfolding append_unless
  append io x l = append_unless l.broken io x l

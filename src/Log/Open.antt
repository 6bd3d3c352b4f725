-- ===== src/Log/Open.antt =====
-- src/core/log/log.go: Open with takeLock, load and repair, and Close, over the files of a home.
pub mod Batch
pub mod Repair
pub mod Verifies
pub mod Names
use Prim.Native.String.{◌++◌ as text_append}
use foliot.Common.{
  ℕ, suc, ◌+◌, String, ℤ, Bool, true, false, not, ◌&&◌, ◌||◌, Option, none, some, List, [], ◌∷◌,
  ◌++◌, map, is_none, length, take, if◌then◌else◌,
}
use foliot.Log.Json.{Json}
use foliot.Log.Scan.{BadLine, Scanned, ScanError, Result, ok, err, scan, unrecorded}
use foliot.Log.Writer.{Log, Io, Entry, AppendError, append}

pub data OpenError (Byte : Type 0) : Type 0 where
  no_root : OpenError Byte
  no_directory : OpenError Byte
  lock_unopened : OpenError Byte
  locked : List Byte → OpenError Byte  -- `LockedError`, with the holder
  flock_failed : OpenError Byte
  lock_unwritten : OpenError Byte
  log_unread : OpenError Byte
  unscanned : ScanError → OpenError Byte
  unrepaired : OpenError Byte
  unappended : AppendError → OpenError Byte

-- The files of a home. `held` says that a live process holds the flock of home.lock.
pub record Home (Byte : Type 0) : Type 0 where
  pub log : List Byte
  pub lock : List Byte
  pub held : Bool
  pub moved : List (String × List Byte)

-- What the system answers during one Open: which calls succeed, the pid and the instants. `torn_part`
-- is how much of the torn bytes a failed write of the moved copy wrote; `ios n` is for append n.
pub record OpenIo : Type 0 where
  pub absolute : Bool
  pub makes_directory : Bool
  pub pid : ℕ
  pub started : String
  pub opens_lock : Bool
  pub flocks : Bool
  pub reads_lock : Bool
  pub cuts_lock : Bool
  pub writes_lock : Bool
  pub stats_lock : Bool
  pub opens_log : Bool
  pub stats_log : Bool
  pub reads_log : Bool
  pub torn_name : String
  pub creates : Bool
  pub writes : Bool
  pub torn_part : ℕ
  pub syncs : Bool
  pub closes : Bool
  pub syncs_dir : Bool
  pub cuts_log : Bool
  pub syncs_log : Bool
  pub ios : ℕ → Io

-- filepath.Join("log", "events.torn." + ts)
abbrev moved_to : OpenIo → String
moved_to io = text_append "log/" io.torn_name

module _ (j : Json) where
  abbrev pub orchestrator : String → j.Raw → Entry j.Raw
  orchestrator typ payload = record {
    typ = typ;
    task = none;
    attempt = none;
    actor = "orchestrator";
    cause = none;
    evidence = none;
    payload = some payload;
  }

  -- Appends in a row, up to the first error.
  unfoldable pub append_all :
      (ℕ → Io) → List (Entry j.Raw) → Log j.Byte → Log j.Byte × Option AppendError
  append_all ios [] l = (l, none)
  append_all ios (x ∷ xs) l =
      let (l', seq, e) = append j (ios 0) x l in
      let rest = append_all (λ n. ios (suc n)) xs l' in
      elim e [ some b ↦ (l', some b) | none ↦ rest ]

  -- `repair`, up to its append: the torn bytes are copied out and synced, then the log is cut.
  abbrev copied : OpenIo → Bool
  copied io = io.writes && (io.syncs && (io.closes && io.syncs_dir))

  unfoldable pub repair : OpenIo → Scanned j.Raw j.Byte → Home j.Byte → Home j.Byte × Bool
  repair io s h =
      if not io.creates
      then (h, false)
      else let copy = if io.writes then s.torn else take io.torn_part s.torn in
        (
          record h {
            moved = (io.torn_name, copy) ∷ h.moved;
            log = if copied io && io.cuts_log then take s.end h.log else h.log;
          },
          copied io && (io.cuts_log && io.syncs_log),
        )

  -- The entries that `load` appends, in its order.
  abbrev pub repair_entry : OpenIo → Scanned j.Raw j.Byte → List (Entry j.Raw)
  repair_entry io s = orchestrator "log.repaired" (j.repaired (length s.torn) (moved_to io)) ∷ []

  abbrev pub quarantine_entry : BadLine → Entry j.Raw
  quarantine_entry b = orchestrator "log.quarantined" (j.quarantined b.seq b.reason)

  abbrev pub takeover_entry : List j.Byte → List (Entry j.Raw)
  takeover_entry [] = []
  takeover_entry (b ∷ bs) =
      orchestrator "home.lock_taken" (j.taken (j.lock_pid (b ∷ bs)) (j.lock_started (b ∷ bs))) ∷ []

  abbrev pub Opened : Type 0
  Opened = Option (OpenError j.Byte) × Log j.Byte × Home j.Byte

  abbrev handle : List j.Byte → ℕ → String → Log j.Byte
  handle file seq started = record {
    disk = file;
    is_open = true;
    seq = seq;
    size = length file;
    opened = 0;
    started = started;
    broken = none;
  }

  abbrev appended : Option AppendError → Option (OpenError j.Byte)
  appended none = none
  appended (some b) = some (unappended b)

  -- The appends of `load`, then that of home.opened, whose seq the log keeps.
  unfoldable pub announce :
      OpenIo → List (Entry j.Raw) → Log j.Byte → Option AppendError × Log j.Byte
  announce io xs l =
      let (l', e) = append_all io.ios xs l in
      let (l'', seq, e') =
        append j (io.ios (length xs)) (orchestrator "home.opened" (j.opened io.pid l.started)) l' in
      elim e [ some b ↦ (some b, l') | none ↦ (e', record l'' { opened = seq }) ]

  -- `load` after the scan and the repair, and the last append of `Open`. `l` is the new log.
  finish : OpenIo → List (Entry j.Raw) → Log j.Byte → Home j.Byte → Opened
  unfolding announce
  finish io xs l h =
      let (e, l') = announce io xs l in
      (appended e, l', record h { log = l'.disk; held = is_none e })

  -- `load` from its scan on. A torn tail is repaired before anything is appended.
  abbrev entries_after : OpenIo → Scanned j.Raw j.Byte → List j.Byte → List (Entry j.Raw)
  entries_after io s stale = map quarantine_entry (unrecorded j s) ++ takeover_entry stale

  load_torn : OpenIo → Scanned j.Raw j.Byte → List j.Byte → List j.Byte → Home j.Byte → Opened
  unfolding repair finish
  load_torn io s stale [] h =
      finish io (entries_after io s stale) (handle h.log s.last_seq io.started) h
  load_torn io s stale (b ∷ bs) h =
      let (h', done) = repair io s h in
      let l = handle h'.log s.last_seq io.started in
      if done
      then finish io (repair_entry io s ++ entries_after io s stale) l h'
      else (some unrepaired, l, record h' { held = false })

  load_scan : OpenIo → List j.Byte → Result (Scanned j.Raw j.Byte) → Home j.Byte → Opened
  unfolding load_torn
  load_scan io stale (err x) h =
      (some (unscanned x), handle h.log 0 io.started, record h { held = false })
  load_scan io stale (ok s) h = load_torn io s stale s.torn h

  load : OpenIo → List j.Byte → Home j.Byte → Opened
  unfolding load_scan scan
  load io stale h =
      if not (io.opens_log && (io.stats_log && io.reads_log))
      then (some log_unread, handle h.log 0 io.started, record h { held = false })
      else load_scan io stale (scan j h.log) h

  abbrev lock_written : OpenIo → List j.Byte → List j.Byte
  lock_written io old =
      if not (io.reads_lock && io.cuts_lock)
      then old
      else if io.writes_lock
      then j.lock_content io.pid io.started ++ j.newline ∷ []
      else []

  -- `takeLock`, and `load` with the lock's earlier content under it.
  open_locked : OpenIo → Home j.Byte → Opened
  unfolding load
  open_locked io h =
      let h' = record h { lock = lock_written io h.lock } in
      if not (io.reads_lock && (io.cuts_lock && (io.writes_lock && io.stats_lock)))
      then (some lock_unwritten, handle h.log 0 io.started, h')
      else load io (j.trim h.lock) h'

  -- `Open`. The log is of use only if the error is none.
  unfoldable pub open_home : OpenIo → Home j.Byte → Opened
  unfolding open_locked append_all append
  open_home io h =
      let l = handle h.log 0 io.started in
      if not io.absolute
      then (some no_root, l, h)
      else if not io.makes_directory
      then (some no_directory, l, h)
      else if not io.opens_lock
      then (some lock_unopened, l, h)
      else if h.held
      then (some (locked (j.trim h.lock)), l, h)
      else if not io.flocks
      then (some flock_failed, l, h)
      else open_locked io h

-- What the system answers during one Close.
pub record CloseIo : Type 0 where
  pub append_io : Io
  pub pid : ℕ
  pub closes_log : Bool
  pub cuts_lock : Bool
  pub closes_lock : Bool

-- The error of `Close` is that of the first of its calls that fails.
pub data CloseError : Type 0 where
  unannounced : AppendError → CloseError
  log_unclosed : CloseError
  lock_uncut : CloseError
  lock_unclosed : CloseError

abbrev first_error : Option AppendError → Bool → Bool → Bool → Option CloseError
first_error (some b) _ _ _ = some (unannounced b)
first_error none closes cuts releases =
    if not closes
    then some log_unclosed
    else if not cuts
    then some lock_uncut
    else if not releases
    then some lock_unclosed
    else none

module _ (j : Json) where
  unfoldable pub close_home :
      CloseIo → Log j.Byte → Home j.Byte → Option CloseError × Log j.Byte × Home j.Byte
  unfolding append
  close_home io l h =
      if not l.is_open
      then (none, l, h)
      else let (l', seq, e) =
          append j io.append_io (orchestrator j "home.closed" (j.closed io.pid l.opened)) l in
        (
          first_error e io.closes_log io.cuts_lock io.closes_lock,
          record l' { is_open = false },
          record h { log = l'.disk; lock = if io.cuts_lock then [] else h.lock; held = false },
        )

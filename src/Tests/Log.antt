-- ===== src/Tests/Log.antt =====
-- The event log at small files.
use foliot.Common.{◌≡◌, refl, pos, true, false, none, some, List, [], ◌∷◌, ◌↔◌, length}
use foliot.Log.Event.{Event}
use foliot.Log.Scan.{ok, err, ScanError, split, verify, scan}
use foliot.Log.Scan.Position.{fits}
use foliot.Log.Scan.Whole.{lines, positional, scan-positional, scan_fails_iff}
use foliot.Log.Scan.Accounts.{Rising, RisingBad, Apart, scan-Apart}
use foliot.Log.Open.Repair.{Kept, repair-Kept}
use foliot.Log.Writer.Append.{IsReady}
use foliot.Log.Writer.Effect.{Effect, append-Effect}
use foliot.Log.Writer.{Io, Entry, Log, append}
use foliot.Log.Open.{Home, OpenIo, open_home, repair}
use foliot.Log.Open.Verifies.{open_home-verify}
use foliot.Tests.Sample.{sample, Item, line_end, letter, event, Fields}

abbrev good_io : Io
good_io = record {
  lock_same = true;
  log_same = true;
  now = "2026-09-14T00:00:00.000Z";
  short = none;
  truncates = true;
  syncs = true;
}

abbrev good_open : OpenIo
good_open = record {
  absolute = true;
  makes_directory = true;
  pid = 7;
  started = "2026-09-14T00:00:00.000Z";
  opens_lock = true;
  flocks = true;
  reads_lock = true;
  cuts_lock = true;
  writes_lock = true;
  stats_lock = true;
  opens_log = true;
  stats_log = true;
  reads_log = true;
  torn_name = "events.torn.20260914T000000.000Z";
  creates = true;
  writes = true;
  torn_part = 0;
  syncs = true;
  closes = true;
  syncs_dir = true;
  cuts_log = true;
  syncs_log = true;
  ios = λ n. good_io;
}

abbrev second : Event Fields
second = record {
  seq = pos 2;
  ts = "";
  typ = "home.opened";
  task = none;
  attempt = none;
  actor = "orchestrator";
  cause = none;
  evidence = some [];
  payload = record { keys = "pid" ∷ "started_at" ∷ []; seq = none };
  v = pos 1;
}

-- An unparseable line, an event in its place, and a torn tail; the lock was left behind.
abbrev crashed : Home Item
crashed = record {
  log = letter 1 ∷ line_end ∷ event second ∷ line_end ∷ letter 2 ∷ [];
  lock = letter 3 ∷ [];
  held = false;
  moved = [];
}

crashed_opens : (open_home sample good_open crashed).0 ≡ none
unfolding open_home
crashed_opens = refl

open_home-verify_example : verify sample (open_home sample good_open crashed).2.log ≡ none
open_home-verify_example = open_home-verify sample good_open crashed crashed_opens

crashed_fits : fits sample 0 (lines sample crashed.log) ≡ true
unfolding fits split
crashed_fits = refl

scan-positional_example : scan sample crashed.log ≡ ok (positional sample crashed.log)
scan-positional_example = scan-positional sample crashed.log crashed_fits

-- A first event that is out of its place, twice.
abbrev doubled : List Item
doubled = event second ∷ line_end ∷ event second ∷ line_end ∷ []

scan_fails_iff_example :
    (fits sample 0 (lines sample doubled) ≡ false)
    ↔ ((x : ScanError) × (scan sample doubled ≡ err x))
scan_fails_iff_example = scan_fails_iff sample doubled

scan-Apart_example :
    ((positional sample crashed.log).last_seq ≡ length (lines sample crashed.log))
    × Rising sample 0
        (positional sample crashed.log).last_seq
        (positional sample crashed.log).events
    × RisingBad sample 0
        (positional sample crashed.log).last_seq
        (positional sample crashed.log).bad
    × Apart sample (positional sample crashed.log).events (positional sample crashed.log).bad
scan-Apart_example =
    scan-Apart sample crashed.log (positional sample crashed.log)
      (scan-positional sample crashed.log crashed_fits)

repair-Kept_example :
    Kept sample good_open
      (positional sample crashed.log).torn
      crashed
      (repair sample good_open (positional sample crashed.log) crashed).0
repair-Kept_example =
    repair-Kept sample good_open crashed (positional sample crashed.log)
      (scan-positional sample crashed.log crashed_fits)

abbrev empty_log : Log Item
empty_log = record {
  disk = [];
  is_open = true;
  seq = 0;
  size = 0;
  opened = 0;
  started = "";
  broken = none;
}

empty-IsReady : IsReady sample empty_log
unfolding fits split
empty-IsReady = record { whole = refl; fit = refl; counted = refl; sized = refl }

abbrev opening : Entry Fields
opening = record {
  typ = "home.opened";
  task = none;
  attempt = none;
  actor = "orchestrator";
  cause = none;
  evidence = none;
  payload = some (record { keys = "pid" ∷ "started_at" ∷ []; seq = none });
}

append-Effect_example :
    Effect sample good_io opening empty_log (append sample good_io opening empty_log)
append-Effect_example = append-Effect sample good_io opening empty_log empty-IsReady (λ raw h. tt)

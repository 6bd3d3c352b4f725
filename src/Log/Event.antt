-- ===== src/Log/Event.antt =====
-- src/core/log/event.go and catalogue.go: the envelope of a line, and the closed catalogue of types.
use foliot.Common.{ℕ, String, ℤ, pos, Bool, true, false, Option, List, [], ◌∷◌}

-- The envelope version this binary writes and the highest it reads.
abbrev pub version : ℤ
version = pos 1

-- `MaxEventBytes`, 1 << 20.
abbrev pub max_event_bytes : ℕ
max_event_bytes = 1048576

pub record Evidence : Type 0 where
  pub kind : String
  pub ref : String

-- The data's encoded text, `json.RawMessage`, is of a type that the codec gives.
pub record Event (Raw : Type 0) : Type 0 where
  pub seq : ℤ
  pub ts : String
  pub typ : String
  pub task : Option String
  pub attempt : Option ℤ
  pub actor : String
  pub cause : Option ℤ
  pub evidence : Option (List Evidence)  -- `none` is the nil slice
  pub payload : Raw
  pub v : ℤ

-- One row of the catalogue: who writes the type, the data fields it requires, and if it is synced.
pub record Row : Type 0 where
  pub actor : String
  pub required : List String
  pub durable : Bool

abbrev row : String → String → List String → Bool → String × Row
row typ actor required durable =
    (typ, record { actor = actor; required = required; durable = durable })

abbrev pub catalogue : List (String × Row)
catalogue =
    row "home.lock_taken" "orchestrator" ("stale_pid" ∷ "stale_started_at" ∷ []) false
    ∷ row "home.opened" "orchestrator" ("pid" ∷ "started_at" ∷ []) true
    ∷ row "home.closed" "orchestrator" ("pid" ∷ "opened_seq" ∷ []) true
    ∷ row "log.repaired" "orchestrator" ("dropped_bytes" ∷ "moved_to" ∷ []) true
    ∷ row "log.quarantined" "orchestrator" ("seq" ∷ "reason" ∷ []) true
    ∷ row "bench.run" "bench"
        ("corpus" ∷ "corpus_sha" ∷ "task" ∷ "class" ∷ "arm" ∷ "adapter" ∷ "gate" ∷ "repeat"
          ∷ "model" ∷ "provider" ∷ "billing" ∷ "base_sha" ∷ "base_exit" ∷ "landed_exit"
          ∷ "benchmark" ∷ "cap_usd" ∷ "isolation_proven" ∷ "isolation_probe" ∷ "history_free"
          ∷ "landed_object_exit" ∷ "model_cutoff" ∷ "public_since" ∷ "run" ∷ [])
        true
    ∷ row "bench.verdict" "bench"
        ("corpus" ∷ "task" ∷ "arm" ∷ "repeat" ∷ "pass" ∷ "false_claim" ∷ "columns" ∷ "check_exit"
          ∷ "examined" ∷ [])
        true
    ∷ row "bench.verified" "bench"
        ("corpus" ∷ "corpus_sha" ∷ "task" ∷ "base_exit" ∷ "landed_exit" ∷ "examined" ∷ []) true
    ∷ row "bench.probe" "bench"
        ("corpus" ∷ "task" ∷ "arm" ∷ "model" ∷ "isolation" ∷ "check_lines" ∷ "lines_seen"
          ∷ "denials" ∷ "proven" ∷ "cost_usd" ∷ [])
        true
    ∷ row "bench.refused" "bench" ("corpus" ∷ "run" ∷ "control" ∷ "reason" ∷ []) true
    ∷ row "bench.estimate" "bench"
        ("corpus" ∷ "arms" ∷ "repeats" ∷ "tasks" ∷ "mean_cost_usd" ∷ "projected_usd" ∷ []) true
    ∷ []

abbrev pub evidence_kinds : List String
evidence_kinds = "file" ∷ "sha" ∷ "url" ∷ "run" ∷ "event" ∷ []

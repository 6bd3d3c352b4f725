-- ===== src/Log/Json.antt =====
-- encoding/json as the log uses it: the codec is a parameter, with what the log relies on as laws.
-- A line is a list of bytes of an alphabet that the log never looks into but for the newline.
use foliot.Common.{
  ℕ, ◌≡◌, String, ℤ, pos, Bool, true, false, Option, some, List, [], ◌∷◌, ◌++◌, All,
}
use foliot.Log.Event.{Event}
use foliot.Log.Check.{CheckError}

-- Why a complete line cannot be used: the reasons that `badLine` carries.
pub data Reason : Type 0 where
  unparseable : String → Reason
  no_positive_seq : Reason
  misplaced : ℤ → ℕ → Reason
  refused : CheckError → Reason

-- The result of json.Unmarshal of a line: the error's text, or the event.
pub data Decoded (Raw : Type 0) : Type 0 where
  malformed : String → Decoded Raw
  decoded : Event Raw → Decoded Raw

pub record Json : Type 1 where
  pub Byte : Type 0
  pub is_newline : Byte → Bool
  pub newline : Byte
  pub Raw : Type 0
  -- json.Marshal(e) and json.Unmarshal(raw, &e)
  pub encode : Event Raw → Option (List Byte)
  pub decode : List Byte → Decoded Raw
  -- json.Unmarshal of the data into a map's keys, and into struct{ Seq int64 }
  pub keys : Raw → Option (List String)
  pub seq_of : Raw → Option ℤ
  -- json.Marshal of the maps that the log's own records carry
  pub opened : ℕ → String → Raw
  pub closed : ℕ → ℕ → Raw
  pub repaired : ℕ → String → Raw
  pub quarantined : ℕ → Reason → Raw
  pub taken : Option ℤ → Option String → Raw
  -- json.Unmarshal of a leftover lock file, nulls where it is torn
  pub lock_pid : List Byte → Option ℤ
  pub lock_started : List Byte → Option String
  -- json.Marshal(lockContent{pid, started_at}), and bytes.TrimSpace
  pub lock_content : ℕ → String → List Byte
  pub trim : List Byte → List Byte
  -- the data is what json.Marshal returned, so encoding it again does not change it
  pub Marshalled : Raw → Type 0
  pub newline_lem : is_newline newline ≡ true
  pub encode_one_line :
      (e : Event Raw) (b : List Byte) → encode e ≡ some b → All (λ x. is_newline x ≡ false) b
  pub decode-encode :
      (e : Event Raw) (b : List Byte)
      → Marshalled e.payload
      → encode e ≡ some b
      → decode (b ++ newline ∷ []) ≡ decoded e
  pub opened-Marshalled : (pid : ℕ) (at : String) → Marshalled (opened pid at)
  pub closed-Marshalled : (pid seq : ℕ) → Marshalled (closed pid seq)
  pub repaired-Marshalled : (n : ℕ) (name : String) → Marshalled (repaired n name)
  pub quarantined-Marshalled : (seq : ℕ) (r : Reason) → Marshalled (quarantined seq r)
  pub taken-Marshalled : (p : Option ℤ) (s : Option String) → Marshalled (taken p s)
  pub keys-quarantined :
      (seq : ℕ) (r : Reason) → keys (quarantined seq r) ≡ some ("reason" ∷ "seq" ∷ [])
  pub seq_of-quarantined : (seq : ℕ) (r : Reason) → seq_of (quarantined seq r) ≡ some (pos seq)

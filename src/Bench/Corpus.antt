-- ===== src/Bench/Corpus.antt =====
-- src/core/bench/corpus.go: the records of a corpus, and `LoadManifest`. A regular expression, a
-- digest and a time are what their packages make of a text.

pub mod Load
pub mod Sound
use foliot.Common.{
  ℕ, String, ℤ, ltb_ℤ, pos, negsuc, Bool, true, false, not, ◌&&◌, ◌||◌, Option, none, some, List,
  [], ◌∷◌, if◌then◌else◌, ◌=s=◌, contains, is_none, leb,
}

-- What the packages regexp, time and crypto/sha256 answer: a pattern's program, if it compiles, the
-- number of its groups, whether it is found in a text, and the last text of its first group in a text;
-- the source's own patterns `prRe` (with its group), `diffRe` and `networkRe`, and the pattern of a
-- merge message for a pull request; an RFC 3339 time in seconds since 1970; and a digest in hex.
pub record Packages : Type 1 where
  pub Regexp : Type 0
  pub compile : String → Option Regexp
  pub groups : Regexp → ℕ
  pub finds : Regexp → String → Bool
  pub last_group : Regexp → String → Option String
  pub pull_request : String → Option String
  pub has_diff : String → Bool
  pub has_network : String → Bool
  pub merges : String → String → Bool
  pub parse_time : String → Option ℤ
  pub digest : String → String

-- `Classes` and `maxRequestChars`
abbrev pub classes : List String
classes = "defect" ∷ "feature" ∷ "refactor" ∷ []

abbrev pub max_request_chars : ℕ
max_request_chars = 4000

-- `Scope` and `History`
pub record Scope : Type 0 where
  pub files : List String
  pub discover : Bool

pub record History : Type 0 where
  pub source : String
  pub item : String
  pub text : String

-- `Task`. `at` is 0001-01-01, the zero of time.Time, until `LoadTask` sets it.
pub record TaskRecord : Type 0 where
  pub id : String
  pub class : String
  pub request : String
  pub request_sha256 : String
  pub repository : String
  pub base_sha : String
  pub landed_sha : String
  pub pull_request : String
  pub setup : String
  pub visible_check : String
  pub scope : Scope
  pub history : History
  pub clock_at : String
  pub at : ℤ

-- The members of corpus.json, as it is read.
pub record ManifestFile : Type 0 where
  pub classes : List (String × ℤ)
  pub history_refusals : List (String × String)
  pub visible_examined_from : String
  pub clock_kind : String

-- `Marker` and `Manifest`, with the patterns compiled.
pub record Marker (k : Packages) : Type 0 where
  pub what : String
  pub re : k.Regexp

pub record Manifest (k : Packages) : Type 0 where
  pub classes : List (String × ℤ)
  pub refusals : List (Marker k)
  pub visible_re : k.Regexp

-- The errors of `LoadManifest`, in the order of the code.
pub data ManifestError : Type 0 where
  unreadable : ManifestError
  bad_class : String → ManifestError
  no_markers : ManifestError
  bad_marker : String → ManifestError
  no_count : ManifestError
  bad_count : String → ManifestError
  no_group : String → ManifestError
  bad_clock : String → ManifestError

-- `knownClass`
abbrev pub known_class : String → Bool
known_class name = contains name classes

-- The first class that is not pre-registered or has a negative count.
abbrev pub odd_class : List (String × ℤ) → Option String
odd_class [] = none
odd_class ((name, n) ∷ cs) =
    if not (known_class name) || ltb_ℤ n (pos 0) then some name else odd_class cs

pub data Loaded {ℓ} (A : Type ℓ) : Type ℓ where
  failed : ManifestError → Loaded A
  loaded : A → Loaded A

module _ (k : Packages) where
  abbrev add_marker : Marker k → Loaded (List (Marker k)) → Loaded (List (Marker k))
  add_marker m (failed e) = failed e
  add_marker m (loaded ms) = loaded (m ∷ ms)

  -- The markers with their patterns compiled, or the first that is empty or does not compile.
  abbrev pub compile_markers : List (String × String) → Loaded (List (Marker k))
  compile_markers [] = loaded []
  compile_markers ((what, pattern) ∷ ms) = elim (k.compile pattern) [
    | none ↦ failed (bad_marker pattern)
    | some re ↦
        let rest = compile_markers ms in
        if pattern =s= ""
        then failed (bad_marker pattern)
        else add_marker (record { what = what; re = re }) rest
  ]

  abbrev with_count : ManifestFile → List (Marker k) → Loaded (Manifest k)
  with_count f ms =
      if f.visible_examined_from =s= ""
      then failed no_count
      else elim (k.compile f.visible_examined_from) [
        | none ↦ failed (bad_count f.visible_examined_from)
        | some re ↦
            if not (leb 1 (k.groups re))
            then failed (no_group f.visible_examined_from)
            else if not (f.clock_kind =s= "node")
            then failed (bad_clock f.clock_kind)
            else loaded (record { classes = f.classes; refusals = ms; visible_re = re })
      ]

  abbrev with_markers : ManifestFile → Loaded (List (Marker k)) → Loaded (Manifest k)
  with_markers f (failed e) = failed e
  with_markers f (loaded ms) = with_count f ms

  abbrev check_manifest : ManifestFile → Loaded (Manifest k)
  check_manifest f = elim (odd_class f.classes) [
    | some name ↦ failed (bad_class name)
    | none ↦ elim f.history_refusals [
      | [] ↦ failed no_markers
      | m ∷ ms ↦ with_markers f (compile_markers (m ∷ ms))
    ]
  ]

  -- `LoadManifest`, of the file that is read, none if it does not read.
  unfoldable pub load_manifest : Option ManifestFile → Loaded (Manifest k)
  load_manifest none = failed unreadable
  load_manifest (some f) = check_manifest f

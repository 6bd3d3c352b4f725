-- ===== src/Bench/Corpus/Load.antt =====
-- src/core/bench/corpus.go: `LoadTask` and `checkFiles`. A refusal is kept as what it says of which
-- text, not as the sentence that is printed.
use Prim.Native.String.{◌++◌ as text_append}
use text.Mathlib.Text.{get?}
use foliot.Common.{
  ℕ, String, codes, Bool, true, false, not, ◌&&◌, ◌||◌, Option, none, some, List, [], ◌∷◌, ◌++◌,
  if◌then◌else◌, ◌=s=◌, is_none, length, ltb, leb, ◌==◌,
}
use foliot.Bench.Strings.{includes, trim_space, byte_length}
use foliot.Bench.Corpus.{Packages, TaskRecord, Manifest, Marker, known_class, max_request_chars}

pub data Refusal : Type 0 where
  -- the record
  unreadable_record : Refusal
  id_not_directory : String → String → Refusal
  id_not_slug : String → Refusal
  class_unknown : String → Refusal
  shas_not_full : Refusal
  shas_equal : Refusal
  field_empty : String → Refusal
  clock_unread : String → Refusal
  scope_empty : Refusal
  digest_differs : Refusal
  -- criterion 2
  no_pull_request : String → Refusal
  item_names_no_pull : String → Refusal
  -- criterion 5
  history_carries : String → Refusal
  -- criterion 6
  request_too_long : ℕ → Refusal
  request_empty : Refusal
  request_has_diff : Refusal
  request_links_pull : Refusal
  request_names_landed : Refusal
  -- the hidden check's files
  no_check : Refusal
  check_link : String → Refusal
  check_network : String → Refusal
  check_reaches : String → String → Refusal
  check_runs_visible : String → Refusal
  check_unread : Refusal

-- `if c { refuse(r) }`
abbrev pub when {ℓ} : {R : Type ℓ} → Bool → R → List R
when c r = if c then r ∷ [] else []

abbrev all_codes : (ℕ → Bool) → List ℕ → Bool
all_codes p [] = true
all_codes p (c ∷ cs) = p c && all_codes p cs

-- `shaRe`: 40 of 0-9 and a-f.
abbrev pub is_hex : ℕ → Bool
is_hex c = (leb 48 c && leb c 57) || (leb 97 c && leb c 102)

unfoldable pub is_sha : String → Bool
is_sha s = (length (codes s) == 40) && all_codes is_hex (codes s)

-- `idRe`: a lower-case letter or digit, then at most 99 of them or dashes.
abbrev is_alnum : ℕ → Bool
is_alnum c = (leb 48 c && leb c 57) || (leb 97 c && leb c 122)

abbrev is_slug_codes : List ℕ → Bool
is_slug_codes [] = false
is_slug_codes (c ∷ cs) =
    is_alnum c && (leb (length cs) 99 && all_codes (λ d. is_alnum d || (d == 45)) cs)

unfoldable pub is_slug : String → Bool
is_slug s = is_slug_codes (codes s)

abbrev pub blank : String → Bool
blank s = trim_space s =s= ""

-- The record's fields that may not be blank; Go ranges over them in no fixed order.
abbrev pub named_fields : TaskRecord → List (String × String)
named_fields t =
    ("repository", t.repository)
    ∷ ("visible_check", t.visible_check)
    ∷ ("history.source", t.history.source)
    ∷ ("history.item", t.history.item)
    ∷ ("history.text", t.history.text)
    ∷ []

abbrev pub empty_fields : List (String × String) → List Refusal
empty_fields [] = []
empty_fields ((name, v) ∷ fs) = when (blank v) (field_empty name) ++ empty_fields fs

abbrev pub check_shas : String → String → List Refusal
check_shas base landed =
    if not (is_sha base) || not (is_sha landed)
    then shas_not_full ∷ []
    else when (base =s= landed) shas_equal

-- `len(sha) >= 7 && strings.Contains(text, sha[:7])`. Where byte 7 lies inside a character, which only a
-- sha that is refused by its shape has, no text holds it.
abbrev pub names_sha : String → String → Bool
names_sha text sha =
    leb 7 (byte_length sha) && (elim (get? sha 0 7) [ none ↦ false | some p ↦ includes text p ])

module _ (k : Packages) where
  abbrev pub check_clock : TaskRecord → List Refusal
  check_clock t = when (is_none (k.parse_time t.clock_at)) (clock_unread t.id)

  abbrev pub check_pull : TaskRecord → List Refusal
  check_pull t =
      if is_none (k.pull_request t.pull_request)
      then no_pull_request t.pull_request ∷ []
      else when (not (includes t.history.text t.pull_request)) (item_names_no_pull t.pull_request)

  abbrev pub check_markers : List (Marker k) → String → List Refusal
  check_markers [] text = []
  check_markers (m ∷ ms) text =
      when (k.finds m.re text) (history_carries m.what) ++ check_markers ms text

  -- What criterion 5 reads.
  abbrev pub carried : TaskRecord → String
  carried t = text_append t.history.text (text_append "\n" t.request)

  -- `t.at = at`, if the time reads.
  abbrev pub set_at : TaskRecord → TaskRecord
  set_at t = elim (k.parse_time t.clock_at) [ none ↦ t | some at ↦ record t { at = at } ]

  abbrev pub request_refusals : TaskRecord → List Refusal
  request_refusals t =
      when (ltb max_request_chars (length (codes t.request)))
        (request_too_long (length (codes t.request)))
      ++ (when (blank t.request) request_empty
          ++ (when (k.has_diff t.request) request_has_diff
              ++ (when (not (t.pull_request =s= "") && includes t.request t.pull_request)
                    request_links_pull
                  ++ when (names_sha t.request t.landed_sha) request_names_landed)))

  abbrev pub record_refusals : String → TaskRecord → List Refusal
  record_refusals dir t =
      when (not (t.id =s= dir)) (id_not_directory t.id dir)
      ++ (when (not (is_slug t.id)) (id_not_slug t.id)
          ++ (when (not (known_class t.class)) (class_unknown t.class)
              ++ (check_shas t.base_sha t.landed_sha
                  ++ (empty_fields (named_fields t)
                      ++ (check_clock t
                          ++ (when ((length t.scope.files == 0) && not t.scope.discover) scope_empty
                              ++ when (not (k.digest t.request =s= t.request_sha256))
                                  digest_differs))))))

  -- `LoadTask`, of the record that is read in a directory, none if it does not read.
  unfoldable pub load_task :
      Manifest k → String → Option TaskRecord → Option TaskRecord × List Refusal
  unfolding is_sha is_slug trim_space
  load_task m dir none = (none, unreadable_record ∷ [])
  load_task m dir (some t) = (
    some (set_at t),
    record_refusals dir t
        ++ (check_pull t ++ (check_markers m.refusals (carried t) ++ request_refusals t)),
  )

-- What filepath.WalkDir visits below a check's directory: an error of its own, a symbolic link, a file
-- with its content if it reads, and anything else.
pub data Visit : Type 0 where
  walk_error : Visit
  link : String → Visit
  special : Visit
  file : String → Option String → Visit

-- The words by which a check would reach the corpus.
abbrev pub reaching : String → List String
reaching root = root ∷ "FOLIOT_HOME" ∷ "--git-dir" ∷ "GIT_DIR" ∷ []

abbrev pub reaches : String → String → List String → List Refusal
reaches p text [] = []
reaches p text (s ∷ ss) =
    when (not (s =s= "") && includes text s) (check_reaches p s) ++ reaches p text ss

module _ (k : Packages) (visible root : String) where
  abbrev pub read_check : String → String → List Refusal
  read_check p text =
      when (k.has_network text) (check_network p)
      ++ (reaches p text (reaching root)
          ++ when (not (trim_space visible =s= "") && includes text (trim_space visible))
              (check_runs_visible p))

  -- The files and the refusals of a walk. An error ends it.
  abbrev pub walk_check : List Visit → List (String × String) × List Refusal
  walk_check [] = ([], [])
  walk_check (walk_error ∷ vs) = ([], check_unread ∷ [])
  walk_check (link p ∷ vs) = let (fs, rs) = walk_check vs in (fs, check_link p ∷ rs)
  walk_check (special ∷ vs) = walk_check vs
  walk_check (file p none ∷ vs) = ((p, "") ∷ [], check_unread ∷ [])
  walk_check (file p (some text) ∷ vs) =
      let (fs, rs) = walk_check vs in ((p, text) ∷ fs, read_check p text ++ rs)

  -- `checkFiles`, of whether check.sh is a regular file and what the walk visits. A file comes with its
  -- content, empty if it does not read. The walk is in the order of the names.
  unfoldable pub check_files : Bool → List Visit → List (String × String) × List Refusal
  unfolding trim_space
  check_files regular vs = if not regular then ([], no_check ∷ []) else walk_check vs

-- ===== src/Bench/Verify/History.antt =====
-- src/core/bench/verify.go: `historyRefusals`, `addedPaths`, `ensureMirror` and `corpusVersion`. git is
-- what it answers to its arguments: its trimmed output, none if it fails.
use Prim.Native.String.{◌++◌ as text_append}
use foliot.Common.{
  ℕ, String, Bool, true, not, ◌&&◌, Option, none, some, List, [], ◌∷◌, ◌++◌, leb, if◌then◌else◌,
  ◌=s=◌, contains, is_none,
}
use foliot.Bench.Strings.{
  has_prefix, includes, split_on, trim_space, tail_text, byte_length, is_space, push_char,
}
use foliot.Bench.Corpus.{Packages, TaskRecord}
use foliot.Bench.Corpus.Load.{when}
use foliot.Bench.Verify.{
  Why, base_not_ancestor, landed_off_default, message_names_no_pull, tree_unread,
  copied_from_repository, diff_unread, quotes_diff,
}

abbrev pub Git : Type 0
Git = List String → Option String

-- strings.Fields: the words between spaces.
abbrev not_empty : List String → List String
not_empty [] = []
not_empty (w ∷ ws) = let rest = not_empty ws in if w =s= "" then rest else w ∷ rest

abbrev split_spaces : String → List String
split_spaces String.[] = "" ∷ []
split_spaces (String.◌∷◌ c s) =
    let rest = split_spaces s in if is_space c then "" ∷ rest else push_char c rest

unfoldable pub words : String → List String
words s = not_empty (split_spaces s)

-- `solutionLineMin`
abbrev pub solution_line_min : ℕ
solution_line_min = 24

-- f[2], if the line has three words.
abbrev third : List String → Option String
third (a ∷ b ∷ c ∷ ws) = some c
third _ = none

-- The blobs of the lines of `git ls-tree -r`.
abbrev pub blobs_of : List String → List String
blobs_of [] = []
blobs_of (l ∷ ls) =
    let rest = blobs_of ls in elim (third (words l)) [ none ↦ rest | some b ↦ b ∷ rest ]

abbrev text_of : Option String → String
text_of none = ""
text_of (some t) = t

-- An added line of a diff, and the first one that the request quotes.
abbrev pub is_added : String → Bool
is_added l = has_prefix l "+" && not (has_prefix l "+++")

abbrev pub is_quoted : String → String → Bool
is_quoted request l =
    is_added l
    && (leb solution_line_min (byte_length (trim_space (tail_text l)))
        && includes request (trim_space (tail_text l)))

abbrev pub quoted : String → List String → List Why
quoted request [] = []
quoted request (l ∷ ls) =
    let rest = quoted request ls in
    if is_quoted request l then quotes_diff (trim_space (tail_text l)) ∷ [] else rest

module _ (k : Packages) (git : Git) where
  abbrev names_pull : TaskRecord → String → List Why
  names_pull t n = elim (git ("log" ∷ "-1" ∷ "--format=%B" ∷ t.landed_sha ∷ [])) [
    | none ↦ message_names_no_pull n ∷ []
    | some msg ↦ when (not (k.merges n msg)) (message_names_no_pull n)
  ]

  abbrev pull_refusals : TaskRecord → List Why
  pull_refusals t = elim (k.pull_request t.pull_request) [ none ↦ [] | some n ↦ names_pull t n ]

  abbrev tree : String → Option String
  tree sha = git ("ls-tree" ∷ "-r" ∷ sha ∷ [])

  abbrev pub blobs : String → List String
  blobs sha = blobs_of (split_on 10 (text_of (tree sha)))

  -- The files of the check that are in the repository. `hash` is `git hash-object` of a file.
  abbrev pub copied : List String → List (String × String) → (String → Option String) → List Why
  copied ids [] hash = []
  copied ids ((p, text) ∷ fs) hash =
      let rest = copied ids fs hash in
      elim (hash p) [
        | none ↦ rest
        | some id ↦ if contains id ids then copied_from_repository p ∷ rest else rest
      ]

  abbrev the_diff : TaskRecord → Option String
  the_diff t =
      git ("diff" ∷ "--no-color" ∷ "--no-ext-diff" ∷ "--unified=0" ∷ t.base_sha ∷ t.landed_sha ∷ [])

  -- `historyRefusals`
  unfoldable pub history_refusals :
      TaskRecord → List (String × String) → (String → Option String) → List Why
  unfolding split_on words trim_space
  history_refusals t files hash =
      when (is_none (git ("merge-base" ∷ "--is-ancestor" ∷ t.base_sha ∷ t.landed_sha ∷ [])))
        base_not_ancestor
      ++ (when (is_none (git ("merge-base" ∷ "--is-ancestor" ∷ t.landed_sha ∷ "HEAD" ∷ [])))
            landed_off_default
          ++ (pull_refusals t
              ++ (when (is_none (tree t.base_sha)) tree_unread
                  ++ (when (is_none (tree t.landed_sha)) tree_unread
                      ++ (copied (blobs t.base_sha ++ blobs t.landed_sha) files hash
                          ++ (when (is_none (the_diff t)) diff_unread
                              ++ quoted t.request (split_on 10 (text_of (the_diff t)))))))))

-- `change`: a file's new content, or its deletion.
pub data Change : Type 0 where
  write : String → String → Change
  delete : String → Change

-- The fields of `git diff --name-status -z`, two by two.
abbrev add_write : String → Option String → Option (List Change) → Option (List Change)
add_write p none rest = none
add_write p (some text) none = none
add_write p (some text) (some cs) = some (write p text ∷ cs)

abbrev add_delete : String → Option (List Change) → Option (List Change)
add_delete p none = none
add_delete p (some cs) = some (delete p ∷ cs)

module _ (git : Git) (blob : String → Option String) where
  -- The additions and deletions, none if the content of an addition does not read.
  abbrev pub changes_of : List String → Option (List Change)
  changes_of (status ∷ p ∷ fs) =
      let rest = changes_of fs in
      if status =s= "A"
      then add_write p (blob p) rest
      else if status =s= "D"
      then add_delete p rest
      else rest
  changes_of _ = some []

  abbrev drop_nul : String → String → String
  drop_nul c t = if (c =s= "\0") && (t =s= "") then "" else text_append c t

  -- strings.TrimRight(s, "\x00")
  abbrev trim_nuls : String → String
  trim_nuls String.[] = ""
  trim_nuls (String.◌∷◌ c s) = drop_nul (String.◌∷◌ c String.[]) (trim_nuls s)

  -- `addedPaths`. `blob` is a file's content at the landed commit.
  unfoldable pub added_paths : TaskRecord → Option (List Change)
  unfolding split_on
  added_paths t =
      elim (git
        ("diff" ∷ "--name-status" ∷ "--no-renames" ∷ "-z" ∷ t.base_sha ∷ t.landed_sha ∷ [])) [
          | none ↦ none
          | some out ↦ changes_of (split_on 0 (trim_nuls out))
        ]

-- The sha that pins a corpus and whether it holds what is not in the sha: `corpusVersion`.
unfoldable pub corpus_version : Git → String × Bool
corpus_version git = elim (git ("rev-parse" ∷ "HEAD" ∷ [])) [
  | none ↦ ("none", true)
  | some sha ↦
      elim (git
        ("status" ∷ "--porcelain" ∷ "--untracked-files=all" ∷ "--" ∷ "corpus" ∷ "checks" ∷ [])) [
          | none ↦ (sha, true)
          | some status ↦ (sha, not (status =s= ""))
        ]
]

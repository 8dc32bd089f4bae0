-- ===== src/RefScan/Includes.antt =====
-- The include tags, and the files that a tree includes: `INCLUDE_TAGS`, `claims_to_include` and
-- `include_dir_files` of src/companion/yaml_resolver.py, and `include_tag`, `_include_targets` and
-- `_enqueue_includes` of src/companion/refscan.py. The directories enter as finite trees: `os.walk`
-- follows no links. The message of a refused tag is cut down to the tag and what it names.
use hactl_companion.Base.{
  ◌-◌, Bool, not, ◌&&◌, Option, none, some, List, [], ◌∷◌, ◌++◌, Text, codes, eq_text, mem_text,
  starts_with, lower, strip, join, is_blank, length, drop, leb, ◌==◌, if◌then◌else◌,
}
use hactl_companion.Http.{HttpError, uncaught, unknown_include, Result, ok, err, ◌>>=◌}
use hactl_companion.PathGuard.{FilePath, Os, render, name, confined, relative_to}
use hactl_companion.Backups.{parent, lt_text}
use hactl_companion.Yaml.{Value, Items, Fields, tagged, seq, nil, cons, end, field}
use hactl_companion.Yaml
use hactl_companion.RefScan.Walk.{SkippedFile, reason_text, missing, unreadable}

abbrev pub include_tags : List Text
include_tags =
    codes "!include"
    ∷ codes "!include_dir_list"
    ∷ codes "!include_dir_merge_list"
    ∷ codes "!include_dir_named"
    ∷ codes "!include_dir_merge_named"
    ∷ []

-- `tag.lstrip("!")`.
unfoldable pub lstrip_bang : Text → Text
lstrip_bang [] = []
lstrip_bang (c ∷ s) = let rest = lstrip_bang s in if c == 33 then rest else c ∷ s

unfoldable pub claims_to_include : Text → Bool
unfolding lstrip_bang
claims_to_include tag = starts_with (lower (lstrip_bang tag)) (codes "include")

unfoldable pub refused_tag : Text → Text → HttpError
refused_tag tag raw =
    unknown_include (codes "Unsupported include directive " ++ tag ++ codes " at " ++ raw)

-- The tag and the target of a tagged scalar, `none` if it includes nothing.
unfoldable pub include_tag : Value → Result (Option (Text × Text))
unfolding claims_to_include refused_tag
include_tag (tagged tag value) =
    let raw = strip value in
    if not (is_blank value) && mem_text tag include_tags
    then ok (some (tag, raw))
    else if not (is_blank value) && claims_to_include tag
    then err (refused_tag tag raw)
    else ok none
include_tag _ = ok none

-- A directory as `os.walk` finds it: its files, and its directories with their names.
mutual
  pub data Directory : Type 0 where
    directory : List Text → Subdirectories → Directory

  pub data Subdirectories : Type 0 where
    no_more : Subdirectories
    subdirectory : Text → Directory → Subdirectories → Subdirectories

unfoldable pub is_hidden : Text → Bool
is_hidden file = starts_with file (codes ".")

-- `fnmatch.fnmatchcase(name, "*.yaml")`.
unfoldable pub is_yaml : Text → Bool
is_yaml file = leb 5 (length file) && eq_text (drop (length file - 5) file) (codes ".yaml")

unfoldable pub insert_text : Text → List Text → List Text
insert_text t [] = t ∷ []
insert_text t (u ∷ us) = if lt_text u t then u ∷ insert_text t us else t ∷ u ∷ us

-- `sorted(files)`.
unfoldable pub sort_texts : List Text → List Text
unfolding insert_text lt_text
sort_texts [] = []
sort_texts (t ∷ ts) = insert_text t (sort_texts ts)

-- What was found under the directories of one level, each with the name that it is sorted by.
unfoldable pub insert_found :
    Text → List FilePath → List (Text × List FilePath) → List (Text × List FilePath)
insert_found t found [] = (t, found) ∷ []
insert_found t found ((u, more) ∷ rest) =
    if lt_text u t then (u, more) ∷ insert_found t found rest else (t, found) ∷ (u, more) ∷ rest

unfoldable pub all_found : List (Text × List FilePath) → List FilePath
all_found [] = []
all_found ((t, found) ∷ rest) = found ++ all_found rest

unfoldable pub files_of : Os → FilePath → List Text → List FilePath
files_of os root [] = []
files_of os root (file ∷ files) =
    let rest = files_of os root files in
    if not (is_hidden file) && is_yaml file then os.realpath_join root file ∷ rest else rest

-- The loop over `os.walk`: a directory's own files, then its directories in the order of their names.
unfoldable mutual
  unfolding files_of sort_texts insert_found all_found is_hidden lt_text

  pub walk_directory : Os → FilePath → Directory → List FilePath
  walk_directory os root (directory files subdirectories) =
      files_of os root (sort_texts files) ++ all_found (walk_each os root subdirectories)

  pub walk_each : Os → FilePath → Subdirectories → List (Text × List FilePath)
  walk_each os root no_more = []
  walk_each os root (subdirectory dir d rest) =
      let found = walk_directory os (root ++ dir ∷ []) d in
      let others = walk_each os root rest in
      if is_hidden dir then others else insert_found dir found others

unfoldable pub found_in : Os → FilePath → Option Directory → List FilePath
unfolding walk_directory
found_in os top none = []
found_in os top (some d) = walk_directory os top d

-- `listing` gives the tree of a directory, and `none` where `os.path.isdir` is false.
unfoldable pub include_dir_files :
    Os → (FilePath → Option Directory) → FilePath → FilePath → Result (List FilePath)
unfolding found_in
include_dir_files os listing dir base =
    let root_base = os.realpath (render base) in
    let top = os.realpath (render dir) in
    if not (confined (render top) (render root_base))
    then err (uncaught (codes "Path traversal not allowed: " ++ render dir))
    else ok (found_in os top (listing top))

-- `parts.as_posix()`.
unfoldable pub as_posix : FilePath → Text
as_posix [] = codes "."
as_posix (p ∷ ps) = join (codes "/") (p ∷ ps)

unfoldable pub rel_within : Os → FilePath → FilePath → Option Text
unfolding as_posix
rel_within os path base = elim (relative_to (os.realpath (render path)) base) [
  | none ↦ none
  | some parts ↦ some (as_posix parts)
]

unfoldable pub rel_to : Os → FilePath → FilePath → Text
unfolding rel_within
rel_to os path base = elim (rel_within os path base) [ none ↦ name path | some rel ↦ rel ]

-- What was collected so far from a tree: the files it includes, and the records of the log.
abbrev pub Targets : Type 0
Targets = List FilePath × List SkippedFile

unfoldable pub both : Targets → Targets → Targets
both (files, log) (files', log') = (files ++ files', log ++ log')

unfoldable pub missing_directory : Option Directory → Text → List SkippedFile
missing_directory none location = (location, reason_text missing) ∷ []
missing_directory (some d) location = []

module _ (os : Os) (listing : FilePath → Option Directory) where
  -- A tag other than `!include` that names a directory.
  unfoldable pub directory_targets : FilePath → FilePath → Result Targets
  unfolding missing_directory
  directory_targets dest base =
      let files = include_dir_files os listing dest base in
      elim (rel_within os dest base) [
        | none ↦ ok ([], (rel_to os dest base, reason_text unreadable) ∷ [])
        | some _ ↦
            files >>= λ found. ok (found, missing_directory (listing dest) (rel_to os dest base))
      ]

  unfoldable pub tag_targets : FilePath → FilePath → Option (Text × Text) → Result Targets
  unfolding directory_targets
  tag_targets context base none = ok ([], [])
  tag_targets context base (some (tag, raw)) =
      let dest = os.realpath_join context raw in
      let files = directory_targets dest base in
      if eq_text tag (codes "!include") then ok (dest ∷ [], []) else files

  -- `walk` of `_include_targets`.
  unfoldable mutual
    unfolding tag_targets include_tag both

    pub include_targets : FilePath → FilePath → Value → Result Targets
    include_targets context base (seq items) = item_targets context base items
    include_targets context base (Yaml.map fields) = field_targets context base fields
    include_targets context base v = include_tag v >>= λ tag. tag_targets context base tag

    pub item_targets : FilePath → FilePath → Items → Result Targets
    item_targets context base nil = ok ([], [])
    item_targets context base (cons item items) = include_targets context base item >>= λ here.
        item_targets context base items >>= λ rest. ok (both here rest)

    pub field_targets : FilePath → FilePath → Fields → Result Targets
    field_targets context base end = ok ([], [])
    field_targets context base (field k v fields) = include_targets context base v >>= λ here.
        field_targets context base fields >>= λ rest. ok (both here rest)

  -- The names that are put into the queue, and the records for targets outside the base.
  unfoldable pub queued : FilePath → List FilePath → List Text × List SkippedFile
  queued base [] = ([], [])
  queued base (inc ∷ incs) =
      let (names, log) = queued base incs in
      elim (rel_within os inc base) [
        | none ↦ (names, (rel_to os inc base, reason_text unreadable) ∷ log)
        | some rel ↦ (rel ∷ names, log)
      ]

  unfoldable pub enqueue_includes :
      Value → FilePath → FilePath → Result (List Text × List SkippedFile)
  unfolding queued include_targets
  enqueue_includes data_tree abs_path base =
      include_targets (parent abs_path) base data_tree >>= λ (targets : Targets).
      let (names, log) = queued base targets.0 in ok (names, targets.1 ++ log)

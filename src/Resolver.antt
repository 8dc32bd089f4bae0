-- ===== src/Resolver.antt =====
-- `YamlResolver.load` with its includes resolved (src/companion/yaml_resolver.py). The set of visited
-- files is passed down: a file is in it exactly while it is being resolved. ruamel's loader and the
-- trees of directories are those of the reference scan.
pub mod Ends
pub mod Complete
mod Tests
use hactl_companion.Base.{
  ℕ, zero, suc, ◌+◌, ◌-◌, Bool, true, false, not, ◌&&◌, ◌||◌, ◌==◌, Option, none, some, List, [],
  ◌∷◌, ◌++◌, Text, codes, eq_text, mem_text, strip, is_blank, take, length, rfind, if◌then◌else◌,
}
use hactl_companion.Http.{Result, ok, err}
use hactl_companion.PathGuard.{FilePath, Os, render, name, is_denied}
use hactl_companion.Files.{Disk, read, paths}
use hactl_companion.Backups.{parent}
use hactl_companion.Yaml.{
  Style, bare, Key, Value, Items, Fields, null, atom, str, tagged, seq, nil, cons, end, field,
}
use hactl_companion.Yaml
use hactl_companion.RefScan.Walk.{seen_in}
use hactl_companion.RefScan.Includes.{include_tags, claims_to_include, Directory, include_dir_files}
use hactl_companion.RefScan.Load.{
  LoadEnd, loaded, file_not_found, permission_error, circular_include, value_error, other_error,
  Checked, checked, traversal, denied, check_path, World,
}

-- The exceptions of a resolution; `out_of_fuel` is the model's own.
pub data ResolveError : Type 0 where
  include_not_found access_denied path_traversal circular_chain : ResolveError
  unknown_tag : Text → Text → ResolveError
  load_failed : LoadEnd → ResolveError
  out_of_fuel : ResolveError

pub data Resolution (A : Type 0) : Type 0 where
  stopped : ResolveError → Resolution A
  resolved : A → Resolution A

infixl 5 ◌>>>◌
abbrev pub ◌>>>◌ : {A B : Type 0} → Resolution A → (A → Resolution B) → Resolution B
statement >>> next = elim statement [ stopped e ↦ stopped e | resolved value ↦ next value ]

unfoldable pub check : Checked → Resolution FilePath
check traversal = stopped path_traversal
check denied = stopped access_denied
check (checked p) = resolved p

-- `PreservedTag(tag, value)`.
unfoldable pub preserved_tag : Text → Text → Value
preserved_tag tag value = tagged tag (strip value)

-- `f.stem`: the name without its last suffix.
unfoldable pub stem_of : Text → Option ℕ → Text
stem_of file none = file
stem_of file (some zero) = file
stem_of file (some (suc i)) = if (suc i) == (length file - 1) then file else take (suc i) file

unfoldable pub stem : FilePath → Text
unfolding stem_of name rfind
stem f = stem_of (name f) (rfind (name f) 46 0 (length (name f)))

-- `result[key] = content`.
unfoldable pub put : Text → Value → Fields → Fields
put k v end = field (record { style = bare; text = k }) v end
put k v (field j u rest) =
    let later = put k v rest in if eq_text j.text k then field j v rest else field j u later

-- `result.update(content)`.
unfoldable pub update : Fields → Fields → Fields
unfolding put
update result end = result
update result (field k v fields) = update (put k.text v result) fields

unfoldable pub append : Items → Items → Items
append nil items = items
append (cons v rest) items = cons v (append rest items)

-- What the four directory tags make of the contents of their files, one file at a time.
pub data DirectoryTag : Type 0 where
  dir_named dir_list dir_merge_list dir_merge_named : DirectoryTag

unfoldable pub merge_items : Items → Value → Items
unfolding append
merge_items items (seq more) = append items more
merge_items items v = items

unfoldable pub merge_fields : Fields → Value → Fields
unfolding update
merge_fields fields (Yaml.map more) = update fields more
merge_fields fields v = fields

-- The accumulator, a list or a mapping by the tag, after one more file.
unfoldable pub accumulate : DirectoryTag → FilePath → Value → Items × Fields → Items × Fields
unfolding merge_items merge_fields put stem
accumulate dir_named f v (items, fields) = (items, put (stem f) v fields)
accumulate dir_list f v (items, fields) = (append items (cons v nil), fields)
accumulate dir_merge_list f v (items, fields) = (merge_items items v, fields)
accumulate dir_merge_named f v (items, fields) = (items, merge_fields fields v)

unfoldable pub collected : DirectoryTag → Items × Fields → Value
collected dir_named (items, fields) = Yaml.map fields
collected dir_list (items, fields) = seq items
collected dir_merge_list (items, fields) = seq items
collected dir_merge_named (items, fields) = Yaml.map fields

-- How a tag is dispatched.
pub data TagKind : Type 0 where
  include_one : TagKind
  include_dir : DirectoryTag → TagKind
  unsupported preserved : TagKind

unfoldable pub tag_kind : Text → TagKind
unfolding claims_to_include
tag_kind tag =
    if eq_text tag (codes "!include")
    then include_one
    else if eq_text tag (codes "!include_dir_named")
    then include_dir dir_named
    else if eq_text tag (codes "!include_dir_list")
    then include_dir dir_list
    else if eq_text tag (codes "!include_dir_merge_list")
    then include_dir dir_merge_list
    else if eq_text tag (codes "!include_dir_merge_named")
    then include_dir dir_merge_named
    else if claims_to_include tag
    then unsupported
    else preserved

module _ (w : World) (base : FilePath) (d : Disk) where
  unfoldable pub is_file_there : FilePath → Bool
  is_file_there p = elim (read p d) [ none ↦ false | some _ ↦ true ]

  -- The path of an include, checked; joined to the directory of the file that names it.
  unfoldable pub check_include : FilePath → Text → Resolution FilePath
  unfolding check
  check_include context value =
      check (check_path w.os base (render (w.os.realpath_join context (strip value))))

  unfoldable pub files_in : FilePath → Option Directory → Resolution (List FilePath)
  files_in dir none = resolved []
  files_in dir (some tree) = elim (include_dir_files w.os w.listing dir base) [
    | err e ↦ stopped path_traversal
    | ok files ↦ resolved files
  ]

  -- The functions below take `_resolve_file`, with the files that are being resolved, as `resolve`.
  module _ (resolve : FilePath → Resolution Value) where
    -- The loop over the files of a directory; a denied file is passed over.
    unfoldable pub resolve_each :
        DirectoryTag → List FilePath → Items × Fields → Resolution (Items × Fields)
    unfolding accumulate
    resolve_each tag [] result = resolved result
    resolve_each tag (f ∷ files) result =
        let passed = resolve_each tag files result in
        let taken =
          resolve f >>> λ content. resolve_each tag files (accumulate tag f content result) in
        if is_denied (name f) then passed else taken

    unfoldable pub include_directory : DirectoryTag → FilePath → Resolution Value
    unfolding resolve_each collected
    include_directory tag dir = files_in dir (w.listing dir) >>> λ files.
        resolve_each tag files (nil, end) >>> λ result. resolved (collected tag result)

    unfoldable pub include_file : FilePath → Resolution Value
    unfolding is_file_there
    include_file p =
        let content = resolve p in if is_file_there p then content else stopped include_not_found

    unfoldable pub resolve_kind : TagKind → Text → Text → FilePath → Resolution Value
    unfolding include_file include_directory check_include preserved_tag
    resolve_kind include_one tag value context = check_include context value >>> λ p. include_file p
    resolve_kind (include_dir kind) tag value context =
        check_include context value >>> λ dir. include_directory kind dir
    resolve_kind unsupported tag value context = stopped (unknown_tag tag (strip value))
    resolve_kind preserved tag value context = resolved (preserved_tag tag value)

    unfoldable pub resolve_tag : Text → Text → FilePath → Resolution Value
    unfolding resolve_kind tag_kind
    resolve_tag tag value context = resolve_kind (tag_kind tag) tag value context

    unfoldable mutual
      unfolding resolve_tag

      -- `_walk_and_resolve`.
      pub walk_and_resolve : FilePath → Value → Resolution Value
      walk_and_resolve context (tagged tag value) = resolve_tag tag value context
      walk_and_resolve context (seq items) =
          walk_items context items >>> λ items'. resolved (seq items')
      walk_and_resolve context (Yaml.map fields) =
          walk_fields context fields >>> λ fields'. resolved (Yaml.map fields')
      walk_and_resolve context v = resolved v

      pub walk_items : FilePath → Items → Resolution Items
      walk_items context nil = resolved nil
      walk_items context (cons item items) = walk_and_resolve context item >>> λ item'.
          walk_items context items >>> λ items'. resolved (cons item' items')

      pub walk_fields : FilePath → Fields → Resolution Fields
      walk_fields context end = resolved end
      walk_fields context (field k v fields) = walk_and_resolve context v >>> λ v'.
          walk_fields context fields >>> λ fields'. resolved (field k v' fields')

    unfoldable pub resolve_loaded : FilePath → LoadEnd → Resolution Value
    unfolding walk_and_resolve
    resolve_loaded context (loaded v) = walk_and_resolve context v
    resolve_loaded context e = stopped (load_failed e)

    -- `_resolve_includes`, for the text of the file; a file that is not there cannot be read.
    unfoldable pub resolve_includes : FilePath → Option Text → Resolution Value
    unfolding resolve_loaded is_blank
    resolve_includes context none = stopped include_not_found
    resolve_includes context (some content) =
        let v = resolve_loaded context (w.parse content) in
        if is_blank content then resolved null else v

  -- `_resolve_file` once its path is checked; `deeper` resolves the files that this one includes.
  unfoldable pub resolve_checked :
      (List FilePath → FilePath → Resolution Value) → List FilePath → FilePath → Resolution Value
  unfolding resolve_includes
  resolve_checked deeper visiting p =
      if seen_in p visiting
      then stopped circular_chain
      else resolve_includes (deeper (p ∷ visiting)) (parent p) (read p d)

  -- `_resolve_file`.
  unfoldable pub resolve_file : ℕ → List FilePath → FilePath → Resolution Value
  unfolding resolve_checked
  resolve_file zero visiting p = stopped out_of_fuel
  resolve_file (suc fuel) visiting p = check (check_path w.os base (render p)) >>> λ q.
      resolve_checked (resolve_file fuel) visiting q

  -- `load(rel_path)`.
  unfoldable pub load_resolved : Text → Resolution Value
  unfolding resolve_file is_file_there
  load_resolved rel = check (check_path w.os base rel) >>> λ target.
      let content = resolve_file (2 + length (paths d)) [] target in
      if is_file_there target then content else stopped include_not_found

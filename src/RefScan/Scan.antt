-- ===== src/RefScan/Scan.antt =====
-- `SkipLog`, `scan_yaml_for_literal` and `scan_yaml_for_entities` of src/companion/refscan.py, and the
-- handlers of GET /v1/ref/scan and GET /v1/ref/entities (src/companion/routes/refscan.py). `\w` of
-- Python's `re` is the parameter `is_word`.
pub mod Hits
pub mod Coverage
use hactl_companion.Base.{
  ℕ, Bool, true, false, not, ◌&&◌, ◌||◌, Option, none, some, List, [], ◌∷◌, ◌++◌, Text, codes,
  eq_text, map, if◌then◌else◌,
}
use hactl_companion.Http.{HttpError, bad_request, uncaught, Result, ok, err, ◌>>=◌}
use hactl_companion.PathGuard.{FilePath, render}
use hactl_companion.Files.{Disk, paths}
use hactl_companion.Backups.{lt_text}
use hactl_companion.Yaml.{Value}
use hactl_companion.RefScan.Tree.{TreePath, render_path, scan_tree}
use hactl_companion.RefScan.Entities.{Leaf, entity_leaves, terminal_key}
use hactl_companion.RefScan.Walk.{
  SkippedFile, eq_skipped, WalkState, WalkEnd, done, raised, out_of_fuel, ConfigGraph, walk_config,
}
use hactl_companion.RefScan.Load.{World, scan_graph}

-- The order of `sorted` on pairs of texts.
abbrev pub lt_pair : Text × Text → Text × Text → Bool
lt_pair (a, b) (c, e) = lt_text a c || (eq_text a c && lt_text b e)

-- `_records.add`, in a set that is kept in the order of `sorted`.
unfoldable pub add_record : SkippedFile → List SkippedFile → List SkippedFile
add_record r [] = r ∷ []
add_record r (s ∷ records) =
    let rest = add_record r records in
    if eq_skipped r s then s ∷ records else if lt_pair s r then s ∷ rest else r ∷ s ∷ records

-- `SkipLog.files()` after all the records of a walk.
unfoldable pub skipped_files : List SkippedFile → List SkippedFile
unfolding add_record
skipped_files [] = []
skipped_files (r ∷ log) = add_record r (skipped_files log)

-- What `skipped_fields` adds to an answer: nothing, where the log is empty.
unfoldable pub skipped_fields : List SkippedFile → Option (List SkippedFile)
unfolding skipped_files
skipped_fields [] = none
skipped_fields (r ∷ log) = some (skipped_files (r ∷ log))

module _ {A : Type 0} (sort_key : A → Text × Text) where
  unfoldable pub insert_by_key : A → List A → List A
  insert_by_key x [] = x ∷ []
  insert_by_key x (y ∷ ys) =
      let rest = insert_by_key x ys in
      if lt_pair (sort_key y) (sort_key x) then y ∷ rest else x ∷ y ∷ ys

  -- `sort(key=…)`, which is stable.
  unfoldable pub sort_by_key : List A → List A
  unfolding insert_by_key
  sort_by_key [] = []
  sort_by_key (x ∷ xs) = insert_by_key x (sort_by_key xs)

pub record ScanHit : Type 0 where
  pub location : Text
  pub path : Text
  pub matched_value : Text

pub record EntityRef : Type 0 where
  pub location : Text
  pub path : Text
  pub key : Text
  pub matched_value : Text

-- The hits of one file of the walk, and of all of them.
unfoldable pub file_hits : (ℕ → Bool) → Text → Text → Value → List ScanHit
file_hits is_word target at tree =
    map (λ path. record { location = at; path = render_path path; matched_value = target })
      (scan_tree is_word target tree)

unfoldable pub all_hits : (ℕ → Bool) → Text → ConfigGraph → List (FilePath × Value) → List ScanHit
unfolding file_hits
all_hits is_word target g [] = []
all_hits is_word target g ((p, tree) ∷ found) =
    file_hits is_word target (g.location p) tree ++ all_hits is_word target g found

unfoldable pub file_entities : (ℕ → Bool) → Text → Value → List EntityRef
unfolding terminal_key
file_entities is_word at tree =
    map
      (λ (leaf : Leaf). record {
        location = at;
        path = render_path leaf.0;
        key = terminal_key leaf.0;
        matched_value = leaf.1;
      })
      (entity_leaves is_word tree)

unfoldable pub all_entities : (ℕ → Bool) → ConfigGraph → List (FilePath × Value) → List EntityRef
unfolding file_entities
all_entities is_word g [] = []
all_entities is_word g ((p, tree) ∷ found) =
    file_entities is_word (g.location p) tree ++ all_entities is_word g found

-- The end of a walk, for the consumer that runs through it; the walk has rounds enough.
unfoldable pub walked : WalkEnd → Result WalkState
walked (done s) = ok s
walked (raised e) = err e
walked out_of_fuel = err (uncaught (codes "out of fuel"))

abbrev pub entry_file : Text
entry_file = codes "configuration.yaml"

-- The answer of the scans, with the records of the log.
unfoldable pub scan_yaml_for_literal :
    (ℕ → Bool) → World → FilePath → Text → Disk → Result (List ScanHit × List SkippedFile)
unfolding sort_by_key all_hits walked
scan_yaml_for_literal is_word w base target d =
    let g = scan_graph w base (some target) d in
    walked (walk_config g (paths d) entry_file) >>= λ s. ok (
      sort_by_key (λ (h : ScanHit). (h.location, h.path)) (all_hits is_word target g s.found),
      s.skipped,
    )

unfoldable pub scan_yaml_for_entities :
    (ℕ → Bool) → World → FilePath → Disk → Result (List EntityRef × List SkippedFile)
unfolding sort_by_key all_entities walked
scan_yaml_for_entities is_word w base d =
    let g = scan_graph w base none d in
    walked (walk_config g (paths d) entry_file) >>= λ s. ok (
      sort_by_key (λ (r : EntityRef). (r.location, r.path)) (all_entities is_word g s.found),
      s.skipped,
    )

-- GET /v1/ref/scan; a parameter that is not there is the empty text.
unfoldable pub get_ref_scan :
    (ℕ → Bool) → World → Text → Text → Disk → Result (List ScanHit × Option (List SkippedFile))
unfolding scan_yaml_for_literal skipped_fields
get_ref_scan is_word w base [] d = err (bad_request (codes "Missing target parameter"))
get_ref_scan is_word w base (c ∷ target) d =
    scan_yaml_for_literal is_word w (w.os.realpath base) (c ∷ target) d
    >>= λ (answer : List ScanHit × List SkippedFile). ok (answer.0, skipped_fields answer.1)

-- GET /v1/ref/entities.
unfoldable pub get_ref_entities :
    (ℕ → Bool) → World → Text → Disk → Result (List EntityRef × Option (List SkippedFile))
unfolding scan_yaml_for_entities skipped_fields
get_ref_entities is_word w base d =
    scan_yaml_for_entities is_word w (w.os.realpath base) d
    >>= λ (answer : List EntityRef × List SkippedFile). ok (answer.0, skipped_fields answer.1)

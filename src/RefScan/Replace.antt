-- ===== src/RefScan/Replace.antt =====
-- `replace_yaml_literal` of src/companion/refscan.py and the handler of POST /v1/ref/replace
-- (src/companion/routes/refscan.py). The walk reads and rewrites all trees before the first file is
-- written. What the loop does with one file is part of the visit; the trees that the walk yields are
-- rewritten once more for the report and for the writes, which gives the same.
pub mod Preview
pub mod Frame
use hactl_companion.Base.{
  ℕ, Bool, true, false, not, Option, none, some, List, [], ◌∷◌, ◌++◌, Text, codes, eq_text, map,
  if◌then◌else◌,
}
use hactl_companion.Http.{HttpError, bad_request, uncaught, Result, ok, err, ◌>>=◌}
use hactl_companion.PathGuard.{FilePath, Os, render, name}
use hactl_companion.Files.{Disk, read, paths}
use hactl_companion.Backups.{make_backup, max_backups}
use hactl_companion.Yaml.{Value, Yaml}
use hactl_companion.Surgical.Leaves.{splice_leaves}
use hactl_companion.Surgical.Save.{write_file, opened}
use hactl_companion.RefScan.Token.{subn}
use hactl_companion.RefScan.Tree.{TreePath, render_path, replace_tree}
use hactl_companion.RefScan.Includes.{enqueue_includes, rel_to}
use hactl_companion.RefScan.Walk.{
  SkippedFile, Visit, unread, crashed, WalkState, ConfigGraph, walk_config,
}
use hactl_companion.RefScan.Load.{
  World, Checked, checked, traversal, denied, check_path, load, LoadOrSkip, tree_of, skip, raise,
  load_or_skip, follow, is_file,
}
use hactl_companion.RefScan.Scan.{sort_by_key, walked, entry_file, skipped_fields}

-- A rewritten tree, the paths of its rewritten leaves, and the spliced source where it could be verified.
pub record Rewritten : Type 0 where
  pub tree : Value
  pub match_paths : List TreePath
  pub spliced : Option Text

unfoldable pub read_checked : FilePath → Disk → Checked → Result Text
unfolding opened
read_checked p d traversal = err (uncaught (codes "Path traversal not allowed: " ++ render p))
read_checked p d denied = err (uncaught (codes "Access to " ++ (name p ++ codes " is denied")))
read_checked p d (checked target) = opened (read target d)

-- `resolver.read_source(rel)`.
unfoldable pub tree_source : Os → FilePath → FilePath → Disk → Result Text
unfolding read_checked
tree_source os base p d = read_checked p d (check_path os base (render p))

module _ (is_word : ℕ → Bool) (w : World) (yaml : Yaml) (base : FilePath) (target new : Text) where
  -- The source is read only for a tree with a match.
  unfoldable pub spliced_source : FilePath → Disk → Value → List TreePath → Result Rewritten
  unfolding tree_source
  spliced_source p d data_tree [] =
      ok (record { tree = data_tree; match_paths = []; spliced = none })
  spliced_source p d data_tree (path ∷ paths) = tree_source w.os base p d >>= λ source. ok (record {
    tree = data_tree;
    match_paths = path ∷ paths;
    spliced = splice_leaves yaml source data_tree (path ∷ paths) (subn is_word target new);
  })

  unfoldable pub rewrite_tree : FilePath → Disk → Value → Result Rewritten
  unfolding spliced_source
  rewrite_tree p d data_tree =
      let (rewritten, match_paths) = replace_tree is_word target new data_tree in
      spliced_source p d rewritten match_paths

  -- The includes are read off the rewritten tree; the tree as it was loaded is what the walk yields.
  unfoldable pub replace_loaded : FilePath → Disk → LoadOrSkip → Visit
  unfolding rewrite_tree follow
  replace_loaded p d (tree_of v) =
      follow v (rewrite_tree p d v >>= λ r. enqueue_includes w.os w.listing r.tree p base)
  replace_loaded p d (skip reason) = unread reason
  replace_loaded p d (raise e) = crashed e

  unfoldable pub replace_visit : Disk → FilePath → Visit
  unfolding replace_loaded load_or_skip load
  replace_visit d p = replace_loaded p d (load_or_skip (load w.os w.parse base (render p) d))

  unfoldable pub replace_graph : Disk → ConfigGraph
  unfolding replace_visit is_file
  replace_graph d = record {
    resolve = w.os.realpath_join base;
    is_file = is_file d;
    location = λ p. rel_to w.os p base;
    visit = replace_visit d;
  }

-- One change of the report; `reformatted` is there only where it is true.
pub record Change : Type 0 where
  pub location : Text
  pub path : Text
  pub before : Text
  pub after : Text
  pub reformatted : Bool

-- What is written: the file, its tree, and the spliced source.
abbrev pub FileWrite : Type 0
FileWrite = FilePath × Value × Option Text

unfoldable pub is_whole : Option Text → Bool
is_whole none = true
is_whole (some spliced) = false

unfoldable pub file_changes : Text → Text → Text → Rewritten → List Change
unfolding is_whole
file_changes target new at r =
    map
      (λ path. record {
        location = at;
        path = render_path path;
        before = target;
        after = new;
        reformatted = is_whole r.spliced;
      })
      r.match_paths

unfoldable pub file_writes : FilePath → Rewritten → List FileWrite
file_writes p r = elim r.match_paths [ [] ↦ [] | _ ∷ _ ↦ (p, r.tree, r.spliced) ∷ [] ]

module _ (is_word : ℕ → Bool) (w : World) (yaml : Yaml) (base : FilePath) (target new : Text) where
  -- `changes` and `writes` after the walk.
  unfoldable pub collect : Disk → List (FilePath × Value) → Result (List Change × List FileWrite)
  unfolding rewrite_tree file_changes file_writes
  collect d [] = ok ([], [])
  collect d ((p, v) ∷ found) = rewrite_tree is_word w yaml base target new p d v >>= λ r.
      collect d found >>= λ (rest : List Change × List FileWrite).
      ok (file_changes target new (rel_to w.os p base) r ++ rest.0, file_writes p r ++ rest.1)

unfoldable pub after_write :
    (Disk → Option HttpError × Disk) → Result Bool × Disk → Option HttpError × Disk
after_write next (err e, d) = (some e, d)
after_write next (ok _, d) = next d

module _ (w : World) (yaml : Yaml) (base : FilePath) where
  -- The save of one file: the whole tree, or the spliced source. An exception leaves what was written.
  unfoldable pub save_checked : FilePath → Value → Option Text → Checked → Disk → Result Bool × Disk
  unfolding write_file
  save_checked p tree spliced traversal d =
      (err (uncaught (codes "Path traversal not allowed: " ++ render p)), d)
  save_checked p tree spliced denied d =
      (err (uncaught (codes "Access to " ++ (name p ++ codes " is denied"))), d)
  save_checked p tree spliced (checked target) d = write_file yaml tree spliced target d

  unfoldable pub save_backed_up : FileWrite → Result (Option Text) × Disk → Result Bool × Disk
  unfolding save_checked
  save_backed_up (p, tree, spliced) (err e, d) = (err e, d)
  save_backed_up (p, tree, spliced) (ok backup, d) =
      save_checked p tree spliced (check_path w.os base (render p)) d

  -- `clock` gives the timestamp of each file's backup.
  unfoldable pub write_one : (FilePath → Text) → FileWrite → Disk → Result Bool × Disk
  unfolding save_backed_up
  write_one clock (p, tree, spliced) d =
      save_backed_up (p, tree, spliced) (make_backup w.os (render base) max_backups (clock p) p d)

  -- The loop over `writes`; an exception ends it.
  unfoldable pub write_all : (FilePath → Text) → List FileWrite → Disk → Option HttpError × Disk
  unfolding write_one after_write
  write_all clock [] d = (none, d)
  write_all clock (write ∷ writes) d =
      after_write (write_all clock writes) (write_one clock write d)

-- The report, and the records of the log.
abbrev pub Report : Type 0
Report = List Change × List SkippedFile

unfoldable pub reported :
    List Change → List SkippedFile → Option HttpError × Disk → Result Report × Disk
unfolding sort_by_key
reported changes log (some e, d) = (err e, d)
reported changes log (none, d) =
    (ok (sort_by_key (λ (c : Change). (c.location, c.path)) changes, log), d)

module _ (w : World) (yaml : Yaml) (base : FilePath) where
  unfoldable pub apply :
      (FilePath → Text)
      → Bool
      → Result (List Change × List FileWrite × List SkippedFile)
      → Disk
      → Result Report × Disk
  unfolding reported write_all
  apply clock dry_run (err e) d = (err e, d)
  apply clock dry_run (ok (changes, writes, log)) d =
      let applied = reported changes log (write_all w yaml base clock writes d) in
      if dry_run then reported changes log (none, d) else applied

module _ (is_word : ℕ → Bool) (w : World) (yaml : Yaml) (base : FilePath) (target new : Text) where
  -- The walk with its changes and writes.
  unfoldable pub gather : Disk → Result (List Change × List FileWrite × List SkippedFile)
  unfolding collect replace_graph walked
  gather d =
      walked (walk_config (replace_graph is_word w yaml base target new d) (paths d) entry_file)
      >>= λ s.
          collect is_word w yaml base target new d s.found
          >>= λ (rewritten : List Change × List FileWrite). ok (rewritten.0, rewritten.1, s.skipped)

  unfoldable pub replace_yaml_literal : (FilePath → Text) → Bool → Disk → Result Report × Disk
  unfolding gather apply
  replace_yaml_literal clock dry_run d = apply w yaml base clock dry_run (gather d) d

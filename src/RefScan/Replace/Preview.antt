-- ===== src/RefScan/Replace/Preview.antt =====
-- The dry run of POST /v1/ref/replace, and the walk that it shares with the scans
-- (src/companion/refscan.py).
use hactl_companion.Base.{
  ℕ, ◌≡◌, refl, ap, Bool, true, false, Option, none, some, List, [], ◌∷◌, Text,
}
use hactl_companion.Http.{HttpError, Result, ok, err}
use hactl_companion.PathGuard.{FilePath, render}
use hactl_companion.Files.{Disk}
use hactl_companion.Backups.{parent}
use hactl_companion.Yaml.{Value, Yaml}
use hactl_companion.Surgical.Leaves.{splice_leaves}
use hactl_companion.RefScan.Token.{subn}
use hactl_companion.RefScan.Tree.{TreePath, replace_tree}
use hactl_companion.RefScan.Tree.Kept.{include_targets-replace_tree}
use hactl_companion.RefScan.Includes.{enqueue_includes}
use hactl_companion.RefScan.Walk.{SkippedFile}
use hactl_companion.RefScan.Load.{
  World, check_path, load, loaded, LoadOrSkip, tree_of, skip, raise, load_or_skip, scan_visit,
  scan_loaded,
}
use hactl_companion.RefScan.Load.Guarded.{load_checked-loaded, load_or_skip-tree}
use hactl_companion.RefScan.Replace.{
  Rewritten, read_checked, tree_source, spliced_source, rewrite_tree, replace_loaded, replace_visit,
  FileWrite, write_all, reported, apply, gather, replace_yaml_literal, Change, Report,
}

reported-disk :
    (changes : List Change) (log : List SkippedFile) (r : Option HttpError × Disk) (report : Report)
    (d : Disk)
    → (reported changes log r).0 ≡ ok report
    → reported changes log (none, d) ≡ (ok report, d)
unfolding reported
reported-disk changes log (none, d') report d h = ap (λ x. (x, d)) h
reported-disk changes log (some e, d') report d h = absurd (cc h)

-- Where a replacement goes through, its dry run on the same volume answers the same report, with the
-- changes, the flags and the records of the log, and leaves the volume as it was.
pub replace_yaml_literal-dry_run :
    (is_word : ℕ → Bool) (w : World) (yaml : Yaml) (base : FilePath) (target new : Text)
    (clock : FilePath → Text) (d : Disk) (report : Report)
    → (replace_yaml_literal is_word w yaml base target new clock false d).0 ≡ ok report
    → replace_yaml_literal is_word w yaml base target new clock true d ≡ (ok report, d)
unfolding replace_yaml_literal
replace_yaml_literal-dry_run is_word w yaml base target new clock d report =
    apply-dry_run (gather is_word w yaml base target new d)
  where
    apply-dry_run :
        (gathered : Result (List Change × List FileWrite × List SkippedFile))
        → (apply w yaml base clock false gathered d).0 ≡ ok report
        → apply w yaml base clock true gathered d ≡ (ok report, d)
    apply-dry_run (err e) h = absurd (unfold apply in cc h)
    apply-dry_run (ok (changes, writes, log)) h =
        unfold apply in reported-disk changes log (write_all w yaml base clock writes d) report d h

-- What `load` has read is there to be read once more.
tree_source-loaded :
    (w : World) (base p : FilePath) (d : Disk) (v : Value)
    → load w.os w.parse base (render p) d ≡ loaded v
    → (text : Text) × (tree_source w.os base p d ≡ ok text)
unfolding load tree_source read_checked
tree_source-loaded w base p d v h =
    let (target, text, accepted, there, parsed) =
      load_checked-loaded w.parse d (check_path w.os base (render p)) v h in
    (text, rw (accepted, there) refl)

spliced_source-tree :
    (is_word : ℕ → Bool) (w : World) (yaml : Yaml) (base : FilePath) (target new : Text)
    (p : FilePath) (d : Disk) (v : Value) (match_paths : List TreePath)
    → ((text : Text) × (tree_source w.os base p d ≡ ok text))
    → (r : Rewritten) × (spliced_source is_word w yaml base target new p d v match_paths ≡ ok r)
      × (r.tree ≡ v)
unfolding spliced_source
spliced_source-tree is_word w yaml base target new p d v [] there = (_, refl, refl)
spliced_source-tree is_word w yaml base target new p d v (path ∷ match_paths) (source, h) = (
  record {
    tree = v;
    match_paths = path ∷ match_paths;
    spliced = splice_leaves yaml source v (path ∷ match_paths) (subn is_word target new);
  },
  rw (h, spliced_source) refl,
  refl,
)

rewrite_tree-ok :
    (is_word : ℕ → Bool) (w : World) (yaml : Yaml) (base : FilePath) (target new : Text)
    (p : FilePath) (d : Disk) (v : Value)
    → ((text : Text) × (tree_source w.os base p d ≡ ok text))
    → (r : Rewritten) × (rewrite_tree is_word w yaml base target new p d v ≡ ok r)
      × (r.tree ≡ (replace_tree is_word target new v).0)
unfolding rewrite_tree
rewrite_tree-ok is_word w yaml base target new p d v there =
    let (rewritten, match_paths) = replace_tree is_word target new v in
    spliced_source-tree is_word w yaml base target new p d rewritten match_paths there

enqueue_includes-replace_tree :
    (is_word : ℕ → Bool) (w : World) (base : FilePath) (target new : Text) (p : FilePath)
    (v : Value)
    → enqueue_includes w.os w.listing (replace_tree is_word target new v).0 p base
      ≡ enqueue_includes w.os w.listing v p base
unfolding enqueue_includes
enqueue_includes-replace_tree is_word w base target new p v =
    rw (include_targets-replace_tree is_word w.os w.listing target new (parent p) base v) refl

-- The replacement follows the same files as a scan of all files: its visit of a file gives the same
-- tree, the same includes and the same records as theirs, or the same exception, also though it reads
-- the includes off the tree that it has rewritten and reads the source once more for its splices.
pub replace_visit-scan_visit :
    (is_word : ℕ → Bool) (w : World) (yaml : Yaml) (base : FilePath) (target new : Text) (d : Disk)
    (p : FilePath)
    → replace_visit is_word w yaml base target new d p ≡ scan_visit w base none d p
unfolding replace_visit scan_visit
replace_visit-scan_visit is_word w yaml base target new d p =
    on_loaded (load_or_skip (load w.os w.parse base (render p) d))
      (λ v h. tree_source-loaded w base p d v (load_or_skip-tree _ v h))
  where
    on_loaded :
        (o : LoadOrSkip)
        → ((v : Value) → o ≡ tree_of v → (text : Text) × (tree_source w.os base p d ≡ ok text))
        → replace_loaded is_word w yaml base target new p d o ≡ scan_loaded w base p o
    on_loaded (skip reason) there = unfold replace_loaded scan_loaded in refl
    on_loaded (raise e) there = unfold replace_loaded scan_loaded in refl
    on_loaded (tree_of v) there =
        unfold replace_loaded scan_loaded in
        let (r, h, same) = rewrite_tree-ok is_word w yaml base target new p d v (there v refl) in
        rw (h, same, enqueue_includes-replace_tree is_word w base target new p v) refl

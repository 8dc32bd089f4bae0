-- ===== src/RefScan/Load/Guarded.antt =====
-- The path guard of the walk over the configuration graph (src/companion/refscan.py).
use hactl_companion.Base.{
  ◌≡◌, refl, subst, ap, ◌∙◌, true, false, Option, none, some, List, ◌∷◌, Text, arith, Bool-cases,
  inl, inr,
}
use hactl_companion.PathGuard.{
  FilePath, Os, IsResolving, IsCanonical, is_within, is_denied_path, render,
}
use hactl_companion.PathGuard.Confine.{confine-is_within}
use hactl_companion.Files.{Disk, read}
use hactl_companion.Yaml.{Value}
use hactl_companion.RefScan.Walk.{read_tree, SkippedFile}
use hactl_companion.Http.{Result, ok, err}
use hactl_companion.RefScan.Includes.{enqueue_includes}
use hactl_companion.RefScan.Load.{
  check_path, check_confined, Checked, checked, traversal, denied, load, load_target, LoadEnd,
  loaded, file_not_found, permission_error, circular_include, value_error, other_error,
  load_or_skip, LoadOrSkip, tree_of, skip, raise, World, scan_visit, scan_loaded, pass_over,
  load_checked, follow,
}

load_target-loaded :
    (parse : Text → LoadEnd) (o : Option Text) (v : Value)
    → load_target parse o ≡ loaded v
    → (text : Text) × (o ≡ some text) × (parse text ≡ loaded v)
unfolding load_target
load_target-loaded parse none v h = absurd (cc h)
load_target-loaded parse (some text) v h = (text, refl, h)

pub load_checked-loaded :
    (parse : Text → LoadEnd) (d : Disk) (c : Checked) (v : Value)
    → load_checked parse d c ≡ loaded v
    → (p : FilePath) × (text : Text) × (c ≡ checked p)
      × (read p d ≡ some text)
      × (parse text ≡ loaded v)
unfolding load_checked
load_checked-loaded parse d traversal v h = absurd (cc h)
load_checked-loaded parse d denied v h = absurd (cc h)
load_checked-loaded parse d (checked p) v h =
    let (text, there, e) = load_target-loaded parse (read p d) v h in (p, text, refl, there, e)

follow-tree :
    (v tree : Value) (names : List Text) (lost : List SkippedFile)
    (r : Result (List Text × List SkippedFile))
    → follow v r ≡ read_tree tree names lost
    → v ≡ tree
unfolding follow
follow-tree v tree names lost (err e) h = absurd (cc h)
follow-tree v tree names lost (ok (more, log)) h = cc h

scan_loaded-tree :
    (w : World) (base p : FilePath) (o : LoadOrSkip) (tree : Value) (names : List Text)
    (lost : List SkippedFile)
    → scan_loaded w base p o ≡ read_tree tree names lost
    → o ≡ tree_of tree
unfolding scan_loaded
scan_loaded-tree w base p (tree_of v) tree names lost h =
    ap tree_of (follow-tree v tree names lost (enqueue_includes w.os w.listing v p base) h)
scan_loaded-tree w base p (skip reason) tree names lost h = absurd (cc h)
scan_loaded-tree w base p (raise e) tree names lost h = absurd (cc h)

pub load_or_skip-tree : (l : LoadEnd) (v : Value) → load_or_skip l ≡ tree_of v → l ≡ loaded v
unfolding load_or_skip
load_or_skip-tree (loaded u) v h = cc h
load_or_skip-tree file_not_found v h = absurd (cc h)
load_or_skip-tree permission_error v h = absurd (cc h)
load_or_skip-tree circular_include v h = absurd (cc h)
load_or_skip-tree value_error v h = absurd (cc h)
load_or_skip-tree (other_error m) v h = absurd (cc h)

-- A path that is checked is inside the base directory, and it is not denied.
pub check_path-checked :
    (os : Os) (b : Text) (bs : FilePath) (path : Text) (p : FilePath)
    → IsResolving os
    → os.realpath (render (b ∷ bs)) ≡ b ∷ bs
    → check_path os (b ∷ bs) path ≡ checked p
    → (p ≡ os.realpath_join (b ∷ bs) path)
      × (is_within p (b ∷ bs) ≡ true)
      × (is_denied_path p (b ∷ bs) ≡ false)
unfolding check_path check_confined
check_path-checked os b bs path p law root h =
    ground (arith, h, confine-is_within os (render (b ∷ bs)) path b bs law root)

not_passed :
    (w : World) (base : FilePath) (contains : Option Text) (d : Disk) (p : FilePath) (tree : Value)
    (names : List Text) (lost : List SkippedFile)
    → scan_visit w base contains d p ≡ read_tree tree names lost
    → load w.os w.parse base (render p) d ≡ loaded tree
unfolding scan_visit
not_passed w base contains d p tree names lost h =
    elim (Bool-cases (pass_over contains (read p d))) [
      | inl e ↦ absurd (ground (arith, e, h))
      | inr e ↦ load_or_skip-tree (load w.os w.parse base (render p) d) tree (
          scan_loaded-tree w base p (load_or_skip (load w.os w.parse base (render p) d)) tree names
            lost (rw (scan_visit, e) at h))
    ]

-- A file whose tree the walk yields is inside the configuration directory, no denied file and below no
-- denied directory, and its tree is what its text on the volume parses to; for the base directory
-- resolved and other than `/`, and a file that a name of the queue resolves to.
pub scan_visit-guarded :
    (w : World) (b : Text) (bs : FilePath) (contains : Option Text) (d : Disk) (rel : Text)
    (tree : Value) (names : List Text) (lost : List SkippedFile)
    → IsResolving w.os
    → w.os.realpath (render (b ∷ bs)) ≡ b ∷ bs
    → IsCanonical (b ∷ bs)
    → scan_visit w (b ∷ bs) contains d (w.os.realpath_join (b ∷ bs) rel) ≡ read_tree tree names lost
    → (is_within (w.os.realpath_join (b ∷ bs) rel) (b ∷ bs) ≡ true)
      × (is_denied_path (w.os.realpath_join (b ∷ bs) rel) (b ∷ bs) ≡ false)
      × ((text : Text) × (read (w.os.realpath_join (b ∷ bs) rel) d ≡ some text)
          × (w.parse text ≡ loaded tree))
unfolding scan_visit load
scan_visit-guarded w b bs contains d rel tree names lost law root canon h =
    let loads =
      not_passed w (b ∷ bs) contains d (w.os.realpath_join (b ∷ bs) rel) tree names lost h in
    let (p, text, e, there, parsed) =
      load_checked-loaded w.parse d
        (check_path w.os (b ∷ bs) (render (w.os.realpath_join (b ∷ bs) rel))) tree loads in
    let (at, within, allowed) =
      check_path-checked w.os b bs (render (w.os.realpath_join (b ∷ bs) rel)) p law root e in
    let same : p ≡ w.os.realpath_join (b ∷ bs) rel =
      at ∙ law.realpath_join-idempotent (b ∷ bs) (b ∷ bs) rel canon in
    subst
      (λ q.
        (is_within q (b ∷ bs) ≡ true)
        × (is_denied_path q (b ∷ bs) ≡ false)
        × ((text : Text) × (read q d ≡ some text) × (w.parse text ≡ loaded tree)))
      same (within, allowed, (text, there, parsed))

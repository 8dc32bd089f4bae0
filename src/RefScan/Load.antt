-- ===== src/RefScan/Load.antt =====
-- One file of the configuration graph: `_check_path` and `load` of src/companion/yaml_resolver.py, and
-- `_load_or_skip` and `_may_contain` of src/companion/refscan.py, put together to the graph that is
-- walked. What ruamel.yaml makes of a text is a parameter.
pub mod Guarded
use hactl_companion.Base.{
  ℕ, Bool, true, false, not, ◌&&◌, ◌||◌, ◌==◌, Option, none, some, List, [], ◌∷◌, ◌++◌, Text, codes,
  contains_text, if◌then◌else◌,
}
use hactl_companion.Http.{HttpError, uncaught, Result, ok, err}
use hactl_companion.PathGuard.{FilePath, Os, confine, is_denied_path, name, render}
use hactl_companion.Files.{Disk, read}
use hactl_companion.Yaml.{Value}
use hactl_companion.RefScan.Walk.{
  SkipReason, missing, unreadable, unparseable, circular, SkippedFile, Visit, passed_over, unread,
  crashed, read_tree, ConfigGraph,
}
use hactl_companion.RefScan.Includes.{Directory, enqueue_includes, rel_to}

-- How the loading of a file can end: a tree, or the exception's class. Another exception is one that
-- `_load_or_skip` does not catch, `YAMLError` among them.
pub data LoadEnd : Type 0 where
  loaded : Value → LoadEnd
  file_not_found permission_error circular_include value_error : LoadEnd
  other_error : Text → LoadEnd

-- `_check_path`: the resolved path, or its exception.
pub data Checked : Type 0 where
  checked : FilePath → Checked
  traversal denied : Checked

unfoldable pub check_confined : FilePath → Option FilePath → Checked
check_confined base none = traversal
check_confined base (some resolved) =
    if is_denied_path resolved base then denied else checked resolved

-- A path below the base is joined to the base once more by `confine`, which changes nothing.
unfoldable pub check_path : Os → FilePath → Text → Checked
unfolding check_confined
check_path os base path = check_confined base (confine os (render base) path)

unfoldable pub load_target : (Text → LoadEnd) → Option Text → LoadEnd
load_target parse none = file_not_found
load_target parse (some text) = parse text

unfoldable pub load_checked : (Text → LoadEnd) → Disk → Checked → LoadEnd
unfolding load_target
load_checked parse d traversal = value_error
load_checked parse d denied = permission_error
load_checked parse d (checked target) = load_target parse (read target d)

-- `load(rel_path, resolve=False)`.
unfoldable pub load : Os → (Text → LoadEnd) → FilePath → Text → Disk → LoadEnd
unfolding load_checked check_path
load os parse base rel d = load_checked parse d (check_path os base rel)

-- The tree, or the reason why the file is not read; an exception that is not caught goes through.
pub data LoadOrSkip : Type 0 where
  tree_of : Value → LoadOrSkip
  skip : SkipReason → LoadOrSkip
  raise : HttpError → LoadOrSkip

unfoldable pub load_or_skip : LoadEnd → LoadOrSkip
load_or_skip (loaded v) = tree_of v
load_or_skip file_not_found = skip missing
load_or_skip permission_error = skip unreadable
load_or_skip circular_include = skip circular
load_or_skip value_error = skip unparseable
load_or_skip (other_error message) = raise (uncaught message)

-- `_ESCAPED_NEWLINE_RE.search(text)`.
unfoldable pub escaped_newline : Text → Bool
escaped_newline [] = false
escaped_newline (c ∷ []) = false
escaped_newline (c ∷ e ∷ []) = (c == 92) && (e == 10)
escaped_newline (c ∷ e ∷ f ∷ s) =
    ((c == 92) && ((e == 10) || ((e == 13) && (f == 10)))) || escaped_newline (e ∷ f ∷ s)

unfoldable pub may_contain_text : Text → Text → Bool
unfolding contains_text escaped_newline
may_contain_text text needle =
    contains_text needle text || contains_text (codes "!include") text || escaped_newline text

-- A file that cannot be read may contain anything.
unfoldable pub may_contain : Text → Option Text → Bool
unfolding may_contain_text
may_contain needle none = true
may_contain needle (some text) = may_contain_text text needle

-- `contains is not None and not _may_contain(abs_path, contains)`.
unfoldable pub pass_over : Option Text → Option Text → Bool
unfolding may_contain
pass_over none text = false
pass_over (some needle) text = not (may_contain needle text)

unfoldable pub is_file : Disk → FilePath → Bool
is_file d p = elim (read p d) [ none ↦ false | some _ ↦ true ]

-- What the route and its process have at hand.
pub record World : Type 0 where
  pub os : Os
  pub parse : Text → LoadEnd
  pub listing : FilePath → Option Directory

-- The tree of a file as it goes to `_enqueue_includes`.
unfoldable pub follow : Value → Result (List Text × List SkippedFile) → Visit
follow data_tree (err e) = crashed e
follow data_tree (ok (names, lost)) = read_tree data_tree names lost

unfoldable pub scan_loaded : World → FilePath → FilePath → LoadOrSkip → Visit
unfolding follow
scan_loaded w base p (tree_of v) = follow v (enqueue_includes w.os w.listing v p base)
scan_loaded w base p (skip reason) = unread reason
scan_loaded w base p (raise e) = crashed e

-- One file that is there, in the walk of `iter_config_trees`.
unfoldable pub scan_visit : World → FilePath → Option Text → Disk → FilePath → Visit
unfolding scan_loaded pass_over load_or_skip load
scan_visit w base contains d p =
    if pass_over contains (read p d)
    then passed_over
    else scan_loaded w base p (load_or_skip (load w.os w.parse base (render p) d))

-- The graph that `iter_config_trees` walks.
unfoldable pub scan_graph : World → FilePath → Option Text → Disk → ConfigGraph
unfolding scan_visit is_file
scan_graph w base contains d = record {
  resolve = w.os.realpath_join base;
  is_file = is_file d;
  location = λ p. rel_to w.os p base;
  visit = scan_visit w base contains d;
}

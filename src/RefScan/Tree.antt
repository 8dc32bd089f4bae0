-- ===== src/RefScan/Tree.antt =====
-- The walks over one loaded tree of src/companion/refscan.py: where a token stands, its replacement,
-- and every token of the shape of an entity id. A tree holds each collection once: a document in which
-- an alias puts the same mapping or list under two paths, which the source would rewrite in place at
-- the first one, is outside the model.
pub mod Agreement
pub mod Kept
use hactl_companion.Base.{
  ℕ, zero, suc, ◌+◌, Bool, true, false, not, ◌&&◌, ◌||◌, Option, none, some, List, [], ◌∷◌, ◌++◌,
  Text, codes, eq_text, leb, ◌==◌, show_nat, map, if◌then◌else◌,
}
use hactl_companion.Yaml.{
  Style, Key, Value, Items, Fields, null, atom, str, tagged, seq, nil, cons, end, field, Seg, key,
  index,
}
use hactl_companion.Yaml
use hactl_companion.RefScan.Token.{search, subn}

-- A path from the root down.
abbrev pub TreePath : Type 0
TreePath = List Seg

-- `render_path`, for a segment behind others and for the first.
unfoldable pub render_rest : TreePath → Text
unfolding show_nat
render_rest [] = []
render_rest (index i ∷ path) = (codes "[" ++ (show_nat i ++ codes "]")) ++ render_rest path
render_rest (key t ∷ path) = (codes "." ++ t) ++ render_rest path

unfoldable pub render_path : TreePath → Text
unfolding render_rest
render_path [] = []
render_path (index i ∷ path) = (codes "[" ++ (show_nat i ++ codes "]")) ++ render_rest path
render_path (key t ∷ path) = t ++ render_rest path

-- The paths of a child, below its own segment.
abbrev pub below : Seg → List TreePath → List TreePath
below segment paths = map (λ path. segment ∷ path) paths

module _ (is_word : ℕ → Bool) where
  -- `_scan_tree`, with paths from the node down.
  unfoldable mutual
    pub scan_tree : Text → Value → List TreePath
    scan_tree target (str style t) = if search is_word target t then [] ∷ [] else []
    scan_tree target (seq items) = scan_items target 0 items
    scan_tree target (Yaml.map fields) = scan_fields target fields
    scan_tree target _ = []

    pub scan_items : Text → ℕ → Items → List TreePath
    scan_items target i nil = []
    scan_items target i (cons item items) =
        below (index i) (scan_tree target item) ++ scan_items target (suc i) items

    pub scan_fields : Text → Fields → List TreePath
    scan_fields target end = []
    scan_fields target (field k v fields) =
        below (key k.text) (scan_tree target v) ++ scan_fields target fields

  -- `_replace_tree` of a node that a container holds: the rewritten node and the paths of its
  -- rewritten leaves. A leaf keeps its style.
  unfoldable mutual
    pub replace_child : Text → Text → Value → Value × List TreePath
    replace_child target new (str style t) =
        let t' = (subn is_word target new t).0 in
        if not (eq_text t' t) then (str style t', [] ∷ []) else (str style t, [])
    replace_child target new (seq items) =
        let (items', paths) = replace_items target new 0 items in (seq items', paths)
    replace_child target new (Yaml.map fields) =
        let (fields', paths) = replace_fields target new fields in (Yaml.map fields', paths)
    replace_child target new v = (v, [])

    pub replace_items : Text → Text → ℕ → Items → Items × List TreePath
    replace_items target new i nil = (nil, [])
    replace_items target new i (cons item items) =
        let (item', paths) = replace_child target new item in
        let (items', more) = replace_items target new (suc i) items in
        (cons item' items', below (index i) paths ++ more)

    pub replace_fields : Text → Text → Fields → Fields × List TreePath
    replace_fields target new end = (end, [])
    replace_fields target new (field k v fields) =
        let (v', paths) = replace_child target new v in
        let (fields', more) = replace_fields target new fields in
        (field k v' fields', below (key k.text) paths ++ more)

  -- The root is in no container, so a root that is a leaf stays.
  unfoldable pub replace_tree : Text → Text → Value → Value × List TreePath
  unfolding replace_child
  replace_tree target new (str style t) = (str style t, [])
  replace_tree target new v = replace_child target new v

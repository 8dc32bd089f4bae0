-- ===== src/RefScan/Tree/Kept.antt =====
-- The rewriting of a tree keeps its includes (src/companion/refscan.py).
use hactl_companion.Base.{ℕ, suc, ◌≡◌, refl, Bool, Text, arith}
use hactl_companion.PathGuard.{FilePath, Os}
use hactl_companion.Base.{Option}
use hactl_companion.Yaml.{
  Value, Items, Fields, null, atom, str, tagged, seq, nil, cons, end, field, Seg, key, index,
}
use hactl_companion.Yaml
use hactl_companion.RefScan.Tree.{replace_child, replace_items, replace_fields, replace_tree}
use hactl_companion.RefScan.Includes.{
  Directory, include_tag, include_targets, item_targets, field_targets,
}

module _ (is_word : ℕ → Bool) (os : Os) (listing : FilePath → Option Directory) (target new : Text)
    (context base : FilePath) where
  mutual
    unfolding include_targets include_tag replace_child replace_items replace_fields

    child_kept :
        (v : Value)
        → include_targets os listing context base (replace_child is_word target new v).0
          ≡ include_targets os listing context base v
    child_kept null = refl
    child_kept (atom t) = refl
    child_kept (tagged tag t) = refl
    child_kept (str style t) = ground arith
    child_kept (seq items) = items_kept 0 items
    child_kept (Yaml.map fields) = fields_kept fields

    items_kept :
        (i : ℕ) (items : Items)
        → item_targets os listing context base (replace_items is_word target new i items).0
          ≡ item_targets os listing context base items
    items_kept i nil = refl
    items_kept i (cons item items) = rw (child_kept item, items_kept (suc i) items) refl

    fields_kept :
        (fields : Fields)
        → field_targets os listing context base (replace_fields is_word target new fields).0
          ≡ field_targets os listing context base fields
    fields_kept end = refl
    fields_kept (field k v fields) = rw (child_kept v, fields_kept fields) refl

  -- A tree names the same includes before and after it is rewritten.
  pub include_targets-replace_tree :
      (v : Value)
      → include_targets os listing context base (replace_tree is_word target new v).0
        ≡ include_targets os listing context base v
  unfolding replace_tree
  include_targets-replace_tree null = refl
  include_targets-replace_tree (atom t) = refl
  include_targets-replace_tree (tagged tag t) = refl
  include_targets-replace_tree (str style t) = refl
  include_targets-replace_tree (seq items) = child_kept (seq items)
  include_targets-replace_tree (Yaml.map fields) = child_kept (Yaml.map fields)

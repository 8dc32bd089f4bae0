-- ===== src/RefScan/Tree/Agreement.antt =====
-- The two walks of src/companion/refscan.py over a tree agree: what is rewritten is what was reported.
use hactl_companion.Base.{
  ℕ, suc, ◌≡◌, ◌≢◌, refl, Bool, true, false, [], ◌∷◌, arith, Text, if◌then◌else◌,
}
use hactl_companion.Yaml.{
  Value, Items, Fields, null, atom, str, tagged, seq, nil, cons, end, field, Seg, key, index,
}
use hactl_companion.Yaml
use hactl_companion.RefScan.Token.Laws.{subn-search}
use hactl_companion.RefScan.Tree.{
  scan_tree, scan_items, scan_fields, replace_child, replace_items, replace_fields, replace_tree,
}

-- A file whose root is a text.
abbrev pub is_leaf : Value → Bool
is_leaf (str style t) = true
is_leaf v = false

module _ (is_word : ℕ → Bool) (c : ℕ) (target new : Text) (distinct : c ∷ target ≢ new) where
  mutual
    unfolding scan_tree scan_items scan_fields replace_child replace_items replace_fields

    child-scan :
        (v : Value)
        → (replace_child is_word (c ∷ target) new v).1 ≡ scan_tree is_word (c ∷ target) v
    child-scan null = refl
    child-scan (atom t) = refl
    child-scan (tagged tag t) = refl
    child-scan (str style t) = ground (arith, subn-search is_word c target new t distinct)
    child-scan (seq items) = items-scan 0 items
    child-scan (Yaml.map fields) = fields-scan fields

    items-scan :
        (i : ℕ) (items : Items)
        → (replace_items is_word (c ∷ target) new i items).1
          ≡ scan_items is_word (c ∷ target) i items
    items-scan i nil = refl
    items-scan i (cons item items) = rw (child-scan item, items-scan (suc i) items) refl

    fields-scan :
        (fields : Fields)
        → (replace_fields is_word (c ∷ target) new fields).1
          ≡ scan_fields is_word (c ∷ target) fields
    fields-scan end = refl
    fields-scan (field k v fields) = rw (child-scan v, fields-scan fields) refl

  -- The replacement rewrites exactly the leaves that the scan reports, in the order of the report, if
  -- the replacement is another text than the target, which is not empty; but for a file that is one
  -- single text, which the scan reports and the replacement leaves alone. This is for a document in
  -- which no alias puts the same mapping or list under two paths.
  pub replace_tree-scan_tree :
      (v : Value)
      → (replace_tree is_word (c ∷ target) new v).1
        ≡ (if is_leaf v then [] else scan_tree is_word (c ∷ target) v)
  unfolding replace_tree
  replace_tree-scan_tree null = child-scan null
  replace_tree-scan_tree (atom t) = child-scan (atom t)
  replace_tree-scan_tree (tagged tag t) = child-scan (tagged tag t)
  replace_tree-scan_tree (str style t) = refl
  replace_tree-scan_tree (seq items) = child-scan (seq items)
  replace_tree-scan_tree (Yaml.map fields) = child-scan (Yaml.map fields)

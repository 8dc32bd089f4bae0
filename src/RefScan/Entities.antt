-- ===== src/RefScan/Entities.antt =====
-- `_ENTITY_ID_RE`, `_entity_leaves` and `_terminal_key` of src/companion/refscan.py: every text of the
-- shape of an entity id in a tree. The pattern never has to give characters back: what follows a
-- maximal maximal_run of its first class is the dot or no match begins there.
use hactl_companion.Base.{
  ℕ, zero, suc, ◌-◌, Bool, false, not, ◌&&◌, ◌||◌, Option, none, some, List, [], ◌∷◌, ◌++◌, Text,
  leb, ◌==◌, length, drop, map, if◌then◌else◌,
}
use hactl_companion.Yaml.{Value, Items, Fields, str, seq, nil, cons, end, field, Seg, key, index}
use hactl_companion.Yaml
use hactl_companion.RefScan.Token.{first_word}
use hactl_companion.RefScan.Tree.{TreePath}

-- `[a-z_]` and `[a-z0-9_]`.
unfoldable pub is_domain_char : ℕ → Bool
is_domain_char c = (leb 97 c && leb c 122) || (c == 95)

unfoldable pub is_object_char : ℕ → Bool
unfolding is_domain_char
is_object_char c = is_domain_char c || (leb 48 c && leb c 57)

unfoldable pub maximal_run : (ℕ → Bool) → Text → Text
maximal_run p [] = []
maximal_run p (c ∷ s) = let rest = maximal_run p s in if p c then c ∷ rest else []

-- The match's text where what follows it is known.
unfoldable pub ends_match : Text → Bool → Option Text
ends_match [] boundary = none
ends_match (c ∷ s) boundary = if boundary then some (c ∷ s) else none

unfoldable pub after_domain : (ℕ → Bool) → Text → Text → Option Text
unfolding maximal_run is_object_char ends_match
after_domain is_word [] s = none
after_domain is_word (d ∷ domain) [] = none
after_domain is_word (d ∷ domain) (c ∷ s) =
    let object = maximal_run is_object_char s in
    let found = ends_match object (not (first_word is_word (drop (length object) s))) in
    if c == 46 then elim found [ none ↦ none | some id ↦ some ((d ∷ domain) ++ c ∷ id) ] else none

-- The match that begins at the beginning of `s`; `before` tells whether a character of a word precedes.
unfoldable pub entity_at : (ℕ → Bool) → Bool → Text → Option Text
unfolding after_domain maximal_run is_domain_char
entity_at is_word before s =
    let domain = maximal_run is_domain_char s in
    if before then none else after_domain is_word domain (drop (length domain) s)

unfoldable pub matched_length : Option Text → ℕ
matched_length none = 0
matched_length (some id) = length id - 1

unfoldable pub matched_texts : Option Text → List Text
matched_texts none = []
matched_texts (some id) = id ∷ []

-- `finditer`, `skip` characters of the last match being left.
unfoldable pub entities_from : (ℕ → Bool) → ℕ → Bool → Text → List Text
unfolding entity_at matched_length matched_texts
entities_from is_word skip before [] = []
entities_from is_word (suc skip) before (c ∷ s) = entities_from is_word skip (is_word c) s
entities_from is_word zero before (c ∷ s) =
    let found = entity_at is_word before (c ∷ s) in
    matched_texts found ++ entities_from is_word (matched_length found) (is_word c) s

-- A match, with the path of its leaf.
abbrev pub Leaf : Type 0
Leaf = TreePath × Text

abbrev pub below_leaves : Seg → List Leaf → List Leaf
below_leaves segment leaves = map (λ (leaf : Leaf). (segment ∷ leaf.0, leaf.1)) leaves

unfoldable mutual
  unfolding entities_from

  pub entity_leaves : (ℕ → Bool) → Value → List Leaf
  entity_leaves is_word (str style t) = map (λ id. ([], id)) (entities_from is_word 0 false t)
  entity_leaves is_word (seq items) = item_leaves is_word 0 items
  entity_leaves is_word (Yaml.map fields) = field_leaves is_word fields
  entity_leaves is_word v = []

  pub item_leaves : (ℕ → Bool) → ℕ → Items → List Leaf
  item_leaves is_word i nil = []
  item_leaves is_word i (cons item items) =
      below_leaves (index i) (entity_leaves is_word item) ++ item_leaves is_word (suc i) items

  pub field_leaves : (ℕ → Bool) → Fields → List Leaf
  field_leaves is_word end = []
  field_leaves is_word (field k v fields) =
      below_leaves (key k.text) (entity_leaves is_word v) ++ field_leaves is_word fields

-- The last key of the path, the empty text where it has none.
unfoldable pub last_key : Text → TreePath → Text
last_key t [] = t
last_key t (key u ∷ path) = last_key u path
last_key t (index i ∷ path) = last_key t path

unfoldable pub terminal_key : TreePath → Text
unfolding last_key
terminal_key path = last_key [] path

-- ===== src/Yaml/Plain.antt =====
-- `_plain` of src/companion/surgical.py and Python's `==` on what it returns.
use hactl_companion.Base.{
  ℕ, suc, Bool, true, false, Option, none, some, ◌∷◌, ◌++◌, ◌&&◌, Text, eq_text, ◌==◌,
  if◌then◌else◌,
}
use hactl_companion.Yaml.{
  Value, Items, Fields, null, atom, str, tagged, seq, map, nil, cons, end, field,
}

-- Plain Python values: None, another scalar, a text, a list, and a dict as its pairs.
mutual
  pub data Plain : Type 0 where
    none_value : Plain
    other : Text → Plain
    text : Text → Plain
    list : PlainItems → Plain
    dict : PlainFields → Plain

  pub data PlainItems : Type 0 where
    empty : PlainItems
    item : Plain → PlainItems → PlainItems

  pub data PlainFields : Type 0 where
    no_fields : PlainFields
    entry : Text → Plain → PlainFields → PlainFields

unfoldable mutual
  pub plain : Value → Plain
  plain null = none_value
  plain (atom t) = other t
  plain (str style t) = text t
  plain (tagged tag t) = text (tag ++ (32 ∷ t))
  plain (seq vs) = list (plain_items vs)
  plain (map fs) = dict (plain_fields fs)

  pub plain_items : Items → PlainItems
  plain_items nil = empty
  plain_items (cons v vs) = item (plain v) (plain_items vs)

  pub plain_fields : Fields → PlainFields
  plain_fields end = no_fields
  plain_fields (field k v fs) = entry k.text (plain v) (plain_fields fs)

get : Text → PlainFields → Option Plain
get k no_fields = none
get k (entry j v fs) = if eq_text j k then some v else get k fs

count : PlainFields → ℕ
count no_fields = 0
count (entry k v fs) = suc (count fs)

-- `a == b`: dicts compare without regard to the order of their keys.
unfoldable mutual
  unfolding get count

  pub eq_plain : Plain → Plain → Bool
  eq_plain none_value none_value = true
  eq_plain (other s) (other t) = eq_text s t
  eq_plain (text s) (text t) = eq_text s t
  eq_plain (list ps) (list qs) = eq_items ps qs
  eq_plain (dict fs) (dict gs) = (count fs == count gs) && eq_fields fs gs
  eq_plain _ _ = false

  pub eq_items : PlainItems → PlainItems → Bool
  eq_items empty empty = true
  eq_items (item p ps) (item q qs) = eq_plain p q && eq_items ps qs
  eq_items _ _ = false

  pub eq_fields : PlainFields → PlainFields → Bool
  eq_fields no_fields gs = true
  eq_fields (entry k v fs) gs =
      elim (get k gs) [ none ↦ false | some w ↦ eq_plain v w ] && eq_fields fs gs

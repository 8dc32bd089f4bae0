-- ===== src/Automations/Search.antt =====
-- The lists of src/companion/routes/automations.py: what the search finds, and what a replacement, a
-- removal and an addition leave.
use hactl_companion.Base.{
  ℕ, zero, suc, ◌+◌, ◌<◌, ◌≡◌, sym, ap, subst, ◌∙◌, ◌==◌, ltb, true, false, Option, none, some,
  arith, Text, if◌then◌else◌, Bool-cases, inl, inr,
}
use hactl_companion.Yaml.{Value, Items, nil, cons}
use hactl_companion.Automations.{
  item_field, is_candidate, find_by, set_item, pop_item, same_id, has_id,
}

-- `data[j]`.
unfoldable pub item_at : ℕ → Items → Option Value
item_at j nil = none
item_at zero (cons item items) = some item
item_at (suc j) (cons item items) = item_at j items

-- What the search for a key's value finds is the first item that has it.
pub record IsFirst (k candidate : Text) (items : Items) (i : ℕ) (item : Value) : Type 0 where
  pub there : item_at i items ≡ some item
  pub matches : is_candidate candidate (item_field k item) ≡ true
  pub earlier :
      (j : ℕ) (other : Value)
      → j < i
      → item_at j items ≡ some other
      → is_candidate candidate (item_field k other) ≡ false

find_by-IsFirst_from :
    (k candidate : Text) (n : ℕ) (items : Items) (i : ℕ) (item : Value)
    → find_by k candidate n items ≡ some (i, item)
    → (m : ℕ) × (i ≡ n + m) × IsFirst k candidate items m item
unfolding find_by item_at
find_by-IsFirst_from k candidate n nil i item h = absurd (ground (arith, h))
find_by-IsFirst_from k candidate n (cons x items) i item h =
    elim (Bool-cases (is_candidate candidate (item_field k x))) [
      | inl e ↦
          let same : x ≡ item = ground (arith, e, h) in
          let at : n ≡ i = ground (arith, e, h) in
          (
            0,
            omega (arith, at),
            record {
              there = ap some same;
              matches = rw (sym same) e;
              earlier = λ j other lt at_j. absurd (omega (arith, lt));
            },
          )
      | inr e ↦
          let later : find_by k candidate (suc n) items ≡ some (i, item) = ground (arith, e, h) in
          let (m, sum, first) = find_by-IsFirst_from k candidate (suc n) items i item later in
          (
            suc m,
            omega (arith, sum),
            record {
              there = first.there;
              matches = first.matches;
              earlier = λ j other lt at_j. earlier_of x items m e first.earlier j other lt at_j;
            },
          )
    ]
  where
    earlier_of :
        (x : Value) (items : Items) (m : ℕ)
        → is_candidate candidate (item_field k x) ≡ false
        → ((j : ℕ) (other : Value)
            → j < m
            → item_at j items ≡ some other
            → is_candidate candidate (item_field k other) ≡ false)
        → (j : ℕ) (other : Value) → j < suc m
        → item_at j (cons x items) ≡ some other
        → is_candidate candidate (item_field k other) ≡ false
    earlier_of x items m e ih zero other lt h =
        let same : x ≡ other = ground (arith, h) in rw (sym same) e
    earlier_of x items m e ih (suc j) other lt h = ih j other (omega (arith, lt)) h

pub find_by-IsFirst :
    (k candidate : Text) (items : Items) (i : ℕ) (item : Value)
    → find_by k candidate 0 items ≡ some (i, item)
    → IsFirst k candidate items i item
find_by-IsFirst k candidate items i item h =
    let (m, sum, first) = find_by-IsFirst_from k candidate 0 items i item h in
    let same : m ≡ i = omega (arith, sum) in
    subst (λ j. IsFirst k candidate items j item) same first

-- No item of the list has that value of the key.
abbrev pub IsAbsent : Text → Text → Items → Type 0
IsAbsent k candidate items =
    (j : ℕ) (other : Value)
    → item_at j items ≡ some other
    → is_candidate candidate (item_field k other) ≡ false

pub find_by-IsAbsent :
    (k candidate : Text) (n : ℕ) (items : Items)
    → find_by k candidate n items ≡ none
    → IsAbsent k candidate items
unfolding find_by item_at
find_by-IsAbsent k candidate n nil h j other at_j = absurd (ground (arith, at_j))
find_by-IsAbsent k candidate n (cons x items) h zero other at_j =
    elim (Bool-cases (is_candidate candidate (item_field k x))) [
      | inl e ↦ absurd (ground (arith, e, h))
      | inr e ↦ let same : x ≡ other = ground (arith, at_j) in rw (sym same) e
    ]
find_by-IsAbsent k candidate n (cons x items) h (suc j) other at_j =
    elim (Bool-cases (is_candidate candidate (item_field k x))) [
      | inl e ↦ absurd (ground (arith, e, h))
      | inr e ↦
          let later : find_by k candidate (suc n) items ≡ none = ground (arith, e, h) in
          find_by-IsAbsent k candidate (suc n) items later j other at_j
    ]

-- An id that the list does not have is at none of its indices.
pub has_id-absent :
    (id : Value) (items : Items)
    → has_id id items ≡ false
    → (j : ℕ) (other : Value) → item_at j items ≡ some other
    → same_id id other ≡ false
unfolding has_id item_at
has_id-absent id nil h j other at_j = absurd (ground (arith, at_j))
has_id-absent id (cons x items) h zero other at_j =
    let same : x ≡ other = ground (arith, at_j) in
    let free : same_id id x ≡ false = ground (arith, h) in rw (sym same) free
has_id-absent id (cons x items) h (suc j) other at_j =
    let free : has_id id items ≡ false = ground (arith, h) in
    has_id-absent id items free j other at_j

-- Replacing the item at an index that the list has puts the new item there and keeps every other item
-- at its index; removing it keeps the items before it and moves each later one down by one.
pub set_item-pop_item :
    (i : ℕ) (new item : Value) (items : Items) (j : ℕ)
    → item_at i items ≡ some item
    → (item_at j (set_item i new items) ≡ (if i == j then some new else item_at j items))
      × (item_at j (pop_item i items)
          ≡ (if ltb j i then item_at j items else item_at (suc j) items))
unfolding item_at set_item pop_item
set_item-pop_item i new item nil j h = absurd (ground (arith, h))
set_item-pop_item zero new item (cons x items) zero h = (ground arith, ground arith)
set_item-pop_item zero new item (cons x items) (suc j) h = (ground arith, ground arith)
set_item-pop_item (suc i) new item (cons x items) zero h = (ground arith, ground arith)
set_item-pop_item (suc i) new item (cons x items) (suc j) h =
    let (a, b) = set_item-pop_item i new item items j h in (a ∙ ground arith, b ∙ ground arith)

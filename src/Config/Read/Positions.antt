-- ===== src/Config/Read/Positions.antt =====
-- The position of a block, as GET /v1/config/block (src/companion/routes/config.py) reads it.
use hactl_companion.Base.{
  ℕ, zero, suc, ◌+◌, ◌*◌, ◌/◌, ◌%◌, ◌<◌, leb, ◌≡◌, ◌∙◌, refl, sym, ap, Bool, true, false, none,
  some, [], ◌∷◌, ◌++◌, arith, Text, codes, decimals, show_nat, Bool-cases, inl, inr, ◌⊎◌,
}
use hactl_companion.Http.{ok}
use hactl_companion.PathGuard.{FilePath}
use hactl_companion.Files.{Disk, read}
use hactl_companion.Yaml.{Value, Items, seq, nil, cons, Yaml}
use hactl_companion.Config.{resolve_config_path}
use hactl_companion.RefScan.Load.{World, loaded}
use hactl_companion.Config.Read.{
  index_digits, index_of, request_text, dumped_text, nth_item, matches_block, find_block,
  indexed_block, listed_block, block_of, loaded_block, get_config_block,
}

-- One digit more.
index_digits-digit :
    (r : Bool) (n k : ℕ) (s : Text)
    → leb k 9 ≡ true
    → index_digits r n ((48 + k) ∷ s) ≡ index_digits true (n * 10 + k) s
unfolding index_digits
index_digits-digit r n k [] h = ground (arith, h)
index_digits-digit r n k (e ∷ s) h = ground (arith, h)

append_one : (xs : Text) (x : ℕ) (s : Text) → (xs ++ x ∷ []) ++ s ≡ xs ++ x ∷ s
append_one [] x s = refl
append_one (y ∷ xs) x s = ap (λ t. y ∷ t) (append_one xs x s)

index_digits-decimals :
    (fuel k : ℕ) (r : Bool) (s : Text)
    → k < fuel
    → index_digits r 0 (decimals fuel k ++ s) ≡ index_digits true k s
unfolding decimals
index_digits-decimals zero k r s enough = absurd (omega arith)
index_digits-decimals (suc fuel) k r s enough = elim (Bool-cases (leb k 9)) [
  | inl e ↦ rw e (index_digits-digit r 0 k s e ∙ ap (λ n. index_digits true n s) (omega arith))
  | inr e ↦ rw e (
      ap (index_digits r 0) (append_one (decimals fuel (k / 10)) (48 + k % 10) s)
      ∙ (index_digits-decimals fuel (k / 10) r ((48 + k % 10) ∷ s) (ground (arith, e))
          ∙ (index_digits-digit true (k / 10) (k % 10) s (ground arith)
              ∙ ap (λ n. index_digits true n s) (omega arith))))
]

append_nil : (xs : Text) → xs ++ [] ≡ xs
append_nil [] = refl
append_nil (x ∷ xs) = ap (λ t. x ∷ t) (append_nil xs)

-- A text that is a number has no bracket in front.
index_of-number : (t : Text) (i : ℕ) → index_digits false 0 t ≡ some i → index_of t ≡ some i
unfolding index_of index_digits
index_of-number [] i h = absurd (cc h)
index_of-number (c ∷ []) i h = ground (arith, h)
index_of-number (c ∷ e ∷ s) i h = ground (arith, h)

-- A number in decimal, plain or in square brackets, is read back.
index_of-show_nat :
    (i : ℕ)
    → (index_of (show_nat i) ≡ some i)
      × (index_of (codes "[" ++ (show_nat i ++ codes "]")) ≡ some i)
unfolding show_nat index_of index_digits
index_of-show_nat i = (
  index_of-number (show_nat i) i (
      ap (index_digits false 0) (sym (append_nil (show_nat i)))
      ∙ index_digits-decimals (suc i) i false [] (omega arith)),
  index_digits-decimals (suc i) i false (codes "]") (omega arith),
)

-- The texts that ask for a position.
abbrev pub IsPosition : ℕ → Text → Type 0
IsPosition i id = (id ≡ show_nat i) ⊎ (id ≡ codes "[" ++ (show_nat i ++ codes "]"))

index_of-IsPosition : (i : ℕ) (id : Text) → IsPosition i id → index_of id ≡ some i
index_of-IsPosition i id (inl e) = ap index_of e ∙ (index_of-show_nat i).0
index_of-IsPosition i id (inr e) = ap index_of e ∙ (index_of-show_nat i).1

-- No item of the list is known by that id or alias.
abbrev pub IsUnknown : (Text → Bool) → Text → Items → Type 0
IsUnknown is_true id items =
    (j : ℕ) (other : Value) → nth_item j items ≡ some other → matches_block is_true id other ≡ false

find_block-none :
    (is_true : Text → Bool) (id : Text) (items : Items)
    → IsUnknown is_true id items
    → find_block is_true id items ≡ none
unfolding find_block nth_item
find_block-none is_true id nil unknown = refl
find_block-none is_true id (cons v items) unknown =
    rw (unknown 0 v refl) (find_block-none is_true id items λ j. unknown (suc j))

listed_block-position :
    (is_true : Text → Bool) (yaml : Yaml) (path id : Text) (i : ℕ) (v : Value) (items : Items)
    → IsPosition i id
    → IsUnknown is_true id items
    → nth_item i items ≡ some v
    → listed_block is_true yaml path id items ≡ dumped_text (yaml.dump v)
unfolding listed_block indexed_block
listed_block-position is_true yaml path id i v items asked unknown there =
    rw
      (
        listed_block,
        find_block-none is_true id items unknown,
        index_of-IsPosition i id asked,
        indexed_block,
        there,
      )
      refl

-- Every position of a list can be asked for: GET /v1/config/block with the decimal number of a
-- position, plain or in square brackets, answers the dump of the item at that position; for a file that
-- is there under an accepted path and whose text is a list in which no item has that number, or the
-- number in its brackets, as its id or, in place of one, as its alias.
pub get_config_block-position :
    (is_true : Text → Bool) (w : World) (yaml : Yaml) (base path : Text) (d : Disk)
    (target : FilePath) (text id : Text) (items : Items) (i : ℕ) (v : Value)
    → resolve_config_path w.os base path ≡ ok target
    → read target d ≡ some text
    → w.parse text ≡ loaded (seq items)
    → IsPosition i id
    → IsUnknown is_true id items
    → nth_item i items ≡ some v
    → get_config_block is_true w yaml base path id d ≡ dumped_text (yaml.dump v)
unfolding get_config_block loaded_block block_of request_text
get_config_block-position is_true w yaml base path d target text [] items i v at file parsed asked
      unknown there =
    absurd (unfold index_of in cc (index_of-IsPosition i [] asked))
get_config_block-position is_true w yaml base path d target text (c ∷ id) items i v at file parsed
      asked unknown there =
    rw (at, file, parsed)
      (listed_block-position is_true yaml path (c ∷ id) i v items asked unknown there)

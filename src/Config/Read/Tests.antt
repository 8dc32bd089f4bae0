-- ===== src/Config/Read/Tests.antt =====
-- Requests to the read routes of src/companion/routes/config.py, and the theorems at them.
use hactl_companion.Base.{
  ◌≡◌, refl, sym, zero, suc, true, none, inr, some, [], ◌∷◌, ◌++◌, Text, codes, eq_text, mem_text,
  lower, starts_with, split, split_step, show_nat, decimals,
}
use hactl_companion.Http.{ok, err, not_found}
use hactl_companion.PathGuard.{
  confine, confined, is_denied_path, is_denied, is_denied_dir, relative_to, render, body, name,
}
use hactl_companion.PathGuard.Lexical.{lexical}
use hactl_companion.Files.{Disk, read, eq_path}
use hactl_companion.Automations.{get_field}
use hactl_companion.Yaml.{Yaml, Value, Items, bare, str, seq, nil, cons, done, field, end}
use hactl_companion.Yaml
use hactl_companion.Config.{allowed, resolve_config_path}
use hactl_companion.RefScan.Load.{loaded, World}
use hactl_companion.Config.Read.{
  request_text, dumped_text, index_digits, index_of, nth_item, count_items, no_block, out_of_range,
  last_index, is_truthy, equals_text, first_true, matches_block, find_block, indexed_block,
  listed_block, block_of, loaded_block, get_config_block,
}
use hactl_companion.Config.Read.Positions.{IsUnknown, get_config_block-position}

-- Every text is a list of two blocks, the second with an id.
abbrev door : Value
door = Yaml.map (field (record { style = bare; text = codes "id" }) (str bare (codes "door")) end)

abbrev block_items : Items
block_items = cons (str bare (codes "x")) (cons door nil)

abbrev blocks : Value
blocks = seq block_items

abbrev world : World
world = record { os = lexical; parse = λ t. loaded blocks; listing = λ p. none }

abbrev plain_yaml : Yaml
plain_yaml = record { compose = λ t. none; load = λ t. none; dump = λ v. done (codes "dumped") }

abbrev base : Text
base = codes "/c"

abbrev volume : Disk
volume = (codes "c" ∷ codes "a.yaml" ∷ [], codes "a") ∷ []

out_of_the_list :
    get_config_block (λ t. true) world plain_yaml base (codes "a.yaml") (codes "[7]") volume
    ≡ err (not_found (codes "Block not found: [7] (index out of range; a.yaml has 2 blocks, 0..1)"))
unfolding get_config_block loaded_block block_of listed_block find_block matches_block first_true
    is_truthy equals_text indexed_block index_of index_digits nth_item out_of_range last_index
    count_items no_block show_nat decimals get_field request_text resolve_config_path allowed
    lexical confine confined is_denied_path is_denied is_denied_dir relative_to render body name
    starts_with eq_text split split_step lower mem_text read eq_path
out_of_the_list = refl

reads_blocks :
    (resolve_config_path lexical base (codes "a.yaml") ≡ ok (codes "c" ∷ codes "a.yaml" ∷ []))
    × (read (codes "c" ∷ codes "a.yaml" ∷ []) volume ≡ some (codes "a"))
    × (codes "[1]" ≡ codes "[" ++ (show_nat 1 ++ codes "]"))
unfolding resolve_config_path allowed lexical confine confined is_denied_path is_denied
    is_denied_dir relative_to render body name starts_with eq_text split split_step lower mem_text
    read eq_path show_nat decimals
reads_blocks = (refl, refl, refl)

no_such_id : IsUnknown (λ t. true) (codes "[1]") block_items
unfolding matches_block nth_item first_true is_truthy equals_text get_field eq_text
no_such_id zero other there = let e : str bare (codes "x") ≡ other = cc there in rw (sym e) refl
no_such_id (suc zero) other there = let e : door ≡ other = cc there in rw (sym e) refl
no_such_id (suc (suc j)) other there = absurd (cc there)

get_config_block-position_example :
    get_config_block (λ t. true) world plain_yaml base (codes "a.yaml") (codes "[1]") volume
    ≡ dumped_text (plain_yaml.dump door)
get_config_block-position_example =
    get_config_block-position (λ t. true) world plain_yaml base (codes "a.yaml") volume
      (codes "c" ∷ codes "a.yaml" ∷ []) (codes "a") (codes "[1]") block_items 1 door reads_blocks.0
      reads_blocks.1 refl (inr reads_blocks.2) no_such_id (unfold nth_item in refl)

-- ===== src/Config/Read.antt =====
-- The read routes of src/companion/routes/config.py: `GET /v1/config/file` with its includes resolved or
-- as written, and `GET /v1/config/block`. `dump` is ruamel's; whether a plain scalar that is no text
-- counts as true is a parameter.
pub mod Guarded
pub mod Positions
mod Tests
use hactl_companion.Base.{
  ℕ, zero, suc, ◌+◌, ◌*◌, ◌-◌, ◌==◌, leb, ltb, Bool, true, false, not, ◌&&◌, ◌||◌, Option, none,
  some, List, [], ◌∷◌, ◌++◌, Text, codes, eq_text, show_nat, if◌then◌else◌,
}
use hactl_companion.Http.{
  HttpError, bad_request, forbidden, not_found, uncaught, unknown_include, Result, ok, err, ◌>>=◌,
}
use hactl_companion.PathGuard.{FilePath}
use hactl_companion.Files.{Disk, read}
use hactl_companion.Automations.{get_field}
use hactl_companion.Yaml.{
  Style, bare, Value, Items, Fields, null, atom, str, tagged, seq, nil, cons, end, field, Dumped,
  done, failed, Yaml,
}
use hactl_companion.Yaml
use hactl_companion.Config.{parse_bool_param, resolve_config_path}
use hactl_companion.RefScan.Includes.{refused_tag}
use hactl_companion.RefScan.Load.{
  World, LoadEnd, loaded, file_not_found, permission_error, circular_include, value_error,
  other_error,
}
use hactl_companion.Resolver.{
  Resolution, stopped, resolved, ResolveError, include_not_found, access_denied, path_traversal,
  circular_chain, unknown_tag, load_failed, out_of_fuel, load_resolved,
}

-- The file of a request, once its path is allowed.
unfoldable pub request_text : Text → Option Text → Result Text
request_text path none = err (not_found (codes "File not found: " ++ path))
request_text path (some text) = ok text

-- The exceptions of the loader, as the handler passes them on; their texts are left out.
unfoldable pub load_error : LoadEnd → HttpError
load_error file_not_found = not_found (codes "File not found")
load_error permission_error = forbidden (codes "PermissionError")
load_error value_error = forbidden (codes "ValueError")
load_error circular_include = uncaught (codes "CircularIncludeError")
load_error (other_error message) = uncaught message
load_error (loaded v) = uncaught []

unfoldable pub resolve_error : ResolveError → HttpError
unfolding load_error refused_tag
resolve_error include_not_found = not_found (codes "File not found")
resolve_error access_denied = forbidden (codes "PermissionError")
resolve_error path_traversal = forbidden (codes "ValueError")
resolve_error circular_chain = uncaught (codes "CircularIncludeError")
resolve_error (unknown_tag tag raw) = refused_tag tag raw
resolve_error (load_failed l) = load_error l
resolve_error out_of_fuel = uncaught (codes "out of fuel")

unfoldable pub dumped_text : Dumped → Result Text
dumped_text (done text) = ok text
dumped_text (failed partial) = err (uncaught (codes "YAMLError"))

-- The content of a resolved tree; a document that is empty is answers_dump as it is written.
unfoldable pub resolved_content : Yaml → Text → Resolution Value → Result Text
unfolding resolve_error dumped_text
resolved_content yaml text (stopped e) = err (resolve_error e)
resolved_content yaml text (resolved null) = ok text
resolved_content yaml text (resolved v) = dumped_text (yaml.dump v)

module _ (w : World) (yaml : Yaml) (base : Text) where
  unfoldable pub read_content : Bool → Text → Disk → Text → Result Text
  unfolding resolved_content load_resolved
  read_content false path d text = ok text
  read_content true path d text =
      resolved_content yaml text (load_resolved w (w.os.realpath base) d path)

  -- GET /v1/config/file, with its `path` and its `resolve`.
  unfoldable pub get_config_file : Text → Option Text → Disk → Result Text
  unfolding request_text read_content
  get_config_file path resolve d = resolve_config_path w.os base path >>= λ target.
      request_text path (read target d) >>= λ text.
      read_content (parse_bool_param resolve true) path d text

-- Whether a value is true in Python.
unfoldable pub is_truthy : (Text → Bool) → Value → Bool
is_truthy is_true null = false
is_truthy is_true (atom t) = is_true t
is_truthy is_true (str style []) = false
is_truthy is_true (str style (c ∷ t)) = true
is_truthy is_true (tagged tag t) = true
is_truthy is_true (seq nil) = false
is_truthy is_true (seq (cons v items)) = true
is_truthy is_true (Yaml.map end) = false
is_truthy is_true (Yaml.map (field k v fields)) = true

unfoldable pub equals_text : Text → Option Value → Bool
equals_text t (some (str style u)) = eq_text u t
equals_text t _ = false

-- `a or b`, of two fields of an item.
unfoldable pub first_true : (Text → Bool) → Option Value → Option Value → Option Value
unfolding is_truthy
first_true is_true none b = b
first_true is_true (some v) b = if is_truthy is_true v then some v else b

-- `item.get("id") or item.get("alias")` is the block's id.
unfoldable pub matches_block : (Text → Bool) → Text → Value → Bool
unfolding first_true equals_text get_field
matches_block is_true block_id (Yaml.map fields) =
    equals_text block_id
      (first_true is_true (get_field (codes "id") fields) (get_field (codes "alias") fields))
matches_block is_true block_id v = false

unfoldable pub find_block : (Text → Bool) → Text → Items → Option Value
unfolding matches_block
find_block is_true block_id nil = none
find_block is_true block_id (cons item items) =
    let rest = find_block is_true block_id items in
    if matches_block is_true block_id item then some item else rest

-- `re.fullmatch(r"\[?(\d+)\]?", block_id)`, for ASCII digits, with its number.
unfoldable pub index_digits : Bool → ℕ → Text → Option ℕ
index_digits read n [] = if read then some n else none
index_digits read n (c ∷ []) =
    if leb 48 c && leb c 57
    then some (n * 10 + (c - 48))
    else if read && (c == 93)
    then some n
    else none
index_digits read n (c ∷ e ∷ s) =
    let more = index_digits true (n * 10 + (c - 48)) (e ∷ s) in
    if leb 48 c && leb c 57 then more else none

unfoldable pub index_of : Text → Option ℕ
unfolding index_digits
index_of [] = none
index_of (c ∷ s) =
    let bracketed = index_digits false 0 s in
    let plain = index_digits false 0 (c ∷ s) in if c == 91 then bracketed else plain

unfoldable pub nth_item : ℕ → Items → Option Value
nth_item i nil = none
nth_item zero (cons v items) = some v
nth_item (suc i) (cons v items) = nth_item i items

unfoldable pub count_items : Items → ℕ
count_items nil = 0
count_items (cons v items) = suc (count_items items)

unfoldable pub no_block : Text → HttpError
no_block block_id = not_found (codes "Block not found: " ++ block_id)

-- `len(data) - 1`.
unfoldable pub last_index : ℕ → Text
unfolding show_nat
last_index zero = codes "-1"
last_index (suc n) = show_nat n

unfoldable pub out_of_range : Text → Text → Items → HttpError
unfolding show_nat count_items last_index
out_of_range path block_id items =
    let range = codes " blocks, 0.." ++ (last_index (count_items items) ++ codes ")") in
    let held = path ++ (codes " has " ++ (show_nat (count_items items) ++ range)) in
    not_found (codes "Block not found: " ++ (block_id ++ (codes " (index out of range; " ++ held)))

module _ (is_true : Text → Bool) (yaml : Yaml) (path block_id : Text) where
  unfoldable pub indexed_block : Option ℕ → Items → Result Text
  unfolding nth_item out_of_range no_block dumped_text
  indexed_block none items = err (no_block block_id)
  indexed_block (some i) items = elim (nth_item i items) [
    | none ↦ err (out_of_range path block_id items)
    | some v ↦ dumped_text (yaml.dump v)
  ]

  -- The block of a list: by its id or alias, and then by its position.
  unfoldable pub listed_block : Items → Result Text
  unfolding indexed_block find_block index_of dumped_text
  listed_block items = elim (find_block is_true block_id items) [
    | some item ↦ dumped_text (yaml.dump item)
    | none ↦ indexed_block (index_of block_id) items
  ]

  unfoldable pub block_of : Value → Result Text
  unfolding listed_block get_field dumped_text no_block
  block_of (seq items) = listed_block items
  block_of (Yaml.map fields) = elim (get_field block_id fields) [
    | none ↦ err (no_block block_id)
    | some v ↦
        dumped_text (yaml.dump (Yaml.map (field (record { style = bare; text = block_id }) v end)))
  ]
  block_of v = err (no_block block_id)

  unfoldable pub loaded_block : LoadEnd → Result Text
  unfolding block_of
  loaded_block (loaded v) = block_of v
  loaded_block (other_error message) = err (uncaught message)
  loaded_block e = err (uncaught (codes "ValueError"))

-- GET /v1/config/block, with its `path` and its `id`.
unfoldable pub get_config_block :
    (Text → Bool) → World → Yaml → Text → Text → Text → Disk → Result Text
unfolding loaded_block request_text
get_config_block is_true w yaml base path [] d = err (bad_request (codes "Missing id parameter"))
get_config_block is_true w yaml base path (c ∷ id) d =
    resolve_config_path w.os base path >>= λ target. request_text path (read target d) >>= λ text.
    loaded_block is_true yaml path (c ∷ id) (w.parse text)

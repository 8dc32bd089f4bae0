-- ===== src/Automations.antt =====
-- src/companion/routes/automations.py: the handlers that list, read, replace, create and delete the
-- automations of one YAML file. The file that `configuration.yaml` wires to the domain, the states and
-- the reload of Home Assistant are parameters (src/companion/wiring.py, src/companion/core_api.py);
-- the diff of a dry run is kept as its two items.
pub mod Search
pub mod Writes
pub mod Membership
pub mod Creation
mod Tests
use hactl_companion.Base.{
  ℕ, zero, suc, ◌+◌, Bool, true, false, Option, none, some, List, [], ◌∷◌, ◌++◌, ◌||◌, Text, codes,
  eq_text, is_blank, if◌then◌else◌,
}
use hactl_companion.Http.{
  HttpError, bad_request, not_found, conflict, server_error, uncaught, Result, ok, err, ◌>>=◌,
}
use hactl_companion.PathGuard.{FilePath, Os, name}
use hactl_companion.Files.{Disk, read}
use hactl_companion.Yaml.{
  Value, Items, Fields, null, atom, str, tagged, seq, map, nil, cons, end, field, bare, index,
  Dumped, done, failed, Yaml,
}
use hactl_companion.Yaml.Plain.{plain, eq_plain}
use hactl_companion.Surgical.Splice.{Edit, replace, delete, append}
use hactl_companion.Surgical.Save.{read_source, save_entry}

-- `item.get(k)` of a mapping.
unfoldable pub get_field : Text → Fields → Option Value
unfolding eq_text
get_field k end = none
get_field k (field key v rest) =
    let later = get_field k rest in if eq_text key.text k then some v else later

-- `isinstance(item, dict) and item.get(k)`: the item's value for the key.
pub item_field : Text → Value → Option Value
unfolding get_field
item_field k (map fields) = get_field k fields
item_field k _ = none

-- `value == candidate`, where the candidate is a text.
pub is_candidate : Text → Option Value → Bool
unfolding eq_text
is_candidate candidate (some (str style t)) = eq_text t candidate
is_candidate candidate _ = false

-- The first item with that value for the key, and its index, counted from `i`.
pub find_by : Text → Text → ℕ → Items → Option (ℕ × Value)
unfolding item_field is_candidate
find_by k candidate i nil = none
find_by k candidate i (cons item items) =
    let later = find_by k candidate (suc i) items in
    if is_candidate candidate (item_field k item) then some (i, item) else later

pub or_else : Option (ℕ × Value) → Option (ℕ × Value) → Option (ℕ × Value)
or_else (some found) other = some found
or_else none other = other

-- `_find_automation`.
pub find_automation : Items → Text → Option (ℕ × Value)
unfolding find_by or_else
find_automation items candidate =
    or_else (find_by (codes "id") candidate 0 items) (find_by (codes "alias") candidate 0 items)

-- `data[i] = item`, `data.pop(i)` and `data.append(item)`.
pub set_item : ℕ → Value → Items → Items
set_item i new nil = nil
set_item zero new (cons item items) = cons new items
set_item (suc i) new (cons item items) = cons item (set_item i new items)

pub pop_item : ℕ → Items → Items
pop_item i nil = nil
pop_item zero (cons item items) = items
pop_item (suc i) (cons item items) = cons item (pop_item i items)

pub append_item : Value → Items → Items
append_item new nil = cons new nil
append_item new (cons item items) = cons item (append_item new items)

-- `item.get("id") == new_item["id"]` for an item that is a mapping; a key that is not there is None.
pub same_id : Value → Value → Bool
unfolding plain eq_plain
same_id id (map fields) = elim (get_field (codes "id") fields) [
  | none ↦ eq_plain (plain null) (plain id)
  | some v ↦ eq_plain (plain v) (plain id)
]
same_id id _ = false

pub has_id : Value → Items → Bool
unfolding same_id
has_id id nil = false
has_id id (cons item items) = let rest = has_id id items in same_id id item || rest

-- An entry of `/api/states` that is an object: its `entity_id` and its `attributes.id`.
pub record LiveState : Type 0 where
  pub entity_id : Option Text
  pub config_id : Option Text

pub is_text : Text → Option Text → Bool
unfolding eq_text
is_text t none = false
is_text t (some u) = eq_text t u

-- `_resolve_automation_id_via_states`.
pub resolve_via_states : Text → List LiveState → Option Text
unfolding is_text
resolve_via_states candidate [] = none
resolve_via_states candidate (s ∷ states) =
    let later = resolve_via_states candidate states in
    if is_text candidate s.entity_id || is_text candidate s.config_id then s.config_id else later

-- The items of the file and its text.
abbrev pub Loaded : Type 0
Loaded = Items × Text

-- What `yaml.load` gave; None is an empty list.
pub as_list : Text → Option Value → Result Loaded
as_list source none = err (uncaught (codes "YAMLError"))
as_list source (some null) = ok (nil, source)
as_list source (some (seq items)) = ok (items, source)
as_list source (some _) = err (server_error (codes "automations.yaml must be a top-level list"))

pub parse_source : Yaml → Result Text → Result Loaded
unfolding as_list
parse_source yaml (err e) = err e
parse_source yaml (ok source) = as_list source (yaml.load source)

-- `_load_automations_from`.
pub load_automations : Os → Yaml → Text → Text → Disk → Result Loaded
unfolding parse_source
load_automations os yaml base path d = elim (read (os.realpath path) d) [
  | none ↦ err (not_found (codes "File not found: " ++ name (os.realpath path)))
  | some _ ↦ parse_source yaml (read_source os base path d)
]

-- The body of a request as a new item.
pub as_mapping : Option Value → Result Value
as_mapping none = err (bad_request (codes "Invalid YAML: "))
as_mapping (some (map fields)) = ok (map fields)
as_mapping (some _) = err (bad_request (codes "Automation must be a YAML mapping"))

pub parse_body : Yaml → Text → Result Value
unfolding as_mapping
parse_body yaml body =
    if is_blank body
    then err (bad_request (codes "Request body must not be empty"))
    else as_mapping (yaml.load body)

-- The responses. A write says whether it was surgical, and whether Home Assistant reloaded.
pub data AutomationAnswer : Type 0 where
  dry_run : Value → Value → AutomationAnswer
  applied deleted : Bool → Bool → AutomationAnswer
  created : Value → Option Text → Bool → Bool → AutomationAnswer

pub not_there : Text → HttpError
not_there id = not_found (codes "Automation not found: " ++ id)

pub answered : (Bool → AutomationAnswer) → Result Bool × Disk → Result AutomationAnswer × Disk
answered answer (err e, d) = (err e, d)
answered answer (ok surgical, d) = (ok (answer surgical), d)

-- By the states, if neither an id nor an alias matches; `none` is that they cannot be fetched.
pub find_live : Items → Option (List LiveState) → Text → Option (ℕ × Value)
unfolding find_automation resolve_via_states
find_live items none id = none
find_live items (some states) id = elim (resolve_via_states id states) [
  | none ↦ none
  | some config_id ↦ find_automation items config_id
]

-- The write of the changed list, and the answer.
module _ (os : Os) (yaml : Yaml) (base now path : Text) (reloaded : Bool) where
  pub put_found :
      Bool → Value → Text → Loaded → Option (ℕ × Value) → Disk → Result AutomationAnswer × Disk
  unfolding answered
  put_found dry new id (items, source) none d = (err (not_there id), d)
  put_found true new id (items, source) (some (i, item)) d = (ok (dry_run item new), d)
  put_found false new id (items, source) (some (i, item)) d =
      answered (λ surgical. applied surgical reloaded)
        (save_entry os yaml base now path (seq (set_item i new items)) source
          (record { kind = replace; where_at = some (index i) }) d)

  pub put_listed : Bool → Value → Text → Result Loaded → Disk → Result AutomationAnswer × Disk
  unfolding put_found
  put_listed dry new id (err e) d = (err e, d)
  put_listed dry new id (ok (items, source)) d =
      put_found dry new id (items, source) (find_by (codes "id") id 0 items) d

  pub put_parsed : Bool → Text → Result Value → Disk → Result AutomationAnswer × Disk
  unfolding put_listed
  put_parsed dry id (err e) d = (err e, d)
  put_parsed dry id (ok new) d = put_listed dry new id (load_automations os yaml base path d) d

  pub put_automation : Text → Bool → Text → Disk → Result AutomationAnswer × Disk
  unfolding put_parsed
  put_automation [] dry body d = (err (bad_request (codes "Missing id parameter")), d)
  put_automation (c ∷ id) dry body d = put_parsed dry (c ∷ id) (parse_body yaml body) d

  pub delete_found : Text → Loaded → Option (ℕ × Value) → Disk → Result AutomationAnswer × Disk
  unfolding answered
  delete_found id (items, source) none d = (err (not_there id), d)
  delete_found id (items, source) (some (i, item)) d =
      answered (λ surgical. deleted surgical reloaded)
        (save_entry os yaml base now path (seq (pop_item i items)) source
          (record { kind = delete; where_at = some (index i) }) d)

  pub delete_listed :
      Option (List LiveState) → Text → Result Loaded → Disk → Result AutomationAnswer × Disk
  unfolding delete_found find_live
  delete_listed states id (err e) d = (err e, d)
  delete_listed states id (ok (items, source)) d =
      delete_found id (items, source)
        (or_else (find_automation items id) (find_live items states id)) d

  pub delete_automation : Option (List LiveState) → Text → Disk → Result AutomationAnswer × Disk
  unfolding delete_listed
  delete_automation states [] d = (err (bad_request (codes "Missing id parameter")), d)
  delete_automation states (c ∷ id) d =
      delete_listed states (c ∷ id) (load_automations os yaml base path d) d

  -- `entity` is what polling the states for the new id finds, after a reload.
  pub post_listed :
      (Value → Option Text) → Value → Value → Result Loaded → Disk → Result AutomationAnswer × Disk
  unfolding answered has_id
  post_listed entity new id (err e) d = (err e, d)
  post_listed entity new id (ok (items, source)) d =
      if has_id id items
      then (err (conflict (codes "Automation already exists: ")), d)
      else answered
          (λ surgical. created id (if reloaded then entity id else none) surgical reloaded)
          (save_entry os yaml base now path (seq (append_item new items)) source
            (record { kind = append; where_at = none }) d)

  pub post_parsed : (Value → Option Text) → Result Value → Disk → Result AutomationAnswer × Disk
  unfolding post_listed item_field
  post_parsed entity (err e) d = (err e, d)
  post_parsed entity (ok new) d = elim (item_field (codes "id") new) [
    | none ↦ (err (bad_request (codes "Automation must have an id field")), d)
    | some id ↦ post_listed entity new id (load_automations os yaml base path d) d
  ]

  -- The path is here what `require_wired_target` returned; its refusal comes before any write.
  pub post_automation : (Value → Option Text) → Text → Disk → Result AutomationAnswer × Disk
  unfolding post_parsed
  post_automation entity body d = post_parsed entity (parse_body yaml body) d

-- An item in the list of all.
pub record Summary : Type 0 where
  pub id : Value
  pub alias : Value
  pub mode : Value
  pub description : Value

pub field_or : Text → Text → Fields → Value
unfolding get_field
field_or k default fields = elim (get_field k fields) [ none ↦ str bare default | some v ↦ v ]

-- Items that are no mappings are left out.
pub summaries : Items → List Summary
unfolding field_or
summaries nil = []
summaries (cons (map fields) items) =
    record {
      id = field_or (codes "id") [] fields;
      alias = field_or (codes "alias") [] fields;
      mode = field_or (codes "mode") (codes "single") fields;
      description = field_or (codes "description") [] fields;
    }
    ∷ summaries items
summaries (cons _ items) = summaries items

pub get_automations : Os → Yaml → Text → Text → Disk → Result (List Summary)
unfolding load_automations summaries
get_automations os yaml base path d =
    load_automations os yaml base path d >>= λ loaded. ok (summaries loaded.0)

dumped : Dumped → Result Text
dumped (done text) = ok text
dumped (failed partial) = err (uncaught (codes "YAMLError"))

content_of : Yaml → Text → Option (ℕ × Value) → Result Text
content_of yaml id none = err (not_there id)
content_of yaml id (some (i, item)) = dumped (yaml.dump item)

-- The content of the item with that id.
pub get_automation : Os → Yaml → Text → Text → Text → Disk → Result Text
get_automation os yaml base path [] d = err (bad_request (codes "Missing id parameter"))
get_automation os yaml base path (c ∷ id) d = load_automations os yaml base path d >>= λ loaded.
    content_of yaml (c ∷ id) (find_by (codes "id") (c ∷ id) 0 loaded.0)

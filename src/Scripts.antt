-- ===== src/Scripts.antt =====
-- src/companion/routes/scripts.py: the handlers that list, read, replace, create and delete the scripts
-- of one YAML mapping. The file that `configuration.yaml` wires to the domain, the polling for a new
-- entity and the reload are parameters, as for the automations.
pub mod Writes
mod Tests
use hactl_companion.Base.{
  ℕ, zero, suc, Bool, true, false, not, Option, none, some, List, [], ◌∷◌, ◌++◌, Text, codes,
  eq_text, mem_text, is_blank, if◌then◌else◌,
}
use hactl_companion.Http.{
  HttpError, bad_request, not_found, conflict, server_error, uncaught, Result, ok, err, ◌>>=◌,
}
use hactl_companion.PathGuard.{Os, name}
use hactl_companion.Files.{Disk, read}
use hactl_companion.Yaml.{
  Key, Value, Fields, null, atom, str, map, end, field, bare, key, Dumped, done, failed, Yaml,
}
use hactl_companion.Surgical.Splice.{Edit, replace, delete, append}
use hactl_companion.Surgical.Save.{read_source, save_entry}
use hactl_companion.Automations.{get_field, field_or}

-- The mapping of the file and its text.
abbrev pub LoadedScripts : Type 0
LoadedScripts = Fields × Text

-- What `yaml.load` gave; None is an empty mapping.
pub as_scripts : Text → Option Value → Result LoadedScripts
as_scripts source none = err (uncaught (codes "YAMLError"))
as_scripts source (some null) = ok (end, source)
as_scripts source (some (map fields)) = ok (fields, source)
as_scripts source (some _) = err (server_error (codes "scripts.yaml must be a top-level mapping"))

pub parse_scripts : Yaml → Result Text → Result LoadedScripts
unfolding as_scripts
parse_scripts yaml (err e) = err e
parse_scripts yaml (ok source) = as_scripts source (yaml.load source)

-- `_load_scripts_from`.
pub load_scripts : Os → Yaml → Text → Text → Disk → Result LoadedScripts
unfolding parse_scripts
load_scripts os yaml base path d = elim (read (os.realpath path) d) [
  | none ↦ err (not_found (codes "File not found: " ++ name (os.realpath path)))
  | some _ ↦ parse_scripts yaml (read_source os base path d)
]

abbrev pub script_definition_keys : List Text
script_definition_keys =
    codes "alias"
    ∷ codes "description"
    ∷ codes "sequence"
    ∷ codes "mode"
    ∷ codes "fields"
    ∷ codes "variables"
    ∷ codes "icon"
    ∷ codes "max"
    ∷ codes "max_exceeded"
    ∷ codes "trace"
    ∷ []

-- The body under a wrapper's key that is the script's own id.
pub unwrapped : Text → Value → Result Value
unwrapped k (map fields) = ok (map fields)
unwrapped k _ = err (bad_request (codes "Script " ++ (k ++ codes " must be a YAML mapping")))

-- `_normalize_script_body`.
pub normalize_script_body : Text → Fields → Result Value
unfolding unwrapped eq_text mem_text
normalize_script_body script_id (field k v end) =
    if eq_text k.text script_id
    then unwrapped k.text v
    else if not (mem_text k.text script_definition_keys)
    then err (
        bad_request (
          codes "Script wrapper id " ++ (k.text ++ (codes " does not match target " ++ script_id))))
    else ok (map (field k v end))
normalize_script_body script_id fields = ok (map fields)

-- `data[script_id] = body` for a key that is there, at the end for one that is not, and `del`;
-- a mapping's keys are unique.
pub set_field : Key → Value → Fields → Fields
unfolding eq_text
set_field k v end = field k v end
set_field k v (field j u rest) =
    let later = set_field k v rest in
    if eq_text j.text k.text then field j v rest else field j u later

pub del_field : Text → Fields → Fields
unfolding eq_text
del_field k end = end
del_field k (field j u rest) =
    let later = del_field k rest in if eq_text j.text k then later else field j u later

-- A key that the request's parameter gives.
abbrev pub plain_key : Text → Key
plain_key t = record { style = bare; text = t }

-- The fields of a script's own `fields`.
pub record FieldInfo : Type 0 where
  pub name : Text
  pub description : Value
  pub required : Value
  pub selector : Value

or_value : Value → Option Value → Value
or_value default none = default
or_value default (some v) = v

field_infos : Fields → List FieldInfo
field_infos end = []
field_infos (field k (map spec) rest) =
    record {
      name = k.text;
      description = field_or (codes "description") [] spec;
      required = or_value (atom (codes "false")) (get_field (codes "required") spec);
      selector = or_value null (get_field (codes "selector") spec);
    }
    ∷ field_infos rest
field_infos (field k _ rest) = field_infos rest

-- `_extract_fields`.
pub extract_fields : Fields → List FieldInfo
extract_fields script = elim (get_field (codes "fields") script) [ none ↦ [] | some v ↦ of_value v ]
  where
    of_value : Value → List FieldInfo
    of_value (map fields) = field_infos fields
    of_value _ = []

pub record ScriptSummary : Type 0 where
  pub id : Text
  pub alias : Value
  pub mode : Value
  pub fields : List FieldInfo

pub script_summaries : Fields → List ScriptSummary
script_summaries end = []
script_summaries (field k (map script) rest) =
    record {
      id = k.text;
      alias = field_or (codes "alias") [] script;
      mode = field_or (codes "mode") (codes "single") script;
      fields = extract_fields script;
    }
    ∷ script_summaries rest
script_summaries (field k _ rest) = script_summaries rest

pub get_scripts : Os → Yaml → Text → Text → Disk → Result (List ScriptSummary)
get_scripts os yaml base path d =
    load_scripts os yaml base path d >>= λ loaded. ok (script_summaries loaded.0)

script_not_there : Text → HttpError
script_not_there id = not_found (codes "Script not found: " ++ id)

script_content : Text → Dumped → Result Text
script_content id (done text) = ok text
script_content id (failed partial) = err (uncaught (codes "YAMLError"))

-- The dump of the one entry.
pub get_script : Os → Yaml → Text → Text → Text → Disk → Result Text
get_script os yaml base path [] d = err (bad_request (codes "Missing id parameter"))
get_script os yaml base path (c ∷ id) d = load_scripts os yaml base path d >>= λ loaded.
    elim (get_field (c ∷ id) loaded.0) [
      | none ↦ err (script_not_there (c ∷ id))
      | some v ↦ script_content (c ∷ id) (yaml.dump (map (field (plain_key (c ∷ id)) v end)))
    ]

-- The body of a request, as the fields of a mapping.
pub as_fields : Text → Option Value → Result Fields
as_fields refusal none = err (bad_request (codes "Invalid YAML: "))
as_fields refusal (some (map fields)) = ok fields
as_fields refusal (some _) = err (bad_request refusal)

pub parse_script : Yaml → Text → Text → Result Fields
unfolding as_fields
parse_script yaml refusal body =
    if is_blank body
    then err (bad_request (codes "Request body must not be empty"))
    else as_fields refusal (yaml.load body)

-- A mapping with exactly one key: that key, and its value.
pub one_script : Text → Fields → Result (Key × Value)
one_script refusal (field k v end) = ok (k, v)
one_script refusal _ = err (bad_request refusal)

-- The responses, as for the automations; a creation names the entity and says whether it was seen.
pub data ScriptAnswer : Type 0 where
  dry_run : Value → Value → ScriptAnswer
  applied deleted : Bool → Bool → ScriptAnswer
  created : Text → Text → Bool → Bool → Bool → ScriptAnswer

pub script_answered : (Bool → ScriptAnswer) → Result Bool × Disk → Result ScriptAnswer × Disk
script_answered answer (err e, d) = (err e, d)
script_answered answer (ok surgical, d) = (ok (answer surgical), d)

module _ (os : Os) (yaml : Yaml) (base now path : Text) (reloaded : Bool) where
  -- The write of a changed mapping.
  abbrev pub save_scripts : Fields → Text → Edit → Disk → Result Bool × Disk
  save_scripts fields source edit d = save_entry os yaml base now path (map fields) source edit d

  pub put_into : Bool → Text → Value → Result LoadedScripts → Disk → Result ScriptAnswer × Disk
  unfolding script_answered set_field
  put_into dry id body (err e) d = (err e, d)
  put_into dry id body (ok (fields, source)) d = elim (get_field id fields) [
    | none ↦ (err (script_not_there id), d)
    | some old ↦
        if dry
        then (ok (dry_run old body), d)
        else script_answered (λ surgical. applied surgical reloaded)
            (save_scripts (set_field (plain_key id) body fields) source
              (record { kind = replace; where_at = some (key id) }) d)
  ]

  pub put_body : Bool → Text → Result Value → Disk → Result ScriptAnswer × Disk
  unfolding put_into
  put_body dry id (err e) d = (err e, d)
  put_body dry id (ok body) d = put_into dry id body (load_scripts os yaml base path d) d

  pub put_script : Text → Bool → Text → Disk → Result ScriptAnswer × Disk
  unfolding put_body parse_script normalize_script_body
  put_script [] dry body d = (err (bad_request (codes "Missing id parameter")), d)
  put_script (c ∷ id) dry body d =
      put_body dry (c ∷ id)
        (parse_script yaml (codes "Script must be a YAML mapping") body >>= λ fields.
          normalize_script_body (c ∷ id) fields)
        d

  -- `seen` is what polling for the entity finds.
  pub post_into :
      (Text → Bool) → Key → Value → Result LoadedScripts → Disk → Result ScriptAnswer × Disk
  unfolding script_answered set_field
  post_into seen id body (err e) d = (err e, d)
  post_into seen id body (ok (fields, source)) d = elim (get_field id.text fields) [
    | some old ↦ (err (conflict (codes "Script already exists: " ++ id.text)), d)
    | none ↦
        let entity = codes "script." ++ id.text in
        script_answered
          (λ surgical.
            created id.text entity surgical reloaded (if reloaded then seen entity else false))
          (save_scripts (set_field id body fields) source
            (record { kind = append; where_at = some (key id.text) }) d)
  ]

  pub post_parsed_script : (Text → Bool) → Result (Key × Value) → Disk → Result ScriptAnswer × Disk
  unfolding post_into
  post_parsed_script seen (err e) d = (err e, d)
  post_parsed_script seen (ok (id, body)) d =
      post_into seen id body (load_scripts os yaml base path d) d

  pub post_script : (Text → Bool) → Text → Disk → Result ScriptAnswer × Disk
  unfolding post_parsed_script parse_script one_script
  post_script seen body d =
      let refusal =
        codes "Body must be a YAML mapping with exactly one top-level key (the script id)" in
      post_parsed_script seen
        (parse_script yaml refusal body >>= λ fields. one_script refusal fields) d

  pub delete_from : Text → Result LoadedScripts → Disk → Result ScriptAnswer × Disk
  unfolding script_answered del_field
  delete_from id (err e) d = (err e, d)
  delete_from id (ok (fields, source)) d = elim (get_field id fields) [
    | none ↦ (err (script_not_there id), d)
    | some old ↦
        script_answered (λ surgical. deleted surgical reloaded)
          (save_scripts (del_field id fields) source
            (record { kind = delete; where_at = some (key id) }) d)
  ]

  pub delete_script : Text → Disk → Result ScriptAnswer × Disk
  unfolding delete_from
  delete_script [] d = (err (bad_request (codes "Missing id parameter")), d)
  delete_script (c ∷ id) d = delete_from (c ∷ id) (load_scripts os yaml base path d) d

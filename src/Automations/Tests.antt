-- ===== src/Automations/Tests.antt =====
-- Runs of src/companion/routes/automations.py over a small parser, and the theorems at concrete requests.
use hactl_companion.Base.{
  ℕ, ◌≡◌, refl, true, false, Option, none, some, List, [], ◌∷◌, Text, codes, eq_text, is_blank,
  is_space, split, split_step, starts_with, lower, mem_text, if◌then◌else◌,
}
use hactl_companion.Http.{ok}
use hactl_companion.PathGuard.{
  FilePath, is_within, relative_to, is_denied_path, is_denied, is_denied_dir, name, confined,
  confine, render, body,
}
use hactl_companion.PathGuard.Lexical.{lexical, lexical-IsResolving}
use hactl_companion.Files.{Disk, read, write, paths, eq_path}
use hactl_companion.Backups.{
  parent, backup_dir, is_backup_of, lt_text, sort_paths, insert_path, filter_backups, backups,
  unlink_each, prune_backups, back_up, make_backup,
}
use hactl_companion.Yaml.{Yaml, Value, Items, map, seq, nil, cons, str, bare, field, end, done}
use hactl_companion.Surgical.Splice.{splice}
use hactl_companion.Surgical.Verify.{verified}
use hactl_companion.Surgical.Save.{
  contained, opened, read_source, dump_whole, write_file, after_backup, save_target, save_entry,
}
use hactl_companion.Surgical.Save.Safety.{Written}
use hactl_companion.Automations.{
  get_field, item_field, is_candidate, find_by, or_else, find_automation, set_item, pop_item,
  append_item, same_id, has_id, LiveState, find_live, resolve_via_states, is_text, as_list,
  parse_source, load_automations, as_mapping, parse_body, applied, deleted, created, answered,
  put_found, put_listed, put_parsed, put_automation, delete_found, delete_listed, delete_automation,
  post_listed, post_parsed, post_automation,
}
use hactl_companion.Yaml.Plain.{plain, eq_plain}
use hactl_companion.Automations.Search.{IsFirst, item_at}
use hactl_companion.Automations.Writes.{put_automation-applied}
use hactl_companion.Automations.Membership.{IsMeant, delete_automation-deleted}
use hactl_companion.Automations.Creation.{post_automation-created}

-- An item with an id and an alias.
abbrev item : Text → Text → Value
item id alias = map (
    field (record { style = bare; text = codes "id" }) (str bare id)
      (field (record { style = bare; text = codes "alias" }) (str bare alias) end))

abbrev items : Items
items = cons (item (codes "1") (codes "Lights")) (cons (item (codes "2") (codes "Heat")) nil)

-- It knows the text of the file and two bodies, and dumps without a splice.
small : Yaml
small = record {
  compose = λ t. none;
  load = λ t.
      if eq_text t (codes "file")
      then some (seq items)
      else if eq_text t (codes "two")
      then some (item (codes "2") (codes "Warm"))
      else if eq_text t (codes "three")
      then some (item (codes "3") (codes "New"))
      else none;
  dump = λ v. done (codes "dumped");
}

abbrev base : Text
base = codes "/c"

abbrev path : Text
path = codes "/c/a.yaml"

abbrev file : FilePath
file = codes "c" ∷ codes "a.yaml" ∷ []

abbrev volume : Disk
volume = (file, codes "file") ∷ []

-- The live entity of the second item.
abbrev states : Option (List LiveState)
states =
    some (record { entity_id = some (codes "automation.heat"); config_id = some (codes "2") } ∷ [])

inside : contained lexical base path ≡ ok file
unfolding contained lexical is_within relative_to is_denied_path is_denied is_denied_dir name split
    split_step starts_with eq_text lower mem_text
inside = refl

rooted : lexical.realpath base ≡ codes "c" ∷ []
unfolding lexical split split_step
rooted = refl

abbrev PutAnswer : Text → Text → Type 0
PutAnswer id new =
    (put_automation lexical small base (codes "1") path true id false new volume).0
    ≡ ok (applied false true)

answers :
    PutAnswer (codes "2") (codes "two")
    × ((delete_automation lexical small base
          (codes "1")
          path
          true
          states
          (codes "automation.heat")
          volume).0
        ≡ ok (deleted false true))
    × ((post_automation lexical small base
          (codes "1")
          path
          true
          (λ v. none)
          (codes "three")
          volume).0
        ≡ ok (created (str bare (codes "3")) none false true))
unfolding small put_automation put_parsed put_listed put_found delete_automation delete_listed
    delete_found post_automation post_parsed post_listed answered parse_body as_mapping
    load_automations parse_source as_list read_source opened find_by find_automation or_else
    find_live resolve_via_states is_text is_candidate item_field get_field set_item pop_item
    append_item has_id same_id plain eq_plain save_entry save_target after_backup write_file
    dump_whole verified splice contained lexical is_within relative_to is_denied_path is_denied
    is_denied_dir name split split_step lower mem_text make_backup confine confined render body read
    write eq_path eq_text back_up prune_backups unlink_each backups sort_paths insert_path lt_text
    filter_backups is_backup_of paths backup_dir parent is_blank is_space starts_with
answers = (refl, refl, refl)

put_automation-applied_example :
    (new : Value) × (found : Items) × (source : Text) × (i : ℕ) × (old : Value) × (small.load
        (codes "two")
      ≡ some new)
    × (load_automations lexical small base path volume ≡ ok (found, source))
    × IsFirst (codes "id") (codes "2") found i old
    × ((t : Text) × (read file
            (put_automation lexical small base
              (codes "1")
              path
              true
              (codes "2")
              false
              (codes "two")
              volume).1
          ≡ some t)
        × Written small (seq (set_item i new found)) false t)
put_automation-applied_example =
    put_automation-applied lexical small base (codes "1") path true volume (codes "c") []
      lexical-IsResolving rooted file inside (codes "2") false (codes "two") false true answers.0

delete_automation-deleted_example :
    (found : Items) × (source : Text) × (i : ℕ) × (old : Value) × (load_automations lexical small
        base path volume
      ≡ ok (found, source))
    × IsMeant states (codes "automation.heat") found i old
    × ((t : Text) × (read file
            (delete_automation lexical small base
              (codes "1")
              path
              true
              states
              (codes "automation.heat")
              volume).1
          ≡ some t)
        × Written small (seq (pop_item i found)) false t)
delete_automation-deleted_example =
    delete_automation-deleted lexical small base (codes "1") path true volume (codes "c") []
      lexical-IsResolving rooted file inside states (codes "automation.heat") false true answers.1

post_automation-created_example :
    (new : Value) × (found : Items) × (source : Text) × (small.load (codes "three") ≡ some new)
    × (item_field (codes "id") new ≡ some (str bare (codes "3")))
    × (load_automations lexical small base path volume ≡ ok (found, source))
    × ((j : ℕ) (other : Value)
        → item_at j found ≡ some other
        → same_id (str bare (codes "3")) other ≡ false)
    × ((t : Text) × (read file
            (post_automation lexical small base
              (codes "1")
              path
              true
              (λ v. none)
              (codes "three")
              volume).1
          ≡ some t)
        × Written small (seq (append_item new found)) false t)
post_automation-created_example =
    post_automation-created lexical small base (codes "1") path true volume (codes "c") []
      lexical-IsResolving rooted file inside (λ v. none) (codes "three") (str bare (codes "3")) none
      false true answers.2

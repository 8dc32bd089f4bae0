-- ===== src/Scripts/Tests.antt =====
-- Runs of src/companion/routes/scripts.py over a small parser, and the theorems at concrete requests.
use hactl_companion.Base.{
  ◌≡◌, refl, true, false, none, some, [], ◌∷◌, Text, codes, eq_text, mem_text, split, split_step,
  starts_with, lower,
}
use hactl_companion.Http.{ok, err, bad_request}
use hactl_companion.PathGuard.{
  FilePath, is_within, relative_to, is_denied_path, is_denied, is_denied_dir, name, confined,
  confine, render, body,
}
use hactl_companion.PathGuard.Lexical.{lexical, lexical-IsResolving}
use hactl_companion.Files.{Disk, read, write, paths, eq_path}
use hactl_companion.Backups.{
  parent, backup_dir, is_backup_of, lt_text, sort_paths, insert_path, filter_backups, backups,
  unlink_each, prune_backups, back_up, make_backup,
}
use hactl_companion.Yaml.{Yaml, Value, Fields, map, str, bare, field, end, done}
use hactl_companion.Surgical.Splice.{splice}
use hactl_companion.Surgical.Verify.{verified}
use hactl_companion.Surgical.Save.{
  contained, opened, read_source, dump_whole, write_file, after_backup, save_target, save_entry,
}
use hactl_companion.Surgical.Save.Safety.{Written}
use hactl_companion.Automations.{get_field}
use hactl_companion.Scripts.{
  plain_key, as_scripts, parse_scripts, load_scripts, unwrapped, normalize_script_body, del_field,
  deleted, script_answered, delete_from, delete_script,
}
use hactl_companion.Scripts.Writes.{delete_script-deleted}

abbrev script : Value
script = map (field (plain_key (codes "alias")) (str bare (codes "Door")) end)

abbrev fields : Fields
fields = field (plain_key (codes "door")) script (field (plain_key (codes "gate")) script end)

-- A wrapper under another id is refused, and one under the script's own id is taken off.
wrappers :
    (normalize_script_body (codes "door") (field (plain_key (codes "door")) script end) ≡ ok script)
    × (normalize_script_body (codes "door") (field (plain_key (codes "alias")) script end)
        ≡ ok (map (field (plain_key (codes "alias")) script end)))
    × (normalize_script_body (codes "door") (field (plain_key (codes "gate")) script end)
        ≡ err (bad_request (codes "Script wrapper id gate does not match target door")))
unfolding normalize_script_body unwrapped eq_text mem_text
wrappers = (refl, refl, refl)

-- It loads every text to the two scripts, and dumps without a splice.
small : Yaml
small = record {
  compose = λ t. none;
  load = λ t. some (map fields);
  dump = λ v. done (codes "dumped");
}

abbrev base : Text
base = codes "/c"

abbrev path : Text
path = codes "/c/s.yaml"

abbrev file : FilePath
file = codes "c" ∷ codes "s.yaml" ∷ []

abbrev volume : Disk
volume = (file, codes "file") ∷ []

inside : contained lexical base path ≡ ok file
unfolding contained lexical is_within relative_to is_denied_path is_denied is_denied_dir name split
    split_step starts_with eq_text lower mem_text
inside = refl

rooted : lexical.realpath base ≡ codes "c" ∷ []
unfolding lexical split split_step
rooted = refl

is_deleted :
    (delete_script lexical small base (codes "1") path true (codes "gate") volume).0
    ≡ ok (deleted false true)
unfolding small delete_script delete_from script_answered load_scripts parse_scripts as_scripts
    read_source opened get_field del_field save_entry save_target after_backup write_file dump_whole
    verified splice contained lexical is_within relative_to is_denied_path is_denied is_denied_dir
    name split split_step lower mem_text make_backup confine confined render body read write eq_path
    eq_text back_up prune_backups unlink_each backups sort_paths insert_path lt_text filter_backups
    is_backup_of paths backup_dir parent starts_with
is_deleted = refl

delete_script-deleted_example :
    (found : Fields) × (source : Text) × (old : Value) × (load_scripts lexical small base path
        volume
      ≡ ok (found, source))
    × (get_field (codes "gate") found ≡ some old)
    × ((t : Text) × (read file
            (delete_script lexical small base (codes "1") path true (codes "gate") volume).1
          ≡ some t)
        × Written small (map (del_field (codes "gate") found)) false t)
delete_script-deleted_example =
    delete_script-deleted lexical small base (codes "1") path true volume (codes "c") []
      lexical-IsResolving rooted file inside (codes "gate") false true is_deleted

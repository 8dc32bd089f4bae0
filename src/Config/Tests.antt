-- ===== src/Config/Tests.antt =====
-- Runs of the write route of src/companion/routes/config.py, and the theorems at concrete requests.
use hactl_companion.Base.{
  ◌≡◌, refl, true, Option, none, some, [], ◌∷◌, Text, codes, arith, eq_text, mem_text, is_blank,
  is_space, strip, lstrip, lower, starts_with, split, split_step,
}
use hactl_companion.Http.{ok, err, unavailable}
use hactl_companion.Backups.Guarantees.{is_backup_of_self}
use hactl_companion.PathGuard.{
  FilePath, confine, confined, is_denied_path, is_denied, is_denied_dir, relative_to, render, body,
  name,
}
use hactl_companion.PathGuard.Lexical.{lexical, lexical-IsResolving}
use hactl_companion.Files.{Disk, read, write, paths, eq_path, eq_path_iff}
use hactl_companion.Backups.{
  parent, backup_dir, backup_path, is_backup_of, lt_text, sort_paths, insert_path, filter_backups,
  backups, unlink_each, prune_backups, back_up, make_backup,
}
use hactl_companion.Yaml.{Yaml, str, bare, failed}
use hactl_companion.Config.{
  parse_bool_param, allowed, resolve_config_path, Check, completed, unreachable, crashed,
  validate_written_config, rollback_note, applied, settle, write_checked, put_loaded, put_target,
  put_config_file,
}
use hactl_companion.Config.Put.{IsLatest, IsGated, put_dry_run, put_rolled_back, put_applied}

-- A parser that loads every text.
abbrev plain_yaml : Yaml
plain_yaml = record { compose = λ t. none; load = λ t. some (str bare t); dump = λ v. failed [] }

abbrev base : Text
base = codes "/c"

abbrev path : Text
path = codes "a.yaml"

abbrev file : FilePath
file = codes "c" ∷ path ∷ []

abbrev volume : Disk
volume = (file, codes "x: 1") ∷ []

abbrev wet : Option Text
wet = some (codes " False")

abbrev content : Text
content = codes "x: 2"

-- Home Assistant accepts everything, or cannot be reached.
abbrev accepting : Disk → Check
accepting d = completed true []

abbrev silent : Disk → Check
silent d = unreachable (codes "timeout")

-- An answer that is not JSON.
abbrev garbled : Disk → Check
garbled d = crashed (codes "JSONDecodeError")

found : resolve_config_path lexical base path ≡ ok file
unfolding resolve_config_path allowed lexical confine confined is_denied_path is_denied
    is_denied_dir relative_to render body name starts_with eq_text split split_step lower mem_text
found = refl

rooted : lexical.realpath base ≡ codes "c" ∷ []
unfolding lexical split split_step
rooted = refl

latest : IsLatest (codes "1") file volume
unfolding read eq_path eq_text backup_dir parent
latest = (refl, λ q b h. absurd (ground (arith, b, h, eq_path_iff file q, is_backup_of_self file)))

refused :
    (put_config_file lexical plain_yaml true silent base (codes "1") path wet content volume).0
    ≡ err (unavailable (codes "Config validation could not run: timeout. Backup restored."))
unfolding put_config_file put_target put_loaded write_checked settle validate_written_config
    make_backup back_up prune_backups unlink_each backups sort_paths insert_path filter_backups
    is_backup_of lt_text paths rollback_note parse_bool_param is_blank is_space strip lstrip lower
    mem_text resolve_config_path allowed lexical confine confined is_denied_path is_denied
    is_denied_dir relative_to render body name starts_with eq_text split split_step read write
    eq_path parent backup_dir
refused = refl

accepted :
    (put_config_file lexical plain_yaml true accepting base (codes "1") path wet content volume).0
    ≡ ok (applied true (some (codes "a.yaml.bak.1")))
unfolding put_config_file put_target put_loaded write_checked settle validate_written_config
    make_backup back_up prune_backups unlink_each backups sort_paths insert_path filter_backups
    is_backup_of lt_text paths rollback_note parse_bool_param is_blank is_space strip lstrip lower
    mem_text resolve_config_path allowed lexical confine confined is_denied_path is_denied
    is_denied_dir relative_to render body name starts_with eq_text split split_step read write
    eq_path parent backup_dir
accepted = refl

put_dry_run_example :
    (put_config_file lexical plain_yaml true accepting base (codes "1") path none content volume).1
    ≡ volume
put_dry_run_example =
    put_dry_run lexical plain_yaml true accepting base (codes "1") path none content volume
      (unfold parse_bool_param in refl)

put_rolled_back_example :
    read file
      (put_config_file lexical plain_yaml true silent base (codes "1") path wet content volume).1
    ≡ some (codes "x: 1")
unfolding read eq_path eq_text
put_rolled_back_example =
    put_rolled_back lexical plain_yaml true silent base (codes "1") path (codes "c") []
      lexical-IsResolving rooted file found wet content volume _ file latest
      (is_backup_of_self file) (λ w m held h. cc h) refused

put_applied_example :
    let left =
      (put_config_file lexical plain_yaml true accepting base
        (codes "1")
        path
        wet
        content
        volume).1 in
    (read file left ≡ some content)
    × IsGated true accepting left true
    × ((old : Text)
        → read file volume ≡ some old
        → (some (codes "a.yaml.bak.1") ≡ some (codes "a.yaml.bak.1"))
          × (read (backup_path file (codes "1")) left ≡ some old))
    × (read file volume ≡ none → some (codes "a.yaml.bak.1") ≡ none)
unfolding name
put_applied_example =
    put_applied lexical plain_yaml true accepting base (codes "1") path (codes "c") []
      lexical-IsResolving rooted file found wet content volume true (some (codes "a.yaml.bak.1"))
      latest accepted

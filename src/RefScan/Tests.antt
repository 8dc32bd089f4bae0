-- ===== src/RefScan/Tests.antt =====
-- A small configuration for the scans and the replacement of src/companion/refscan.py, and the theorems
-- at it.
use hactl_companion.Base.{
  ℕ, ◌≡◌, ◌≢◌, refl, Bool, true, false, ◌||◌, ◌&&◌, none, some, [], ◌∷◌, inr, Text, codes, eq_text,
  mem_text, leb, ◌==◌, is_blank, is_space, strip, lstrip, rstrip, lower, starts_with, split,
  split_step, contains_text, join, show_nat, if◌then◌else◌,
}
use hactl_companion.Http.{ok}
use hactl_companion.PathGuard.{
  FilePath, confine, confined, is_within, is_denied_path, is_denied, is_denied_dir, relative_to,
  render, body, name,
}
use hactl_companion.PathGuard.Lexical.{lexical, lexical-IsResolving}
use hactl_companion.Files.{Disk, read, write, unlink, paths, eq_path}
use hactl_companion.Backups.{
  parent, lt_text, backup_dirname, make_backup, back_up, prune_backups, unlink_each, backups,
  sort_paths, insert_path, filter_backups, is_backup_of, backup_dir,
}
use hactl_companion.Yaml.{Yaml, Value, bare, null, str, tagged, seq, nil, cons, end, field, done}
use hactl_companion.Yaml
use hactl_companion.RefScan.Token.{
  boundary, first_word, last_word, token_at, search_from, search, subn_from, subn,
}
use hactl_companion.RefScan.Tree.{scan_tree, replace_tree, render_rest, render_path}
use hactl_companion.RefScan.Tree.Agreement.{is_leaf, replace_tree-scan_tree}
use hactl_companion.RefScan.Walk.{
  read_tree, eq_skipped, included_by, most_included, visited, walk_round, next_state, walk_loop,
  walk, walk_config, out_of_fuel,
}
use hactl_companion.RefScan.Includes.{
  lstrip_bang, claims_to_include, include_tag, as_posix, rel_within, rel_to, both,
  directory_targets, tag_targets, include_targets, queued, enqueue_includes,
}
use hactl_companion.RefScan.Load.{
  LoadEnd, loaded, other_error, check_confined, check_path, load_target, load_checked, load,
  load_or_skip, escaped_newline, may_contain_text, may_contain, pass_over, is_file, World, follow,
  scan_loaded, scan_visit, scan_graph,
}
use hactl_companion.RefScan.Scan.{
  add_record, skipped_files, skipped_fields, insert_by_key, sort_by_key, ScanHit, file_hits,
  all_hits, walked, entry_file,
}
use hactl_companion.Surgical.Leaves.{splice_leaves}
use hactl_companion.Surgical.Save.{write_file, dump_whole, opened}
use hactl_companion.RefScan.Load.Guarded.{scan_visit-guarded}
use hactl_companion.RefScan.Ends.{walks_end}
use hactl_companion.RefScan.Replace.{
  replace_yaml_literal, gather, apply, reported, write_all, after_write, write_one, save_backed_up,
  save_checked, collect, replace_graph, replace_visit, replace_loaded, rewrite_tree, spliced_source,
  tree_source, read_checked, file_changes, file_writes, is_whole, Change,
}
use hactl_companion.RefScan.Replace.Frame.{replace_yaml_literal-frame}
use hactl_companion.RefScan.Replace.Preview.{replace_yaml_literal-dry_run, replace_visit-scan_visit}
use hactl_companion.RefScan.Route.{post_ref_replace, object, json_text, body_get, truth}
use hactl_companion.RefScan.Route.Validation.{wants_write, post_ref_replace-unchanged}

-- `\w` on ASCII.
abbrev word : ℕ → Bool
word c = (leb 97 c && leb c 122) || (leb 65 c && leb c 90) || (leb 48 c && leb c 57) || (c == 95)

abbrev main_text : Text
main_text = codes "automation: !include automations.yaml"

abbrev automations_text : Text
automations_text = codes "- light.kitchen"

abbrev main_tree : Value
main_tree = Yaml.map (
    field (record { style = bare; text = codes "automation" })
      (tagged (codes "!include") (codes "automations.yaml")) end)

abbrev automations_tree : Value
automations_tree = seq (cons (str bare (codes "light.kitchen")) nil)

-- A parser for these two texts.
abbrev parser : Text → LoadEnd
parser t =
    if eq_text t main_text
    then loaded main_tree
    else if eq_text t automations_text
    then loaded automations_tree
    else other_error (codes "YAMLError")

abbrev world : World
world = record { os = lexical; parse = parser; listing = λ p. none }

abbrev base : Text
base = codes "/c"

abbrev root : FilePath
root = codes "c" ∷ []

abbrev volume : Disk
volume =
    (codes "c" ∷ codes "configuration.yaml" ∷ [], main_text)
    ∷ (codes "c" ∷ codes "automations.yaml" ∷ [], automations_text)
    ∷ []

abbrev light : Text
light = codes "light.kitchen"

abbrev hit : ScanHit
hit = record { location = codes "automations.yaml"; path = codes "[0]"; matched_value = light }

-- A parser that composes nothing, so that every file is dumped whole.
abbrev plain_yaml : Yaml
plain_yaml = record { compose = λ t. none; load = λ t. none; dump = λ v. done (codes "dumped") }

abbrev hall : Text
hall = codes "light.hall"

abbrev clock : FilePath → Text
clock p = codes "1"

walks_end_example :
    (walk_config (scan_graph world root (some light) volume) (paths volume) entry_file
      ≢ out_of_fuel)
    × (walk_config
          (replace_graph word world plain_yaml root light hall volume)
          (paths volume)
          entry_file
        ≢ out_of_fuel)
walks_end_example = walks_end word world plain_yaml root light hall entry_file (some light) volume

other_name : light ≢ hall
other_name = λ h. cc h

replace_tree-scan_tree_example :
    (replace_tree word light hall automations_tree).1
    ≡ (if is_leaf automations_tree then [] else scan_tree word light automations_tree)
replace_tree-scan_tree_example =
    replace_tree-scan_tree word 108 (codes "ight.kitchen") hall other_name automations_tree

abbrev secrets : FilePath
secrets = codes "c" ∷ codes "secrets.yaml" ∷ []

rooted : lexical.realpath (render root) ≡ root
unfolding lexical render body split split_step
rooted = refl

shut : is_denied_path secrets root ≡ true
unfolding is_denied_path is_denied is_denied_dir name lower mem_text eq_text relative_to
shut = refl

apart : eq_text (name (parent secrets)) backup_dirname ≡ false
unfolding name parent eq_text
apart = refl

replace_yaml_literal-frame_example :
    read secrets (replace_yaml_literal word world plain_yaml root light hall clock false volume).1
    ≡ read secrets volume
replace_yaml_literal-frame_example =
    replace_yaml_literal-frame world plain_yaml (codes "c") [] lexical-IsResolving rooted secrets
      (inr shut) apart word light hall clock false volume

abbrev change : Change
change = record {
  location = codes "automations.yaml";
  path = codes "[0]";
  before = light;
  after = hall;
  reformatted = true;
}

replaced :
    (replace_yaml_literal word world plain_yaml root light hall clock false volume).0
    ≡ ok (change ∷ [], [])
unfolding replace_yaml_literal gather apply reported write_all after_write write_one save_backed_up
    save_checked collect replace_graph replace_visit replace_loaded rewrite_tree spliced_source
    replace_tree subn subn_from tree_source read_checked opened splice_leaves file_changes
    file_writes is_whole write_file dump_whole write make_backup back_up prune_backups unlink_each
    unlink backups sort_paths insert_path filter_backups is_backup_of backup_dir skipped_fields
    skipped_files add_record insert_by_key sort_by_key file_hits all_hits walked scan_graph
    scan_visit scan_loaded follow is_file pass_over may_contain may_contain_text escaped_newline
    load_or_skip load load_checked load_target check_path check_confined enqueue_includes queued
    include_targets tag_targets directory_targets both rel_to rel_within as_posix include_tag
    claims_to_include lstrip_bang walk_config walk walk_loop next_state walk_round visited
    most_included included_by eq_skipped render_path render_rest scan_tree search search_from
    token_at boundary first_word last_word lexical confine confined is_denied_path is_denied
    is_denied_dir relative_to render body name starts_with eq_text split split_step lower mem_text
    read paths eq_path parent lt_text is_blank is_space strip lstrip rstrip contains_text join
    show_nat
replaced = refl

replace_yaml_literal-dry_run_example :
    replace_yaml_literal word world plain_yaml root light hall clock true volume
    ≡ (ok (change ∷ [], []), volume)
replace_yaml_literal-dry_run_example =
    replace_yaml_literal-dry_run word world plain_yaml root light hall clock volume
      (change ∷ [], []) replaced

abbrev automations_file : FilePath
automations_file = codes "c" ∷ codes "automations.yaml" ∷ []

replace_visit-scan_visit_example :
    replace_visit word world plain_yaml root light hall volume automations_file
    ≡ scan_visit world root none volume automations_file
replace_visit-scan_visit_example =
    replace_visit-scan_visit word world plain_yaml root light hall volume automations_file

read_here :
    scan_visit world root none volume (lexical.realpath_join root (codes "automations.yaml"))
    ≡ read_tree automations_tree [] []
unfolding skipped_fields skipped_files add_record insert_by_key sort_by_key file_hits all_hits
    walked scan_graph scan_visit scan_loaded follow is_file pass_over may_contain may_contain_text
    escaped_newline load_or_skip load load_checked load_target check_path check_confined
    enqueue_includes queued include_targets tag_targets directory_targets both rel_to rel_within
    as_posix include_tag claims_to_include lstrip_bang walk_config walk walk_loop next_state
    walk_round visited most_included included_by eq_skipped render_path render_rest scan_tree search
    search_from token_at boundary first_word last_word lexical confine confined is_denied_path
    is_denied is_denied_dir relative_to render body name starts_with eq_text split split_step lower
    mem_text read paths eq_path parent lt_text is_blank is_space strip lstrip rstrip contains_text
    join show_nat
read_here = refl

scan_visit-guarded_example :
    (is_within (lexical.realpath_join root (codes "automations.yaml")) root ≡ true)
    × (is_denied_path (lexical.realpath_join root (codes "automations.yaml")) root ≡ false)
    × ((text : Text) × (read (lexical.realpath_join root (codes "automations.yaml")) volume
          ≡ some text)
        × (parser text ≡ loaded automations_tree))
scan_visit-guarded_example =
    scan_visit-guarded world (codes "c") [] none volume (codes "automations.yaml") automations_tree
      [] [] lexical-IsResolving rooted ((λ h. cc h), ((λ h. cc h), tt), tt) read_here

no_dry_run :
    wants_write (object ((codes "old", json_text light) ∷ (codes "new", json_text hall) ∷ []))
    ≡ false
unfolding body_get truth eq_text
no_dry_run = refl

post_ref_replace-unchanged_example :
    (post_ref_replace word world plain_yaml base clock
      (object ((codes "old", json_text light) ∷ (codes "new", json_text hall) ∷ []))
      volume).1
    ≡ volume
post_ref_replace-unchanged_example =
    post_ref_replace-unchanged word world plain_yaml base clock
      (object ((codes "old", json_text light) ∷ (codes "new", json_text hall) ∷ [])) volume
      no_dry_run

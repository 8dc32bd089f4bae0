-- ===== src/Resolver/Tests.antt =====
-- Files that include one another, resolved by the model of src/companion/yaml_resolver.py.
use hactl_companion.Base.{
  ◌≡◌, ◌≢◌, refl, true, none, [], ◌∷◌, Text, codes, eq_text, mem_text, is_blank, is_space, strip,
  lstrip, rstrip, lower, starts_with, split, split_step, if◌then◌else◌,
}
use hactl_companion.PathGuard.{
  FilePath, confine, confined, is_denied_path, is_denied, is_denied_dir, relative_to, render, body,
  name,
}
use hactl_companion.PathGuard.Lexical.{lexical}
use hactl_companion.Files.{Disk, read, paths, eq_path}
use hactl_companion.Backups.{parent}
use hactl_companion.Yaml.{Value, tagged, seq, nil, cons}
use hactl_companion.RefScan.Includes.{lstrip_bang, claims_to_include}
use hactl_companion.RefScan.Load.{LoadEnd, loaded, value_error, World, check_path, check_confined}
use hactl_companion.Resolver.{
  stopped, resolved, circular_chain, out_of_fuel, check, preserved_tag, tag_kind, is_file_there,
  check_include, include_file, resolve_kind, resolve_tag, walk_and_resolve, resolve_loaded,
  resolve_includes, resolve_checked, resolve_file, load_resolved,
}
use hactl_companion.Resolver.Ends.{load_resolved_ends}
use hactl_companion.Resolver.Complete.{no_includes, load_resolved-no_includes}

-- `a` includes `b`, `b` holds a secret, and `c` includes itself.
abbrev parser : Text → LoadEnd
parser t =
    if eq_text t (codes "a")
    then loaded (seq (cons (tagged (codes "!include") (codes " b.yaml ")) nil))
    else if eq_text t (codes "b")
    then loaded (tagged (codes "!secret") (codes "home"))
    else if eq_text t (codes "c")
    then loaded (tagged (codes "!include") (codes "c.yaml"))
    else value_error

abbrev world : World
world = record { os = lexical; parse = parser; listing = λ p. none }

abbrev root : FilePath
root = codes "c" ∷ []

abbrev volume : Disk
volume =
    (codes "c" ∷ codes "a.yaml" ∷ [], codes "a")
    ∷ (codes "c" ∷ codes "b.yaml" ∷ [], codes "b")
    ∷ (codes "c" ∷ codes "c.yaml" ∷ [], codes "c")
    ∷ []

abbrev answer : Value
answer = seq (cons (tagged (codes "!secret") (codes "home")) nil)

loads : load_resolved world root volume (codes "a.yaml") ≡ resolved answer
unfolding load_resolved resolve_file resolve_checked resolve_includes resolve_loaded
    walk_and_resolve resolve_tag resolve_kind include_file check_include is_file_there tag_kind
    preserved_tag check claims_to_include lstrip_bang check_path check_confined lexical confine
    confined is_denied_path is_denied is_denied_dir relative_to render body name starts_with eq_text
    split split_step lower mem_text read paths eq_path parent is_blank is_space strip lstrip rstrip
loads = refl

circle : load_resolved world root volume (codes "c.yaml") ≡ stopped circular_chain
unfolding load_resolved resolve_file resolve_checked resolve_includes resolve_loaded
    walk_and_resolve resolve_tag resolve_kind include_file check_include is_file_there tag_kind
    preserved_tag check claims_to_include lstrip_bang check_path check_confined lexical confine
    confined is_denied_path is_denied is_denied_dir relative_to render body name starts_with eq_text
    split split_step lower mem_text read paths eq_path parent is_blank is_space strip lstrip rstrip
circle = refl

load_resolved_ends_example : load_resolved world root volume (codes "c.yaml") ≢ stopped out_of_fuel
load_resolved_ends_example = load_resolved_ends world root volume (codes "c.yaml")

load_resolved-no_includes_example : no_includes answer ≡ true
load_resolved-no_includes_example =
    load_resolved-no_includes world root volume (codes "a.yaml") answer loads

-- ===== src/Wiring/Tests.antt =====
-- A configuration with one labelled include (src/companion/wiring.py).
use hactl_companion.Base.{
  ◌≡◌, refl, none, [], ◌∷◌, Text, codes, eq_text, mem_text, is_blank, is_space, strip, lstrip,
  rstrip, lower, starts_with, split, split_step,
}
use hactl_companion.PathGuard.{
  FilePath, confine, confined, is_denied_path, is_denied, is_denied_dir, relative_to, render, body,
  name,
}
use hactl_companion.PathGuard.Lexical.{lexical}
use hactl_companion.Files.{Disk, read, eq_path}
use hactl_companion.Yaml.{Fields, bare, tagged, field, end}
use hactl_companion.Yaml
use hactl_companion.RefScan.Load.{loaded, World}
use hactl_companion.Wiring.{
  wired, contained_path, contained_from, configures, domain_keys, configuration_of,
  read_configuration, load_configuration, include_target, add_key, target_of, collect_includes,
  is_included, single_target, choose_target, target_of_keys, target_in, wired_target,
}
use hactl_companion.Wiring.Included.{IsIncludedBy, wired_target-IsIncludedBy}

abbrev config : Fields
config =
    field (record { style = bare; text = codes "script hall" })
      (tagged (codes "!include") (codes "hall.yaml")) end

abbrev world : World
world = record { os = lexical; parse = λ t. loaded (Yaml.map config); listing = λ p. none }

abbrev base : Text
base = codes "/c"

abbrev volume : Disk
volume = (codes "c" ∷ codes "configuration.yaml" ∷ [], codes "x") ∷ []

abbrev hall : FilePath
hall = codes "c" ∷ codes "hall.yaml" ∷ []

chosen : wired_target world base (codes "script") (codes "scripts.yaml") volume ≡ wired hall
unfolding wired_target target_in target_of_keys choose_target single_target is_included
    collect_includes target_of add_key include_target load_configuration read_configuration
    configuration_of domain_keys configures contained_from contained_path lexical confine confined
    is_denied_path is_denied is_denied_dir relative_to render body name starts_with eq_text split
    split_step lower mem_text read eq_path strip lstrip rstrip is_blank is_space
chosen = refl

wired_target-IsIncludedBy_example :
    (found : Fields) × (load_configuration world base volume ≡ wired found)
    × IsIncludedBy lexical base (codes "script") hall found
wired_target-IsIncludedBy_example =
    wired_target-IsIncludedBy world base (codes "script") (codes "scripts.yaml") volume hall chosen

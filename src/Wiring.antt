-- ===== src/Wiring.antt =====
-- The write side of src/companion/wiring.py: which file a new entry of a domain belongs in, proven from
-- configuration.yaml. The texts of the refusals are left out, but for what they are about. Keys hold no
-- line breaks, and a mapping's keys are unique.
pub mod Included
mod Tests
use hactl_companion.Base.{
  ℕ, Bool, true, false, not, ◌&&◌, ◌||◌, Option, none, some, List, [], ◌∷◌, ◌++◌, Text, codes,
  eq_text, starts_with, strip, length, drop, any, if◌then◌else◌,
}
use hactl_companion.Http.{HttpError, bad_request, Result, ok, err}
use hactl_companion.PathGuard.{FilePath, Os, confine, is_denied_path, render}
use hactl_companion.Files.{Disk, read, eq_path}
use hactl_companion.Automations.{get_field}
use hactl_companion.Yaml.{Key, Value, Fields, null, atom, str, tagged, seq, end, field}
use hactl_companion.Yaml
use hactl_companion.RefScan.Load.{
  World, LoadEnd, loaded, file_not_found, permission_error, circular_include, value_error,
  other_error,
}

abbrev pub configuration_file : Text
configuration_file = codes "configuration.yaml"

-- `NotWiredError`, by its cause.
pub data NotWired : Type 0 where
  outside_config access_refused : Text → NotWired
  no_configuration unreadable_configuration no_mapping : NotWired
  -- No key of the domain; whether there are packages.
  no_key : Bool → NotWired
  -- The keys that are wired in another way than by one file.
  nothing_to_extend : List Text → NotWired
  ambiguous_files : List (Text × FilePath) → NotWired

pub data Wired (A : Type 0) : Type 0 where
  not_wired : NotWired → Wired A
  wired : A → Wired A

infixl 5 ◌>=>◌
abbrev pub ◌>=>◌ : {A B : Type 0} → Wired A → (A → Wired B) → Wired B
statement >=> next = elim statement [ not_wired e ↦ not_wired e | wired value ↦ next value ]

unfoldable pub contained_from : FilePath → Text → Option FilePath → Wired FilePath
contained_from base_path relative none = not_wired (outside_config relative)
contained_from base_path relative (some target) =
    if is_denied_path target base_path then not_wired (access_refused relative) else wired target

unfoldable pub contained_path : Os → Text → Text → Wired FilePath
unfolding contained_from
contained_path os base relative =
    let base_path = os.realpath base in
    contained_from base_path relative (confine os (render base_path) relative)

-- Whether a key configures the domain: the domain itself, or with a label behind it.
unfoldable pub configures : Text → Text → Bool
configures domain key =
    eq_text key domain
    || (starts_with key (domain ++ codes " ")
        && not (eq_text (drop (length domain) key) (codes " ")))

unfoldable pub domain_keys : Text → Fields → List Text
unfolding configures
domain_keys domain end = []
domain_keys domain (field k v fields) =
    let rest = domain_keys domain fields in if configures domain k.text then k.text ∷ rest else rest

unfoldable pub packages_in : Option Value → Bool
unfolding get_field
packages_in (some (Yaml.map fields)) = elim (get_field (codes "packages") fields) [
  | none ↦ false
  | some _ ↦ true
]
packages_in _ = false

unfoldable pub has_packages : Fields → Bool
unfolding packages_in get_field
has_packages config = packages_in (get_field (codes "homeassistant") config)

unfoldable pub configuration_of : LoadEnd → Wired Fields
configuration_of (loaded (Yaml.map fields)) = wired fields
configuration_of (loaded v) = not_wired no_mapping
configuration_of e = not_wired unreadable_configuration

unfoldable pub read_configuration : (Text → LoadEnd) → Option Text → Wired Fields
unfolding configuration_of
read_configuration parse none = not_wired no_configuration
read_configuration parse (some text) = configuration_of (parse text)

unfoldable pub load_configuration : World → Text → Disk → Wired Fields
unfolding read_configuration contained_path
load_configuration w base d =
    contained_path w.os base configuration_file >=> λ path. read_configuration w.parse (read path d)

-- The files that the domain is included from, and the keys that are rejected.
abbrev pub Includes : Type 0
Includes = List (Text × FilePath) × List Text

-- The target of a value that is a single include.
unfoldable pub include_target : Value → Option Text
include_target (tagged tag raw) = if eq_text tag (codes "!include") then some (strip raw) else none
include_target v = none

unfoldable pub add_key : Text → Option (Wired FilePath) → Wired Includes → Wired Includes
add_key key none rest = rest >=> λ (found : Includes). wired (found.0, key ∷ found.1)
add_key key (some target) rest =
    target >=> λ p. rest >=> λ (found : Includes). wired ((key, p) ∷ found.0, found.1)

unfoldable pub target_of : Os → Text → Option Text → Option (Wired FilePath)
unfolding contained_path
target_of os base none = none
target_of os base (some relative) = some (contained_path os base relative)

-- The loop over the keys of the domain.
unfoldable pub collect_includes : Os → Text → Text → Fields → Wired Includes
unfolding add_key target_of include_target configures
collect_includes os base domain end = wired ([], [])
collect_includes os base domain (field k v fields) =
    let rest = collect_includes os base domain fields in
    let more = add_key k.text (target_of os base (include_target v)) rest in
    if configures domain k.text then more else rest

unfoldable pub is_included : FilePath → List (Text × FilePath) → Bool
is_included target includes = any (λ (i : Text × FilePath). eq_path i.1 target) includes

-- The one file, or the refusal.
unfoldable pub single_target : List (Text × FilePath) → List Text → Wired FilePath
single_target [] rejected = not_wired (nothing_to_extend rejected)
single_target ((key, target) ∷ []) rejected = wired target
single_target (i ∷ j ∷ includes) rejected = not_wired (ambiguous_files (i ∷ j ∷ includes))

-- The conventional file where the configuration includes it.
unfoldable pub choose_target : FilePath → Includes → Wired FilePath
unfolding is_included single_target
choose_target default_target (includes, rejected) =
    let single = single_target includes rejected in
    if is_included default_target includes then wired default_target else single

unfoldable pub target_of_keys : World → Text → Text → Text → Fields → List Text → Wired FilePath
unfolding collect_includes choose_target has_packages
target_of_keys w base domain conventional_file config [] = not_wired (no_key (has_packages config))
target_of_keys w base domain conventional_file config (key ∷ keys) =
    contained_path w.os base conventional_file >=> λ default_target.
    collect_includes w.os base domain config >=> λ includes. choose_target default_target includes

unfoldable pub target_in : World → Text → Text → Text → Fields → Wired FilePath
unfolding target_of_keys domain_keys
target_in w base domain conventional_file config =
    target_of_keys w base domain conventional_file config (domain_keys domain config)

unfoldable pub wired_target : World → Text → Text → Text → Disk → Wired FilePath
unfolding target_in load_configuration
wired_target w base domain conventional_file d =
    load_configuration w base d >=> λ config. target_in w base domain conventional_file config

-- `wired_target_or_default`: the read routes fall back to the conventional file.
unfoldable pub or_default : Wired FilePath → Wired FilePath → Wired FilePath
or_default (not_wired e) fallback = fallback
or_default (wired target) fallback = wired target

unfoldable pub wired_target_or_default : World → Text → Text → Text → Disk → Wired FilePath
unfolding or_default wired_target
wired_target_or_default w base domain conventional_file d =
    or_default (wired_target w base domain conventional_file d)
      (contained_path w.os base conventional_file)

-- `require_wired_target`, whose message is left out.
unfoldable pub or_bad_request : Wired FilePath → Result FilePath
or_bad_request (not_wired e) = err (bad_request (codes "not wired"))
or_bad_request (wired target) = ok target

unfoldable pub require_wired_target : World → Text → Text → Text → Disk → Result FilePath
unfolding or_bad_request wired_target
require_wired_target w base domain conventional_file d =
    or_bad_request (wired_target w base domain conventional_file d)

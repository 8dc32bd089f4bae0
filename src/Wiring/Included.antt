-- ===== src/Wiring/Included.antt =====
-- The file of a domain (src/companion/wiring.py) is one that Home Assistant reads.
use hactl_companion.Base.{
  ◌≡◌, ◌∙◌, refl, sym, ap, subst, true, Option, none, some, List, [], ◌∷◌, arith, Text, codes,
  eq_text, eq_text_iff, strip, Bool-cases, inl, inr,
}
use hactl_companion.PathGuard.{FilePath, Os}
use hactl_companion.Files.{Disk, eq_path, eq_path_iff}
use hactl_companion.Yaml.{Value, Fields, null, atom, str, tagged, seq, end, field}
use hactl_companion.Yaml
use hactl_companion.RefScan.Load.{World}
use hactl_companion.Wiring.{
  Wired, not_wired, wired, ◌>=>◌, contained_path, configures, domain_keys, load_configuration,
  Includes, include_target, add_key, target_of, collect_includes, is_included, single_target,
  choose_target, target_of_keys, target_in, wired_target,
}

-- One key of the domain includes the file: its value is `!include` of a path that leads to the file and
-- that the path guard accepts.
pub data IsIncludedBy (os : Os) (base domain : Text) (target : FilePath) : Fields → Type 0 where
  here :
      (raw : Text) (key : Yaml.Key) (fields : Fields)
      → configures domain key.text ≡ true
      → contained_path os base (strip raw) ≡ wired target
      → IsIncludedBy os base domain target (field key (tagged (codes "!include") raw) fields)
  there :
      (key : Yaml.Key) (v : Value) (fields : Fields)
      → IsIncludedBy os base domain target fields
      → IsIncludedBy os base domain target (field key v fields)

bind-wired :
    {A B : Type 0} (r : Wired A) (next : A → Wired B) (b : B)
    → (r >=> next) ≡ wired b
    → (a : A) × (r ≡ wired a) × (next a ≡ wired b)
bind-wired (not_wired e) next b h = absurd (cc h)
bind-wired (wired a) next b h = (a, refl, h)

include_target-tag :
    (v : Value) (relative : Text)
    → include_target v ≡ some relative
    → (raw : Text) × (v ≡ tagged (codes "!include") raw) × (relative ≡ strip raw)
unfolding include_target
include_target-tag (tagged tag raw) relative h =
    elim (Bool-cases (eq_text tag (codes "!include"))) [
      | inl e ↦ (
        raw,
        ap (λ t. tagged t raw) ((eq_text_iff tag (codes "!include")).0 e),
        ground (arith, e, h),
      )
      | inr e ↦ absurd (ground (arith, e, h))
    ]
include_target-tag null relative h = absurd (cc h)
include_target-tag (atom t) relative h = absurd (cc h)
include_target-tag (str style t) relative h = absurd (cc h)
include_target-tag (seq items) relative h = absurd (cc h)
include_target-tag (Yaml.map fields) relative h = absurd (cc h)

wired_same : {A : Type 0} {a b : A} → wired a ≡ wired b → a ≡ b
wired_same h = cc h

-- The files after a key that is rejected, and after one that includes a file.
rejected_files :
    (key : Text) (more found : Includes)
    → wired (more.0, key ∷ more.1) ≡ wired found
    → more.0 ≡ found.0
rejected_files key more found h = ap (λ (x : Includes). x.0) (wired_same h)

included_files :
    (key : Text) (p : FilePath) (more found : Includes)
    → wired ((key, p) ∷ more.0, more.1) ≡ wired found
    → (key, p) ∷ more.0 ≡ found.0
included_files key p more found h = ap (λ (x : Includes). x.0) (wired_same h)

add_key-IsIncludedBy :
    (os : Os) (base domain : Text) (target : FilePath) (key : Yaml.Key) (v : Value)
    (fields : Fields) (found : Includes) (o : Option Text)
    → include_target v ≡ o
    → configures domain key.text ≡ true
    → ((more : Includes)
        → collect_includes os base domain fields ≡ wired more
        → is_included target more.0 ≡ true
        → IsIncludedBy os base domain target fields)
    → add_key key.text (target_of os base o) (collect_includes os base domain fields) ≡ wired found
    → is_included target found.0 ≡ true
    → IsIncludedBy os base domain target (field key v fields)
unfolding add_key target_of
add_key-IsIncludedBy os base domain target key v fields found none e c later h m =
    let (more, rest, same) =
      bind-wired (collect_includes os base domain fields)
        (λ (x : Includes). wired (x.0, key.text ∷ x.1)) found h in
    there key v fields (
      later more rest (
        subst (λ files. is_included target files ≡ true)
          (sym (rejected_files key.text more found same)) m))
add_key-IsIncludedBy os base domain target key v fields found (some relative) e c later h m =
    let (p, contained, k) =
      bind-wired (contained_path os base relative)
        (λ p. collect_includes os base domain fields >=> λ (x : Includes).
          wired ((key.text, p) ∷ x.0, x.1))
        found h in
    let (more, rest, same) =
      bind-wired (collect_includes os base domain fields)
        (λ (x : Includes). wired ((key.text, p) ∷ x.0, x.1)) found k in
    let (raw, tag, at) = include_target-tag v relative e in
    let m' : is_included target ((key.text, p) ∷ more.0) ≡ true =
      subst (λ files. is_included target files ≡ true)
        (sym (included_files key.text p more found same)) m in
    elim (Bool-cases (eq_path p target)) [
      | inl hit ↦
          subst (λ u. IsIncludedBy os base domain target (field key u fields)) (sym tag)
            (here raw key fields c (
              ap (contained_path os base) (sym at)
              ∙ (contained ∙ ap wired ((eq_path_iff p target).0 hit))))
      | inr miss ↦
          there key v fields (later more rest (unfold is_included in ground (arith, m', miss)))
    ]

single_is_included :
    (includes : List (Text × FilePath)) (rejected : List Text) (target : FilePath)
    → single_target includes rejected ≡ wired target
    → is_included target includes ≡ true
unfolding single_target is_included
single_is_included [] rejected target h = absurd (cc h)
single_is_included ((key, p) ∷ []) rejected target h =
    let same : p ≡ target = cc h in ground (arith, (eq_path_iff p target).1 same)
single_is_included (i ∷ j ∷ includes) rejected target h = absurd (cc h)

choose_target-is_included :
    (default_target target : FilePath) (includes : Includes)
    → choose_target default_target includes ≡ wired target
    → is_included target includes.0 ≡ true
unfolding choose_target is_included
choose_target-is_included default_target target (includes, rejected) h =
    elim (Bool-cases (is_included default_target includes)) [
      | inl e ↦
          subst (λ p. is_included p includes ≡ true) (wired_same (rw (choose_target, e) at h)) e
      | inr e ↦ single_is_included includes rejected target (rw (choose_target, e) at h)
    ]

collect_includes-IsIncludedBy :
    (os : Os) (base domain : Text) (target : FilePath) (fields : Fields) (found : Includes)
    → collect_includes os base domain fields ≡ wired found
    → is_included target found.0 ≡ true
    → IsIncludedBy os base domain target fields
unfolding collect_includes
collect_includes-IsIncludedBy os base domain target end found h m = absurd (
    unfold is_included in
    cc (subst (λ (x : Includes). is_included target x.0 ≡ true) (sym (wired_same h)) m))
collect_includes-IsIncludedBy os base domain target (field key v fields) found h m =
    elim (Bool-cases (configures domain key.text)) [
      | inl c ↦
          add_key-IsIncludedBy os base domain target key v fields found (include_target v) refl c
            (λ more. collect_includes-IsIncludedBy os base domain target fields more)
            (rw (collect_includes, c) at h) m
      | inr c ↦ there key v fields (
          collect_includes-IsIncludedBy os base domain target fields found
            (rw (collect_includes, c) at h) m)
    ]

target_of_keys-IsIncludedBy :
    (w : World) (base domain conventional_file : Text) (config : Fields) (keys : List Text)
    (target : FilePath)
    → target_of_keys w base domain conventional_file config keys ≡ wired target
    → IsIncludedBy w.os base domain target config
unfolding target_of_keys
target_of_keys-IsIncludedBy w base domain conventional_file config [] target h = absurd (cc h)
target_of_keys-IsIncludedBy w base domain conventional_file config (key ∷ keys) target h =
    let (default_target, contained, k) =
      bind-wired (contained_path w.os base conventional_file)
        (λ p. collect_includes w.os base domain config >=> λ includes. choose_target p includes)
        target h in
    let (found, collected, chosen) =
      bind-wired (collect_includes w.os base domain config)
        (λ includes. choose_target default_target includes) target k in
    collect_includes-IsIncludedBy w.os base domain target config found collected
      (choose_target-is_included default_target target found chosen)

-- A file that `wired_target` gives is one that the configuration reads for the domain: in the mapping of
-- configuration.yaml there is a key of the domain, bare or with a label, whose value is `!include` of a
-- path that leads to that file, inside the configuration directory and not denied. A domain without
-- such a key is refused.
pub wired_target-IsIncludedBy :
    (w : World) (base domain conventional_file : Text) (d : Disk) (target : FilePath)
    → wired_target w base domain conventional_file d ≡ wired target
    → (config : Fields) × (load_configuration w base d ≡ wired config)
      × IsIncludedBy w.os base domain target config
unfolding wired_target target_in
wired_target-IsIncludedBy w base domain conventional_file d target h =
    let (config, e, k) =
      bind-wired (load_configuration w base d) (target_in w base domain conventional_file) target
        h in
    (
      config,
      e,
      target_of_keys-IsIncludedBy w base domain conventional_file config (domain_keys domain config)
          target k,
    )

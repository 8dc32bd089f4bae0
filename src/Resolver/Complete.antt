-- ===== src/Resolver/Complete.antt =====
-- Every include is resolved, or the resolution (src/companion/yaml_resolver.py) answers nothing.
use hactl_companion.Base.{
  ℕ, zero, suc, ◌+◌, ◌≡◌, ◌∙◌, refl, sym, ap, Bool, true, false, Option, none, some, List, [], ◌∷◌,
  arith, Text, length, Bool-cases, not, ◌&&◌, ◌||◌, mem_text, inl, inr, eq_text, if◌then◌else◌,
}
use hactl_companion.PathGuard.{FilePath, render, name, is_denied}
use hactl_companion.Files.{Disk, read, paths}
use hactl_companion.Backups.{parent}
use hactl_companion.Yaml.{Value, Items, Fields, null, atom, str, tagged, seq, nil, cons, end, field}
use hactl_companion.Yaml
use hactl_companion.RefScan.Includes.{include_tags, claims_to_include}
use hactl_companion.RefScan.Load.{
  LoadEnd, loaded, file_not_found, permission_error, circular_include, value_error, other_error,
  check_path, World,
}
use hactl_companion.Resolver.{
  include_not_found, Resolution, stopped, resolved, ◌>>>◌, check, DirectoryTag, accumulate,
  collected, TagKind, include_one, include_dir, unsupported, preserved, tag_kind, is_file_there,
  check_include, files_in, resolve_each, include_directory, include_file, resolve_kind, resolve_tag,
  walk_and_resolve, walk_items, walk_fields, resolve_loaded, resolve_includes, resolve_checked,
  resolve_file, load_resolved, preserved_tag, append, put, update, merge_items, merge_fields, stem,
  dir_named, dir_list, dir_merge_list, dir_merge_named,
}

-- Whether no include is left in a tree.
abbrev pub is_include : Text → Bool
is_include tag = mem_text tag include_tags || claims_to_include tag

unfoldable mutual
  pub no_includes : Value → Bool
  no_includes (tagged tag value) = not (is_include tag)
  no_includes (seq items) = no_includes_items items
  no_includes (Yaml.map fields) = no_includes_fields fields
  no_includes v = true

  pub no_includes_items : Items → Bool
  no_includes_items nil = true
  no_includes_items (cons item items) = no_includes item && no_includes_items items

  pub no_includes_fields : Fields → Bool
  no_includes_fields end = true
  no_includes_fields (field k v fields) = no_includes v && no_includes_fields fields

-- What a resolution gives has the property, if it gives anything.
abbrev pub gives : {A : Type 0} → (A → Bool) → Resolution A → Bool
gives p (stopped e) = true
gives p (resolved a) = p a

bind-gives :
    {A B : Type 0} (p : A → Bool) (q : B → Bool) (r : Resolution A) (next : A → Resolution B)
    → gives p r ≡ true
    → ((a : A) → p a ≡ true → gives q (next a) ≡ true)
    → gives q (r >>> next) ≡ true
bind-gives p q (stopped e) next h later = refl
bind-gives p q (resolved a) next h later = later a h

-- Where nothing is asked of the first result.
bind-gives_any :
    {A B : Type 0} (q : B → Bool) (r : Resolution A) (next : A → Resolution B)
    → ((a : A) → gives q (next a) ≡ true)
    → gives q (r >>> next) ≡ true
bind-gives_any q (stopped e) next later = refl
bind-gives_any q (resolved a) next later = later a

and-true : (a b : Bool) → (a && b) ≡ true → (a ≡ true) × (b ≡ true)
and-true true true h = (refl, refl)
and-true true false h = absurd (cc h)
and-true false b h = absurd (cc h)

true-and : (a b : Bool) → a ≡ true → b ≡ true → (a && b) ≡ true
true-and a b h k = cc (h, k)

append-no_includes :
    (items more : Items)
    → no_includes_items items ≡ true
    → no_includes_items more ≡ true
    → no_includes_items (append items more) ≡ true
unfolding append no_includes
append-no_includes nil more h k = k
append-no_includes (cons v items) more h k = ground (arith, h, append-no_includes items more, k)

put-no_includes :
    (t : Text) (v : Value) (fields : Fields)
    → no_includes v ≡ true
    → no_includes_fields fields ≡ true
    → no_includes_fields (put t v fields) ≡ true
unfolding put no_includes
put-no_includes t v end h k = ground (arith, h)
put-no_includes t v (field j u fields) h k =
    let (here, rest) = and-true (no_includes u) (no_includes_fields fields) k in
    elim (Bool-cases (eq_text j.text t)) [
      | inl e ↦ rw e (true-and (no_includes v) (no_includes_fields fields) h rest)
      | inr e ↦ rw e (
          true-and (no_includes u) (no_includes_fields (put t v fields)) here
            (put-no_includes t v fields h rest))
    ]

update-no_includes :
    (result fields : Fields)
    → no_includes_fields result ≡ true
    → no_includes_fields fields ≡ true
    → no_includes_fields (update result fields) ≡ true
unfolding update no_includes
update-no_includes result end h k = h
update-no_includes result (field j u fields) h k =
    update-no_includes (put j.text u result) fields
      (put-no_includes j.text u result (ground (arith, k)) h) (ground (arith, k))

merge_items-no_includes :
    (items : Items) (v : Value)
    → no_includes_items items ≡ true
    → no_includes v ≡ true
    → no_includes_items (merge_items items v) ≡ true
unfolding merge_items no_includes
merge_items-no_includes items (seq more) h k = append-no_includes items more h k
merge_items-no_includes items null h k = h
merge_items-no_includes items (atom t) h k = h
merge_items-no_includes items (str style t) h k = h
merge_items-no_includes items (tagged tag t) h k = h
merge_items-no_includes items (Yaml.map fields) h k = h

merge_fields-no_includes :
    (fields : Fields) (v : Value)
    → no_includes_fields fields ≡ true
    → no_includes v ≡ true
    → no_includes_fields (merge_fields fields v) ≡ true
unfolding merge_fields no_includes
merge_fields-no_includes fields (Yaml.map more) h k = update-no_includes fields more h k
merge_fields-no_includes fields null h k = h
merge_fields-no_includes fields (atom t) h k = h
merge_fields-no_includes fields (str style t) h k = h
merge_fields-no_includes fields (tagged tag t) h k = h
merge_fields-no_includes fields (seq items) h k = h

abbrev clean_pair : Items × Fields → Bool
clean_pair (items, fields) = no_includes_items items && no_includes_fields fields

accumulate-no_includes :
    (tag : DirectoryTag) (f : FilePath) (v : Value) (result : Items × Fields)
    → no_includes v ≡ true
    → clean_pair result ≡ true
    → clean_pair (accumulate tag f v result) ≡ true
unfolding accumulate
accumulate-no_includes dir_named f v (items, fields) h k =
    ground (arith, k, put-no_includes (stem f) v fields h)
accumulate-no_includes dir_list f v (items, fields) h k = ground (
  arith,
  k,
  append-no_includes items (cons v nil) (ground (arith, k))
      (unfold no_includes in ground (arith, h)),
)
accumulate-no_includes dir_merge_list f v (items, fields) h k =
    let (here, rest) = and-true (no_includes_items items) (no_includes_fields fields) k in
    true-and (no_includes_items (merge_items items v)) (no_includes_fields fields)
      (merge_items-no_includes items v here h) rest
accumulate-no_includes dir_merge_named f v (items, fields) h k =
    let (here, rest) = and-true (no_includes_items items) (no_includes_fields fields) k in
    true-and (no_includes_items items) (no_includes_fields (merge_fields fields v)) here
      (merge_fields-no_includes fields v rest h)

collected-no_includes :
    (tag : DirectoryTag) (result : Items × Fields)
    → clean_pair result ≡ true
    → no_includes (collected tag result) ≡ true
unfolding collected no_includes
collected-no_includes dir_named (items, fields) h = ground (arith, h)
collected-no_includes dir_list (items, fields) h = ground (arith, h)
collected-no_includes dir_merge_list (items, fields) h = ground (arith, h)
collected-no_includes dir_merge_named (items, fields) h = ground (arith, h)

preserved-no_includes : (tag : Text) → tag_kind tag ≡ preserved → is_include tag ≡ false
unfolding tag_kind mem_text
preserved-no_includes tag h = ground (arith, h)

module _ (w : World) (base : FilePath) (d : Disk) where
  module _ (resolve : FilePath → Resolution Value)
      (deeper : (p : FilePath) → gives no_includes (resolve p) ≡ true) where
    resolve_each-no_includes :
        (tag : DirectoryTag) (files : List FilePath) (result : Items × Fields)
        → clean_pair result ≡ true
        → gives clean_pair (resolve_each w base d resolve tag files result) ≡ true
    unfolding resolve_each
    resolve_each-no_includes tag [] result h = h
    resolve_each-no_includes tag (f ∷ files) result h = elim (Bool-cases (is_denied (name f))) [
      | inl e ↦ rw e (resolve_each-no_includes tag files result h)
      | inr e ↦ rw e (
          bind-gives no_includes clean_pair (resolve f)
            (λ content. resolve_each w base d resolve tag files (accumulate tag f content result))
            (deeper f)
            (λ content k.
              resolve_each-no_includes tag files (accumulate tag f content result)
                (accumulate-no_includes tag f content result k h)))
    ]

    include_directory-no_includes :
        (kind : DirectoryTag) (dir : FilePath)
        → gives no_includes (include_directory w base d resolve kind dir) ≡ true
    unfolding include_directory
    include_directory-no_includes kind dir =
        bind-gives_any no_includes (files_in w base d dir (w.listing dir))
          (λ files. resolve_each w base d resolve kind files (nil, end) >>> λ result.
            resolved (collected kind result))
          (λ files.
            bind-gives clean_pair no_includes (resolve_each w base d resolve kind files (nil, end))
              (λ result. resolved (collected kind result))
              (resolve_each-no_includes kind files (nil, end) (unfold no_includes in refl))
              (λ result. collected-no_includes kind result))

    resolve_kind-no_includes :
        (kind : TagKind) (tag value : Text) (context : FilePath)
        → tag_kind tag ≡ kind
        → gives no_includes (resolve_kind w base d resolve kind tag value context) ≡ true
    unfolding resolve_kind include_file preserved_tag no_includes
    resolve_kind-no_includes include_one tag value context e =
        bind-gives_any no_includes (check_include w base d context value)
          (include_file w base d resolve) (λ p. ground (arith, deeper p))
    resolve_kind-no_includes (include_dir kind) tag value context e =
        bind-gives_any no_includes (check_include w base d context value)
          (include_directory w base d resolve kind) (λ dir. include_directory-no_includes kind dir)
    resolve_kind-no_includes unsupported tag value context e = refl
    resolve_kind-no_includes preserved tag value context e = rw (preserved-no_includes tag e) refl

    mutual
      unfolding walk_and_resolve resolve_tag no_includes

      walk-no_includes :
          (context : FilePath) (v : Value)
          → gives no_includes (walk_and_resolve w base d resolve context v) ≡ true
      walk-no_includes context null = refl
      walk-no_includes context (atom t) = refl
      walk-no_includes context (str style t) = refl
      walk-no_includes context (tagged tag value) =
          resolve_kind-no_includes (tag_kind tag) tag value context refl
      walk-no_includes context (seq items) =
          bind-gives no_includes_items no_includes (walk_items w base d resolve context items)
            (λ items'. resolved (seq items')) (walk_items-no_includes context items) (λ items' h. h)
      walk-no_includes context (Yaml.map fields) =
          bind-gives no_includes_fields no_includes (walk_fields w base d resolve context fields)
            (λ fields'. resolved (Yaml.map fields')) (walk_fields-no_includes context fields)
            (λ fields' h. h)

      walk_items-no_includes :
          (context : FilePath) (items : Items)
          → gives no_includes_items (walk_items w base d resolve context items) ≡ true
      walk_items-no_includes context nil = refl
      walk_items-no_includes context (cons item items) =
          bind-gives no_includes no_includes_items (walk_and_resolve w base d resolve context item)
            (λ item'.
              walk_items w base d resolve context items >>> λ items'. resolved (cons item' items'))
            (walk-no_includes context item)
            (λ item' h.
              bind-gives no_includes_items no_includes_items
                (walk_items w base d resolve context items) (λ items'. resolved (cons item' items'))
                (walk_items-no_includes context items)
                (λ items' k. true-and (no_includes item') (no_includes_items items') h k))

      walk_fields-no_includes :
          (context : FilePath) (fields : Fields)
          → gives no_includes_fields (walk_fields w base d resolve context fields) ≡ true
      walk_fields-no_includes context end = refl
      walk_fields-no_includes context (field k v fields) =
          bind-gives no_includes no_includes_fields (walk_and_resolve w base d resolve context v)
            (λ v'. walk_fields w base d resolve context fields >>> λ fields'.
              resolved (field k v' fields'))
            (walk-no_includes context v)
            (λ v' h.
              bind-gives no_includes_fields no_includes_fields
                (walk_fields w base d resolve context fields)
                (λ fields'. resolved (field k v' fields')) (walk_fields-no_includes context fields)
                (λ fields' m. true-and (no_includes v') (no_includes_fields fields') h m))

    resolve_loaded-no_includes :
        (context : FilePath) (l : LoadEnd)
        → gives no_includes (resolve_loaded w base d resolve context l) ≡ true
    unfolding resolve_loaded
    resolve_loaded-no_includes context (loaded v) = walk-no_includes context v
    resolve_loaded-no_includes context file_not_found = refl
    resolve_loaded-no_includes context permission_error = refl
    resolve_loaded-no_includes context circular_include = refl
    resolve_loaded-no_includes context value_error = refl
    resolve_loaded-no_includes context (other_error m) = refl

    resolve_includes-no_includes :
        (context : FilePath) (content : Option Text)
        → gives no_includes (resolve_includes w base d resolve context content) ≡ true
    unfolding resolve_includes no_includes
    resolve_includes-no_includes context none = refl
    resolve_includes-no_includes context (some content) =
        ground (arith, resolve_loaded-no_includes context (w.parse content))

  resolve_file-no_includes :
      (fuel : ℕ) (visiting : List FilePath) (p : FilePath)
      → gives no_includes (resolve_file w base d fuel visiting p) ≡ true
  unfolding resolve_file resolve_checked
  resolve_file-no_includes zero visiting p = refl
  resolve_file-no_includes (suc fuel) visiting p =
      bind-gives_any no_includes (check (check_path w.os base (render p)))
        (resolve_checked w base d (resolve_file w base d fuel) visiting)
        (λ q. ground (
          arith,
          resolve_includes-no_includes (resolve_file w base d fuel (q ∷ visiting))
              (λ r. resolve_file-no_includes fuel (q ∷ visiting) r) (parent q) (read q d),
        ))

  -- A resolved tree has no include left in it, of any of the five tags or of a tag that claims to be one,
  -- at any depth and through every chain of files: an include is resolved or nothing is answered.
  pub load_resolved-no_includes :
      (rel : Text) (v : Value) → load_resolved w base d rel ≡ resolved v → no_includes v ≡ true
  unfolding load_resolved
  load_resolved-no_includes rel v h =
      let clean =
        bind-gives_any no_includes (check (check_path w.os base rel))
          (λ target.
            let content = resolve_file w base d (2 + length (paths d)) [] target in
            if is_file_there w base d target then content else stopped include_not_found)
          (λ target. ground (arith, resolve_file-no_includes (2 + length (paths d)) [] target)) in
      sym (ap (gives no_includes) h) ∙ clean

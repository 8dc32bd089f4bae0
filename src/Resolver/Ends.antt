-- ===== src/Resolver/Ends.antt =====
-- The resolution of includes (src/companion/yaml_resolver.py) ends: a chain of includes visits each
-- file of the volume at most once.
use hactl_companion.Base.{
  ℕ, zero, suc, ◌+◌, ◌<◌, ◌≡◌, ◌≢◌, ◌∙◌, refl, sym, ap, Bool, true, false, Option, none, some, List,
  [], ◌∷◌, arith, Text, length, Bool-cases, Option-cases, inl, inr, strip, if◌then◌else◌,
}
use hactl_companion.Http.{Result, ok, err}
use hactl_companion.PathGuard.{FilePath, render, name, is_denied}
use hactl_companion.Files.{Disk, read, paths}
use hactl_companion.Backups.{parent}
use hactl_companion.Yaml.{Value, Items, Fields, null, atom, str, tagged, seq, nil, cons, end, field}
use hactl_companion.Yaml
use hactl_companion.RefScan.Walk.{seen_in}
use hactl_companion.RefScan.Walk.Terminates.{room, room_start, room_taken}
use hactl_companion.RefScan.Ends.{is_file-listed}
use hactl_companion.RefScan.Includes.{Directory, include_dir_files}
use hactl_companion.RefScan.Load.{
  LoadEnd, loaded, file_not_found, permission_error, circular_include, value_error, other_error,
  Checked, checked, traversal, denied, check_path, World, is_file,
}
use hactl_companion.Resolver.{
  ResolveError, include_not_found, path_traversal, out_of_fuel, Resolution, stopped, resolved,
  ◌>>>◌, check, DirectoryTag, accumulate, collected, TagKind, include_one, include_dir, unsupported,
  preserved, tag_kind, is_file_there, check_include, files_in, resolve_each, include_directory,
  include_file, resolve_kind, resolve_tag, walk_and_resolve, walk_items, walk_fields,
  resolve_loaded, resolve_includes, resolve_checked, resolve_file, load_resolved,
}

-- Whether a resolution came to an end of its own.
abbrev pub is_of_code : ResolveError → Bool
is_of_code out_of_fuel = false
is_of_code e = true

abbrev pub is_over : {A : Type 0} → Resolution A → Bool
is_over (stopped e) = is_of_code e
is_over (resolved a) = true

bind-is_over :
    {A B : Type 0} (r : Resolution A) (next : A → Resolution B)
    → is_over r ≡ true
    → ((a : A) → is_over (next a) ≡ true)
    → is_over (r >>> next) ≡ true
bind-is_over (stopped e) next h later = h
bind-is_over (resolved a) next h later = later a

check-is_over : (c : Checked) → is_over (check c) ≡ true
unfolding check
check-is_over traversal = refl
check-is_over denied = refl
check-is_over (checked p) = refl

module _ (w : World) (base : FilePath) (d : Disk) where
  files_in-is_over :
      (dir : FilePath) (o : Option Directory) → is_over (files_in w base d dir o) ≡ true
  unfolding files_in
  files_in-is_over dir none = refl
  files_in-is_over dir (some tree) = listed (include_dir_files w.os w.listing dir base)
    where
      listed :
          (r : Result (List FilePath))
          → is_over (elim r [ err e ↦ stopped path_traversal | ok files ↦ resolved files ]) ≡ true
      listed (err e) = refl
      listed (ok files) = refl

  module _ (resolve : FilePath → Resolution Value)
      (deeper : (p : FilePath) → is_over (resolve p) ≡ true) where
    resolve_each-is_over :
        (tag : DirectoryTag) (files : List FilePath) (result : Items × Fields)
        → is_over (resolve_each w base d resolve tag files result) ≡ true
    unfolding resolve_each
    resolve_each-is_over tag [] result = refl
    resolve_each-is_over tag (f ∷ files) result = elim (Bool-cases (is_denied (name f))) [
      | inl e ↦ rw e (resolve_each-is_over tag files result)
      | inr e ↦ rw e (
          bind-is_over (resolve f)
            (λ content. resolve_each w base d resolve tag files (accumulate tag f content result))
            (deeper f)
            (λ content. resolve_each-is_over tag files (accumulate tag f content result)))
    ]

    resolve_kind-is_over :
        (kind : TagKind) (tag value : Text) (context : FilePath)
        → is_over (resolve_kind w base d resolve kind tag value context) ≡ true
    unfolding resolve_kind check_include include_file include_directory
    resolve_kind-is_over include_one tag value context =
        bind-is_over (check_include w base d context value) (include_file w base d resolve)
          (check-is_over (check_path w.os base (render (w.os.realpath_join context (strip value)))))
          (λ p. ground (arith, deeper p))
    resolve_kind-is_over (include_dir kind) tag value context =
        bind-is_over (check_include w base d context value)
          (include_directory w base d resolve kind)
          (check-is_over (check_path w.os base (render (w.os.realpath_join context (strip value)))))
          (λ dir.
            bind-is_over (files_in w base d dir (w.listing dir))
              (λ files. resolve_each w base d resolve kind files (nil, end) >>> λ result.
                resolved (collected kind result))
              (files_in-is_over dir (w.listing dir))
              (λ files.
                bind-is_over (resolve_each w base d resolve kind files (nil, end))
                  (λ result. resolved (collected kind result))
                  (resolve_each-is_over kind files (nil, end)) (λ result. refl)))
    resolve_kind-is_over unsupported tag value context = refl
    resolve_kind-is_over preserved tag value context = refl

    mutual
      unfolding walk_and_resolve resolve_tag

      walk_and_resolve-is_over :
          (context : FilePath) (v : Value)
          → is_over (walk_and_resolve w base d resolve context v) ≡ true
      walk_and_resolve-is_over context null = refl
      walk_and_resolve-is_over context (atom t) = refl
      walk_and_resolve-is_over context (str style t) = refl
      walk_and_resolve-is_over context (tagged tag value) =
          resolve_kind-is_over (tag_kind tag) tag value context
      walk_and_resolve-is_over context (seq items) =
          bind-is_over (walk_items w base d resolve context items) (λ items'. resolved (seq items'))
            (walk_items-is_over context items) (λ items'. refl)
      walk_and_resolve-is_over context (Yaml.map fields) =
          bind-is_over (walk_fields w base d resolve context fields)
            (λ fields'. resolved (Yaml.map fields')) (walk_fields-is_over context fields)
            (λ fields'. refl)

      walk_items-is_over :
          (context : FilePath) (items : Items)
          → is_over (walk_items w base d resolve context items) ≡ true
      walk_items-is_over context nil = refl
      walk_items-is_over context (cons item items) =
          bind-is_over (walk_and_resolve w base d resolve context item)
            (λ item'.
              walk_items w base d resolve context items >>> λ items'. resolved (cons item' items'))
            (walk_and_resolve-is_over context item)
            (λ item'.
              bind-is_over (walk_items w base d resolve context items)
                (λ items'. resolved (cons item' items')) (walk_items-is_over context items)
                (λ items'. refl))

      walk_fields-is_over :
          (context : FilePath) (fields : Fields)
          → is_over (walk_fields w base d resolve context fields) ≡ true
      walk_fields-is_over context end = refl
      walk_fields-is_over context (field k v fields) =
          bind-is_over (walk_and_resolve w base d resolve context v)
            (λ v'. walk_fields w base d resolve context fields >>> λ fields'.
              resolved (field k v' fields'))
            (walk_and_resolve-is_over context v)
            (λ v'.
              bind-is_over (walk_fields w base d resolve context fields)
                (λ fields'. resolved (field k v' fields')) (walk_fields-is_over context fields)
                (λ fields'. refl))

    resolve_loaded-is_over :
        (context : FilePath) (l : LoadEnd)
        → is_over (resolve_loaded w base d resolve context l) ≡ true
    unfolding resolve_loaded
    resolve_loaded-is_over context (loaded v) = walk_and_resolve-is_over context v
    resolve_loaded-is_over context file_not_found = refl
    resolve_loaded-is_over context permission_error = refl
    resolve_loaded-is_over context circular_include = refl
    resolve_loaded-is_over context value_error = refl
    resolve_loaded-is_over context (other_error m) = refl

    resolve_includes-is_over :
        (context : FilePath) (content : Text)
        → is_over (resolve_includes w base d resolve context (some content)) ≡ true
    unfolding resolve_includes
    resolve_includes-is_over context content =
        ground (arith, resolve_loaded-is_over context (w.parse content))

  resolve_file-is_over :
      (fuel : ℕ) (visiting : List FilePath) (p : FilePath)
      → room 1 visiting (paths d) < fuel
      → is_over (resolve_file w base d fuel visiting p) ≡ true
  unfolding resolve_file
  resolve_file-is_over zero visiting p enough = absurd (omega arith)
  resolve_file-is_over (suc fuel) visiting p enough =
      bind-is_over (check (check_path w.os base (render p)))
        (resolve_checked w base d (resolve_file w base d fuel) visiting)
        (check-is_over (check_path w.os base (render p)))
        (λ q. elim (Bool-cases (seen_in q visiting)) [
          | inl old ↦ unfold resolve_checked in ground (arith, old)
          | inr fresh ↦ elim (Option-cases (read q d)) [
            | inl absent ↦ unfold resolve_checked resolve_includes in ground (arith, fresh, absent)
            | inr (content, there) ↦
                rw (resolve_checked, fresh, there)
                  (resolve_includes-is_over (resolve_file w base d fuel (q ∷ visiting))
                    (λ r. resolve_file-is_over fuel (q ∷ visiting) r (
                      omega
                        (arith, room_taken 1 q visiting (paths d) fresh (listed q content there))))
                    (parent q) content)
          ]
        ])
    where
      listed :
          (q : FilePath) (content : Text) → read q d ≡ some content → seen_in q (paths d) ≡ true
      listed q content there = is_file-listed d q (unfold is_file in ground (arith, there))

  -- The resolution of a file always ends: with a tree or with an exception, on every volume and for
  -- every chain of includes, also a circular one.
  pub load_resolved_ends : (rel : Text) → load_resolved w base d rel ≢ stopped out_of_fuel
  unfolding load_resolved is_file_there
  load_resolved_ends rel h =
      let over =
        bind-is_over (check (check_path w.os base rel))
          (λ target.
            let content = resolve_file w base d (2 + length (paths d)) [] target in
            if is_file_there w base d target then content else stopped include_not_found)
          (check-is_over (check_path w.os base rel))
          (λ target. ground (
            arith,
            resolve_file-is_over (2 + length (paths d)) [] target
                (omega (arith, room_start 1 (paths d))),
          )) in
      cc (sym (ap is_over h) ∙ over)

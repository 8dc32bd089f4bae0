-- ===== src/Automations/Creation.antt =====
-- What an addition of src/companion/routes/automations.py has done once it is answered.
use hactl_companion.Base.{
  ℕ, ◌≡◌, ◌∙◌, refl, sym, ap, Bool, false, Option, none, some, ◌∷◌, arith, Text, codes,
  if◌then◌else◌, Option-cases, Bool-cases, inl, inr,
}
use hactl_companion.Http.{Result, ok, err}
use hactl_companion.PathGuard.{FilePath, Os, IsResolving}
use hactl_companion.Files.{Disk, read}
use hactl_companion.Yaml.{Value, Items, seq, Yaml}
use hactl_companion.Surgical.Splice.{Edit, append}
use hactl_companion.Surgical.Save.{contained, save_entry}
use hactl_companion.Surgical.Save.Safety.{Written, save_entry-Written}
use hactl_companion.Automations.{
  item_field, append_item, same_id, has_id, Loaded, load_automations, parse_body, created,
  post_listed, post_parsed, post_automation,
}
use hactl_companion.Automations.Search.{item_at, has_id-absent}
use hactl_companion.Automations.Writes.{answered-ok, parse_body-ok}

module _ (os : Os) (yaml : Yaml) (base now path : Text) (reloaded : Bool) (d : Disk) (b : Text)
    (bs : FilePath) (law : IsResolving os) (rooted : os.realpath base ≡ b ∷ bs) (target : FilePath)
    (inside : contained os base path ≡ ok target) where
  -- The file holds a text that stands for the list, as `Written` says.
  abbrev pub Holds : Disk → Items → Bool → Type 0
  Holds left items surgical =
      (t : Text) × (read target left ≡ some t) × Written yaml (seq items) surgical t

  post_listed-created :
      (entity : Value → Option Text) (new id : Value) (listed : Result Loaded) (given : Value)
      (e : Option Text) (surgical r : Bool)
      → (post_listed os yaml base now path reloaded entity new id listed d).0
        ≡ ok (created given e surgical r)
      → (items : Items) × (source : Text) × (listed ≡ ok (items, source))
        × (given ≡ id)
        × (has_id id items ≡ false)
        × Holds
            (post_listed os yaml base now path reloaded entity new id listed d).1
            (append_item new items)
            surgical
  unfolding post_listed
  post_listed-created entity new id (err x) given e surgical r h = absurd (ground (arith, h))
  post_listed-created entity new id (ok (items, source)) given e surgical r h =
      elim (Bool-cases (has_id id items)) [
        | inl taken ↦ absurd (ground (arith, taken, h))
        | inr free ↦
            let edit : Edit = record { kind = append; where_at = none } in
            let (c, saved, same, left) =
              answered-ok (λ s. created id (if reloaded then entity id else none) s reloaded)
                (save_entry os yaml base now path (seq (append_item new items)) source edit d)
                (created given e surgical r) (rw free at h) in
            let e' : c ≡ surgical = ground (arith, same) in
            (
              items,
              source,
              refl,
              ground (arith, same),
              free,
              rw (free, left)
                  (save_entry-Written os yaml base now path (seq (append_item new items)) source
                    edit d b bs law rooted target inside surgical (saved ∙ ap ok e')),
            )
      ]

  post_parsed-created :
      (entity : Value → Option Text) (parsed : Result Value) (given : Value) (e : Option Text)
      (surgical r : Bool)
      → (post_parsed os yaml base now path reloaded entity parsed d).0
        ≡ ok (created given e surgical r)
      → (new : Value) × (items : Items) × (source : Text) × (parsed ≡ ok new)
        × (item_field (codes "id") new ≡ some given)
        × (load_automations os yaml base path d ≡ ok (items, source))
        × (has_id given items ≡ false)
        × Holds
            (post_parsed os yaml base now path reloaded entity parsed d).1
            (append_item new items)
            surgical
  unfolding post_parsed
  post_parsed-created entity (err x) given e surgical r h = absurd (ground (arith, h))
  post_parsed-created entity (ok new) given e surgical r h =
      elim (Option-cases (item_field (codes "id") new)) [
        | inl absent ↦ absurd (ground (arith, absent, h))
        | inr (id, there) ↦
            let (items, source, loaded, same, free, held) =
              post_listed-created entity new id (load_automations os yaml base path d) given e
                surgical r (rw (post_parsed, there) at h) in
            (
              new,
              items,
              source,
              refl,
              there ∙ ap some (sym same),
              loaded,
              ap (λ v. has_id v items) same ∙ free,
              rw (post_parsed, there) held,
            )
      ]

  -- A creation that is answered as such came with a mapping that has the id it names, at no index of the
  -- file's list was an item with an equal id before, and the file's text then stands for the list with the new item at its
  -- end. The path is the one that the domain is wired to, inside the base, which is not `/`, and not
  -- denied.
  pub post_automation-created :
      (entity : Value → Option Text) (body : Text) (given : Value) (e : Option Text)
      (surgical r : Bool)
      → (post_automation os yaml base now path reloaded entity body d).0
        ≡ ok (created given e surgical r)
      → (new : Value) × (items : Items) × (source : Text) × (yaml.load body ≡ some new)
        × (item_field (codes "id") new ≡ some given)
        × (load_automations os yaml base path d ≡ ok (items, source))
        × ((j : ℕ) (other : Value) → item_at j items ≡ some other → same_id given other ≡ false)
        × Holds
            (post_automation os yaml base now path reloaded entity body d).1
            (append_item new items)
            surgical
  unfolding post_automation
  post_automation-created entity body given e surgical r h =
      let (new, items, source, parsed, there, loaded, free, held) =
        post_parsed-created entity (parse_body yaml body) given e surgical r h in
      (
        new,
        items,
        source,
        parse_body-ok yaml body new parsed,
        there,
        loaded,
        has_id-absent given items free,
        held,
      )

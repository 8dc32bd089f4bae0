-- ===== src/Automations/Writes.antt =====
-- What a write of src/companion/routes/automations.py has done once it is answered: over the guarantee of
-- `save_entry`, the text of the file is that of the changed list.
use hactl_companion.Base.{
  ℕ, ◌≡◌, ◌∙◌, refl, ap, Bool, true, false, Option, none, some, [], ◌∷◌, arith, Text, codes,
}
use hactl_companion.Http.{Result, ok, err}
use hactl_companion.PathGuard.{FilePath, Os, IsResolving}
use hactl_companion.Files.{Disk, read}
use hactl_companion.Yaml.{Value, Items, seq, map, index, Yaml}
use hactl_companion.Surgical.Splice.{Edit, replace}
use hactl_companion.Surgical.Save.{contained, save_entry}
use hactl_companion.Surgical.Save.Safety.{Written, save_entry-Written}
use hactl_companion.Automations.{
  set_item, Loaded, load_automations, as_mapping, parse_body, AutomationAnswer, applied, answered,
  put_found, put_listed, put_parsed, put_automation,
}
use hactl_companion.Automations.Search.{IsFirst, find_by-IsFirst}

pub answered-ok :
    (answer : Bool → AutomationAnswer) (r : Result Bool × Disk) (a : AutomationAnswer)
    → (answered answer r).0 ≡ ok a
    → (b : Bool) × (r.0 ≡ ok b) × (answer b ≡ a) × ((answered answer r).1 ≡ r.1)
unfolding answered
answered-ok answer (err e, d) a h = absurd (ground (arith, h))
answered-ok answer (ok b, d) a h = (b, refl, ground (arith, h), refl)

as_mapping-ok : (o : Option Value) (new : Value) → as_mapping o ≡ ok new → o ≡ some new
unfolding as_mapping
as_mapping-ok none new h = absurd (ground (arith, h))
as_mapping-ok (some (map fields)) new h = ground (arith, h)
as_mapping-ok (some v) new h = absurd (ground (arith, h))

pub parse_body-ok :
    (yaml : Yaml) (body : Text) (new : Value)
    → parse_body yaml body ≡ ok new
    → yaml.load body ≡ some new
unfolding parse_body
parse_body-ok yaml body new h = as_mapping-ok (yaml.load body) new (ground (arith, h))

module _ (os : Os) (yaml : Yaml) (base now path : Text) (reloaded : Bool) (d : Disk) where
  put_found-applied :
      (dry : Bool) (new : Value) (id source : Text) (items : Items) (found : Option (ℕ × Value))
      (b r : Bool)
      → (put_found os yaml base now path reloaded dry new id (items, source) found d).0
        ≡ ok (applied b r)
      → (i : ℕ) × (item : Value) × (found ≡ some (i, item))
        × ((save_entry os yaml base now path
              (seq (set_item i new items))
              source
              (record { kind = replace; where_at = some (index i) })
              d).0
            ≡ ok b)
        × ((put_found os yaml base now path reloaded dry new id (items, source) found d).1
            ≡ (save_entry os yaml base now path
                (seq (set_item i new items))
                source
                (record { kind = replace; where_at = some (index i) })
                d).1)
  unfolding put_found
  put_found-applied dry new id source items none b r h = absurd (ground (arith, h))
  put_found-applied true new id source items (some (i, item)) b r h = absurd (ground (arith, h))
  put_found-applied false new id source items (some (i, item)) b r h =
      let (c, saved, same, left) =
        answered-ok (λ surgical. applied surgical reloaded)
          (save_entry os yaml base now path (seq (set_item i new items)) source
            (record { kind = replace; where_at = some (index i) }) d)
          (applied b r) h in
      let e : c ≡ b = ground (arith, same) in (i, item, refl, saved ∙ ap ok e, left)

  module _ (b : Text) (bs : FilePath) (law : IsResolving os) (rooted : os.realpath base ≡ b ∷ bs)
      (target : FilePath) (inside : contained os base path ≡ ok target) where
    -- The file holds a text that stands for the list, as `Written` says.
    abbrev pub Holds : Disk → Items → Bool → Type 0
    Holds left items surgical =
        (t : Text) × (read target left ≡ some t) × Written yaml (seq items) surgical t

    put_listed-applied :
        (dry : Bool) (new : Value) (id : Text) (listed : Result Loaded) (surgical r : Bool)
        → (put_listed os yaml base now path reloaded dry new id listed d).0
          ≡ ok (applied surgical r)
        → (items : Items) × (source : Text) × (i : ℕ) × (item : Value) × (listed
            ≡ ok (items, source))
          × IsFirst (codes "id") id items i item
          × Holds
              (put_listed os yaml base now path reloaded dry new id listed d).1
              (set_item i new items)
              surgical
    unfolding put_listed
    put_listed-applied dry new id (err e) surgical r h = absurd (ground (arith, h))
    put_listed-applied dry new id (ok (items, source)) surgical r h =
        let (i, item, found, saved, left) =
          put_found-applied dry new id source items _ surgical r h in
        let edit : Edit = record { kind = replace; where_at = some (index i) } in
        (
          items,
          source,
          i,
          item,
          refl,
          find_by-IsFirst (codes "id") id items i item found,
          rw left (
              save_entry-Written os yaml base now path (seq (set_item i new items)) source edit d b
                bs law rooted target inside surgical saved),
        )

    put_parsed-applied :
        (dry : Bool) (id : Text) (parsed : Result Value) (surgical r : Bool)
        → (put_parsed os yaml base now path reloaded dry id parsed d).0 ≡ ok (applied surgical r)
        → (new : Value) × (items : Items) × (source : Text) × (i : ℕ) × (item : Value) × (parsed
            ≡ ok new)
          × (load_automations os yaml base path d ≡ ok (items, source))
          × IsFirst (codes "id") id items i item
          × Holds
              (put_parsed os yaml base now path reloaded dry id parsed d).1
              (set_item i new items)
              surgical
    unfolding put_parsed
    put_parsed-applied dry id (err e) surgical r h = absurd (ground (arith, h))
    put_parsed-applied dry id (ok new) surgical r h =
        let (items, source, i, item, loaded, first, held) =
          put_listed-applied dry new id (load_automations os yaml base path d) surgical r h in
        (new, items, source, i, item, refl, loaded, first, held)

    -- A replacement that is answered as applied has found the first item of the file with that id, and
    -- the file's text then stands for the list in which that item alone is replaced by what the body
    -- loads to. The path is inside the base, which is not `/`, and not denied.
    pub put_automation-applied :
        (id : Text) (dry : Bool) (body : Text) (surgical r : Bool)
        → (put_automation os yaml base now path reloaded id dry body d).0 ≡ ok (applied surgical r)
        → (new : Value) × (items : Items) × (source : Text) × (i : ℕ) × (item : Value) × (yaml.load
              body
            ≡ some new)
          × (load_automations os yaml base path d ≡ ok (items, source))
          × IsFirst (codes "id") id items i item
          × Holds
              (put_automation os yaml base now path reloaded id dry body d).1
              (set_item i new items)
              surgical
    unfolding put_automation
    put_automation-applied [] dry body surgical r h = absurd (ground (arith, h))
    put_automation-applied (c ∷ id) dry body surgical r h =
        let (new, items, source, i, item, parsed, loaded, first, held) =
          put_parsed-applied dry (c ∷ id) (parse_body yaml body) surgical r h in
        (new, items, source, i, item, parse_body-ok yaml body new parsed, loaded, first, held)

-- ===== src/Automations/Membership.antt =====
-- What a removal of src/companion/routes/automations.py has done once it is answered.
use hactl_companion.Base.{
  ℕ, ◌≡◌, ◌∙◌, refl, ap, Bool, Option, none, some, List, [], ◌∷◌, arith, Text, codes, Option-cases,
  inl, inr, ◌⊎◌,
}
use hactl_companion.Http.{Result, ok, err}
use hactl_companion.PathGuard.{FilePath, Os, IsResolving}
use hactl_companion.Files.{Disk, read}
use hactl_companion.Yaml.{Value, Items, seq, index, Yaml}
use hactl_companion.Surgical.Splice.{Edit, delete}
use hactl_companion.Surgical.Save.{contained, save_entry}
use hactl_companion.Surgical.Save.Safety.{Written, save_entry-Written}
use hactl_companion.Automations.{
  find_by, or_else, find_automation, pop_item, LiveState, Loaded, load_automations, deleted,
  delete_found, find_live, delete_listed, delete_automation,
}
use hactl_companion.Automations.Search.{IsFirst, IsAbsent, find_by-IsFirst, find_by-IsAbsent}
use hactl_companion.Automations.Writes.{answered-ok}
use hactl_companion.Automations.{resolve_via_states}

-- The first item with that id; or no item has that id, and it is the first with that alias.
abbrev pub IsNamed : Text → Items → ℕ → Value → Type 0
IsNamed candidate items i item =
    IsFirst (codes "id") candidate items i item
    ⊎ (IsAbsent (codes "id") candidate items × IsFirst (codes "alias") candidate items i item)

find_automation-IsNamed :
    (items : Items) (candidate : Text) (i : ℕ) (item : Value)
    → find_automation items candidate ≡ some (i, item)
    → IsNamed candidate items i item
unfolding find_automation or_else
find_automation-IsNamed items candidate i item h =
    elim (Option-cases (find_by (codes "id") candidate 0 items)) [
      | inr (found, e) ↦
          inl (find_by-IsFirst (codes "id") candidate items i item (ground (arith, e, h)))
      | inl e ↦ inr (
        find_by-IsAbsent (codes "id") candidate 0 items e,
        find_by-IsFirst (codes "alias") candidate items i item (ground (arith, e, h)),
      )
    ]

find_automation-IsAbsent :
    (items : Items) (candidate : Text)
    → find_automation items candidate ≡ none
    → IsAbsent (codes "id") candidate items × IsAbsent (codes "alias") candidate items
unfolding find_automation or_else
find_automation-IsAbsent items candidate h =
    elim (Option-cases (find_by (codes "id") candidate 0 items)) [
      | inr (found, e) ↦ absurd (ground (arith, e, h))
      | inl e ↦ (
        find_by-IsAbsent (codes "id") candidate 0 items e,
        find_by-IsAbsent (codes "alias") candidate 0 items (ground (arith, e, h)),
      )
    ]

-- The id that the live states give for the identifier names the item.
abbrev pub IsLive : Option (List LiveState) → Text → Items → ℕ → Value → Type 0
IsLive states id items i item =
    (known : List LiveState) × (config_id : Text) × (states ≡ some known)
    × (resolve_via_states id known ≡ some config_id)
    × IsNamed config_id items i item

-- What the deletion looks for: the identifier itself; or no item has it as its id or its alias, and it
-- is the id that the live states give for it.
abbrev pub IsMeant : Option (List LiveState) → Text → Items → ℕ → Value → Type 0
IsMeant states id items i item =
    IsNamed id items i item
    ⊎ (IsAbsent (codes "id") id items
        × IsAbsent (codes "alias") id items
        × IsLive states id items i item)

find_live-IsLive :
    (items : Items) (states : Option (List LiveState)) (id : Text) (i : ℕ) (item : Value)
    → find_live items states id ≡ some (i, item)
    → IsLive states id items i item
unfolding find_live
find_live-IsLive items none id i item h = absurd (ground (arith, h))
find_live-IsLive items (some known) id i item h =
    elim (Option-cases (resolve_via_states id known)) [
      | inl e ↦ absurd (ground (arith, e, h))
      | inr (config_id, e) ↦ (
        known,
        config_id,
        refl,
        e,
        find_automation-IsNamed items config_id i item (ground (arith, e, h)),
      )
    ]

or_else-IsMeant :
    (items : Items) (states : Option (List LiveState)) (id : Text) (i : ℕ) (item : Value)
    → or_else (find_automation items id) (find_live items states id) ≡ some (i, item)
    → IsMeant states id items i item
unfolding or_else
or_else-IsMeant items states id i item h = elim (Option-cases (find_automation items id)) [
  | inl e ↦
      let (no_id, no_alias) = find_automation-IsAbsent items id e in
      inr (no_id, no_alias, find_live-IsLive items states id i item (ground (arith, e, h)))
  | inr (found, e) ↦ inl (find_automation-IsNamed items id i item (ground (arith, e, h)))
]

module _ (os : Os) (yaml : Yaml) (base now path : Text) (reloaded : Bool) (d : Disk) where
  delete_found-deleted :
      (id source : Text) (items : Items) (found : Option (ℕ × Value)) (b r : Bool)
      → (delete_found os yaml base now path reloaded id (items, source) found d).0
        ≡ ok (deleted b r)
      → (i : ℕ) × (item : Value) × (found ≡ some (i, item))
        × ((save_entry os yaml base now path
              (seq (pop_item i items))
              source
              (record { kind = delete; where_at = some (index i) })
              d).0
            ≡ ok b)
        × ((delete_found os yaml base now path reloaded id (items, source) found d).1
            ≡ (save_entry os yaml base now path
                (seq (pop_item i items))
                source
                (record { kind = delete; where_at = some (index i) })
                d).1)
  unfolding delete_found
  delete_found-deleted id source items none b r h = absurd (ground (arith, h))
  delete_found-deleted id source items (some (i, item)) b r h =
      let (c, saved, same, left) =
        answered-ok (λ surgical. deleted surgical reloaded)
          (save_entry os yaml base now path (seq (pop_item i items)) source
            (record { kind = delete; where_at = some (index i) }) d)
          (deleted b r) h in
      let e : c ≡ b = ground (arith, same) in (i, item, refl, saved ∙ ap ok e, left)

  module _ (b : Text) (bs : FilePath) (law : IsResolving os) (rooted : os.realpath base ≡ b ∷ bs)
      (target : FilePath) (inside : contained os base path ≡ ok target) where
    -- The file holds a text that stands for the list, as `Written` says.
    abbrev pub Holds : Disk → Items → Bool → Type 0
    Holds left items surgical =
        (t : Text) × (read target left ≡ some t) × Written yaml (seq items) surgical t

    delete_listed-deleted :
        (states : Option (List LiveState)) (id : Text) (listed : Result Loaded) (surgical r : Bool)
        → (delete_listed os yaml base now path reloaded states id listed d).0
          ≡ ok (deleted surgical r)
        → (items : Items) × (source : Text) × (i : ℕ) × (item : Value) × (listed
            ≡ ok (items, source))
          × IsMeant states id items i item
          × Holds
              (delete_listed os yaml base now path reloaded states id listed d).1
              (pop_item i items)
              surgical
    unfolding delete_listed
    delete_listed-deleted states id (err e) surgical r h = absurd (ground (arith, h))
    delete_listed-deleted states id (ok (items, source)) surgical r h =
        let (i, item, found, saved, left) = delete_found-deleted id source items _ surgical r h in
        let edit : Edit = record { kind = delete; where_at = some (index i) } in
        (
          items,
          source,
          i,
          item,
          refl,
          or_else-IsMeant items states id i item found,
          rw left (
              save_entry-Written os yaml base now path (seq (pop_item i items)) source edit d b bs
                law rooted target inside surgical saved),
        )

    -- A deletion that is answered as such has removed one item, and the file's text then stands for the
    -- list without it: the first item with that id; where no item has it as its id, the first with that
    -- alias; where no item has it as id or alias, the one that is found in the same way by the id that
    -- the live states give for the identifier. The path is inside the
    -- base, which is not `/`, and not denied.
    pub delete_automation-deleted :
        (states : Option (List LiveState)) (id : Text) (surgical r : Bool)
        → (delete_automation os yaml base now path reloaded states id d).0 ≡ ok (deleted surgical r)
        → (items : Items) × (source : Text) × (i : ℕ) × (item : Value) × (load_automations os yaml
              base path d
            ≡ ok (items, source))
          × IsMeant states id items i item
          × Holds
              (delete_automation os yaml base now path reloaded states id d).1
              (pop_item i items)
              surgical
    unfolding delete_automation
    delete_automation-deleted states [] surgical r h = absurd (ground (arith, h))
    delete_automation-deleted states (c ∷ id) surgical r h =
        delete_listed-deleted states (c ∷ id) (load_automations os yaml base path d) surgical r h

-- ===== src/Scripts/Writes.antt =====
-- What the mapping of scripts holds after a change, and what the deletion of
-- src/companion/routes/scripts.py has done once it is answered.
use hactl_companion.Base.{
  ◌≡◌, ◌∙◌, refl, ap, Bool, none, some, [], ◌∷◌, arith, Text, eq_text, eq_text_iff, if◌then◌else◌,
  Option-cases, inl, inr,
}
use hactl_companion.Http.{Result, ok, err}
use hactl_companion.PathGuard.{FilePath, Os, IsResolving}
use hactl_companion.Files.{Disk, read}
use hactl_companion.Yaml.{Key, Value, Fields, end, field, map, key, Yaml}
use hactl_companion.Surgical.Splice.{Edit, delete}
use hactl_companion.Surgical.Save.{contained, save_entry}
use hactl_companion.Surgical.Save.Safety.{Written, save_entry-Written}
use hactl_companion.Automations.{get_field}
use hactl_companion.Scripts.{
  LoadedScripts, load_scripts, set_field, del_field, ScriptAnswer, deleted, script_answered,
  delete_from, delete_script,
}

-- Setting a key gives it the value, and deleting it takes it away, also where the mapping holds it more
-- than once; every other key keeps its value.
pub set_field-del_field :
    (k : Key) (v : Value) (t : Text) (fields : Fields)
    → (get_field t (set_field k v fields)
        ≡ (if eq_text k.text t then some v else get_field t fields))
      × (get_field t (del_field k.text fields)
          ≡ (if eq_text k.text t then none else get_field t fields))
unfolding get_field set_field del_field
set_field-del_field k v t end = (ground arith, ground arith)
set_field-del_field k v t (field j u rest) =
    let (a, b) = set_field-del_field k v t rest in
    (
      ground (arith, a, eq_text_iff j.text k.text, eq_text_iff k.text t, eq_text_iff j.text t),
      ground (arith, b, eq_text_iff j.text k.text, eq_text_iff k.text t, eq_text_iff j.text t),
    )

script_answered-ok :
    (answer : Bool → ScriptAnswer) (r : Result Bool × Disk) (a : ScriptAnswer)
    → (script_answered answer r).0 ≡ ok a
    → (b : Bool) × (r.0 ≡ ok b) × (answer b ≡ a) × ((script_answered answer r).1 ≡ r.1)
unfolding script_answered
script_answered-ok answer (err e, d) a h = absurd (ground (arith, h))
script_answered-ok answer (ok b, d) a h = (b, refl, ground (arith, h), refl)

module _ (os : Os) (yaml : Yaml) (base now path : Text) (reloaded : Bool) (d : Disk) (b : Text)
    (bs : FilePath) (law : IsResolving os) (rooted : os.realpath base ≡ b ∷ bs) (target : FilePath)
    (inside : contained os base path ≡ ok target) where
  -- The file holds a text that stands for the mapping, as `Written` says.
  abbrev pub HoldsMapping : Disk → Fields → Bool → Type 0
  HoldsMapping left fields surgical =
      (t : Text) × (read target left ≡ some t) × Written yaml (map fields) surgical t

  delete_from-deleted :
      (id : Text) (loaded : Result LoadedScripts) (surgical r : Bool)
      → (delete_from os yaml base now path reloaded id loaded d).0 ≡ ok (deleted surgical r)
      → (fields : Fields) × (source : Text) × (old : Value) × (loaded ≡ ok (fields, source))
        × (get_field id fields ≡ some old)
        × HoldsMapping
            (delete_from os yaml base now path reloaded id loaded d).1
            (del_field id fields)
            surgical
  unfolding delete_from
  delete_from-deleted id (err e) surgical r h = absurd (ground (arith, h))
  delete_from-deleted id (ok (fields, source)) surgical r h =
      elim (Option-cases (get_field id fields)) [
        | inl absent ↦ absurd (ground (arith, absent, h))
        | inr (old, there) ↦
            let edit : Edit = record { kind = delete; where_at = some (key id) } in
            let (c, saved, same, left) =
              script_answered-ok (λ s. deleted s reloaded)
                (save_entry os yaml base now path (map (del_field id fields)) source edit d)
                (deleted surgical r) (rw (delete_from, there) at h) in
            let e : c ≡ surgical = ground (arith, same) in
            (
              fields,
              source,
              old,
              refl,
              there,
              rw (delete_from, there, left)
                  (save_entry-Written os yaml base now path (map (del_field id fields)) source edit
                    d b bs law rooted target inside surgical (saved ∙ ap ok e)),
            )
      ]

  -- A deletion that is answered as such found the script, and the file's text then stands for the
  -- mapping without it. The path is inside the base, which is not `/`, and not denied.
  pub delete_script-deleted :
      (id : Text) (surgical r : Bool)
      → (delete_script os yaml base now path reloaded id d).0 ≡ ok (deleted surgical r)
      → (fields : Fields) × (source : Text) × (old : Value) × (load_scripts os yaml base path d
          ≡ ok (fields, source))
        × (get_field id fields ≡ some old)
        × HoldsMapping
            (delete_script os yaml base now path reloaded id d).1
            (del_field id fields)
            surgical
  unfolding delete_script
  delete_script-deleted [] surgical r h = absurd (ground (arith, h))
  delete_script-deleted (c ∷ id) surgical r h =
      delete_from-deleted (c ∷ id) (load_scripts os yaml base path d) surgical r h

-- ===== src/Surgical/Save/Safety.antt =====
-- What `save_entry` of src/companion/surgical.py guarantees on every outcome.
use hactl_companion.Base.{
  ◌≡◌, ◌≢◌, ◌∙◌, refl, subst, Bool, true, false, Option, none, some, ◌∷◌, arith, Text,
}
use hactl_companion.Http.{ok}
use hactl_companion.PathGuard.{
  FilePath, Os, IsResolving, is_within, is_denied_path, confine, name, render,
}
use hactl_companion.PathGuard.Confine.{confine-is_within}
use hactl_companion.Files.{Disk, read, write, eq_path, eq_path_iff, eq_path_refl, read-write}
use hactl_companion.Backups.{back_up, backup_path, is_backup_of, lt_text, max_backups}
use hactl_companion.Backups.Guarantees.{
  back_up_newest, back_up_frame, make_backup-eq, is_backup_of_self, is_backup_of-backup_path,
}
use hactl_companion.Yaml.{Value, Dumped, done, failed, Yaml}
use hactl_companion.Surgical.Splice.{Edit, splice}
use hactl_companion.Surgical.Verify.{verified, ParsesBack, verified-ParsesBack}
use hactl_companion.Surgical.Save.{
  contained, dump_whole, write_file, after_backup, save_target, save_entry,
}

-- The target is inside the base and not denied.
pub record IsContained (os : Os) (base path : Text) (target : FilePath) : Type 0 where
  pub resolved : os.realpath path ≡ target
  pub within : is_within target (os.realpath base) ≡ true
  pub allowed : is_denied_path target (os.realpath base) ≡ false

-- A path that `contained` accepts resolves to a file inside the base that no deny rule covers.
pub contained-IsContained :
    (os : Os) (base path : Text) (target : FilePath)
    → contained os base path ≡ ok target
    → IsContained os base path target
unfolding contained
contained-IsContained os base path target h = ground arith

-- What a successful write can leave in the file: the verified splice, or the whole dump.
pub data Written (yaml : Yaml) (wanted : Value) : Bool → Text → Type 0 where
  surgical : (t : Text) → ParsesBack yaml t wanted → Written yaml wanted true t
  whole : (t : Text) → yaml.dump wanted ≡ done t → Written yaml wanted false t

-- Whatever happens, exactly one file is written.
pub write_file-write :
    (yaml : Yaml) (wanted : Value) (o : Option Text) (target : FilePath) (d : Disk)
    → (t : Text) × ((write_file yaml wanted o target d).1 ≡ write target t d)
unfolding write_file dump_whole
write_file-write yaml wanted (some t) target d = (t, refl)
write_file-write yaml wanted none target d = dumped (yaml.dump wanted)
  where
    dumped : (r : Dumped) → (t : Text) × ((dump_whole r target d).1 ≡ write target t d)
    dumped (done t) = (t, refl)
    dumped (failed t) = (t, refl)

write_file-Written :
    (yaml : Yaml) (wanted : Value) (o : Option Text) (target : FilePath) (d : Disk) (b : Bool)
    → ((t : Text) → o ≡ some t → ParsesBack yaml t wanted)
    → (write_file yaml wanted o target d).0 ≡ ok b
    → (t : Text) × (read target (write_file yaml wanted o target d).1 ≡ some t)
      × Written yaml wanted b t
unfolding write_file dump_whole
write_file-Written yaml wanted (some t) target d false good h = absurd (ground arith)
write_file-Written yaml wanted (some t) target d true good h =
    (t, rw (read-write, eq_path_refl) refl, surgical t (good t refl))
write_file-Written yaml wanted none target d b good h = dumped (yaml.dump wanted) refl b h
  where
    dumped :
        (r : Dumped)
        → yaml.dump wanted ≡ r
        → (b : Bool) → (dump_whole r target d).0 ≡ ok b
        → (t : Text) × (read target (dump_whole r target d).1 ≡ some t) × Written yaml wanted b t
    dumped (done t) e true h = absurd (ground arith)
    dumped (done t) e false h = (t, rw (read-write, eq_path_refl) refl, whole t e)
    dumped (failed t) e b h = absurd (ground arith)

module _ (os : Os) (yaml : Yaml) (base now path : Text) (wanted : Value) (source : Text)
    (edit : Edit) (d : Disk) (b : Text) (bs : FilePath) (law : IsResolving os)
    (rooted : os.realpath base ≡ b ∷ bs) (target : FilePath)
    (inside : contained os base path ≡ ok target) where
  confined_target : confine os base (render target) ≡ some target
  confined_target =
      let c = contained-IsContained os base path target inside in
      let same : os.realpath_join (b ∷ bs) (render target) ≡ target =
        subst (λ t. os.realpath_join (b ∷ bs) (render t) ≡ t) c.resolved
          (law.realpath_join-realpath (b ∷ bs) path) in
      let within : is_within target (b ∷ bs) ≡ true =
        subst (λ r. is_within target r ≡ true) rooted c.within in
      confine-is_within os base (render target) b bs law rooted ∙ rw same (rw within)

  self_differs : (q : FilePath) → is_backup_of target q ≡ true → eq_path target q ≡ false
  self_differs q h = ground (arith, eq_path_iff target q, is_backup_of_self target, h)

  abbrev backed : Disk
  backed = (back_up max_backups now target d).1

  save_entry-eq :
      save_entry os yaml base now path wanted source edit d
      ≡ write_file yaml wanted (verified yaml wanted (splice yaml source wanted edit)) target backed
  unfolding save_entry save_target after_backup
  save_entry-eq = rw inside (rw (make_backup-eq os base max_backups now target d confined_target))

  -- A write that answers has put into the file either a text that loads to a tree equal, as plain
  -- Python values, to the one the route meant to write, and says so by true; or the whole dump of
  -- that tree, and says so by false. The base is not `/`, and the path is inside it and not denied.
  pub save_entry-Written :
      (b : Bool)
      → (save_entry os yaml base now path wanted source edit d).0 ≡ ok b
      → (t : Text) × (read target (save_entry os yaml base now path wanted source edit d).1
          ≡ some t)
        × Written yaml wanted b t
  save_entry-Written flag h = rw save_entry-eq (
      write_file-Written yaml wanted (verified yaml wanted (splice yaml source wanted edit)) target
        backed flag (verified-ParsesBack yaml wanted (splice yaml source wanted edit))
        (rw save_entry-eq at h))

  -- Whatever comes of the write, also where the dump raises midway, the text that the file had before
  -- is in its newest backup, provided that the timestamp is later than that of every earlier one.
  pub save_entry-backup :
      (old : Text)
      → read target d ≡ some old
      → read (backup_path target now) d ≡ none
      → ((q : FilePath)
          → is_backup_of target q ≡ true
          → read q d ≢ none
          → lt_text (name q) (name (backup_path target now)) ≡ true)
      → read (backup_path target now) (save_entry os yaml base now path wanted source edit d).1
        ≡ some old
  save_entry-backup old was fresh older =
      let (t, e) =
        write_file-write yaml wanted (verified yaml wanted (splice yaml source wanted edit)) target
          backed in
      rw save_entry-eq (
        rw (e, read-write)
          (rw (self_differs (backup_path target now) (is_backup_of-backup_path target now))
            (back_up_newest max_backups now target old d was fresh older)))

  -- No file changes but the one addressed and its own backups.
  pub save_entry-frame :
      (q : FilePath)
      → q ≢ target
      → is_backup_of target q ≡ false
      → read q (save_entry os yaml base now path wanted source edit d).1 ≡ read q d
  save_entry-frame q n free =
      let (t, e) =
        write_file-write yaml wanted (verified yaml wanted (splice yaml source wanted edit)) target
          backed in
      rw save_entry-eq (
        rw (e, read-write)
          (ground (arith, eq_path_iff target q, back_up_frame max_backups now target q d free)))

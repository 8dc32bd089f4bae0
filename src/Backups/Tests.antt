-- ===== src/Backups/Tests.antt =====
-- Runs of src/companion/backups.py, and the theorems at a concrete volume.
use hactl_companion.Base.{
  ◌≡◌, ◌≢◌, refl, true, none, some, List, [], ◌∷◌, arith, codes, eq_text, starts_with,
}
use hactl_companion.Base.{Bool-cases, inl, inr, subst, sym}
use hactl_companion.PathGuard.{FilePath, name}
use hactl_companion.Files.{Disk, read, write, unlink, paths, eq_path, eq_path_iff}
use hactl_companion.Backups.{
  parent, backup_dir, is_backup_of, lt_text, insert_path, sort_paths, filter_backups, backups,
  unlink_each, prune_backups, backup_path, back_up,
}
use hactl_companion.Backups.Retention.{mem_path, mem-paths}
use hactl_companion.Backups.Guarantees.{back_up_newest}

abbrev file : FilePath
file = codes "config" ∷ codes "a.yaml" ∷ []

abbrev other : FilePath
other = codes "config" ∷ codes "b.yaml" ∷ []

volume : Disk
unfolding parent backup_dir name
volume =
    (file, codes "new")
    ∷ (backup_path file (codes "2"), codes "two")
    ∷ (other, codes "b")
    ∷ (backup_path file (codes "1"), codes "one")
    ∷ []

-- With two to keep, the oldest of three goes.
pruned :
    (read (backup_path file (codes "1")) (back_up 2 (codes "3") file volume).1 ≡ none)
    × (read (backup_path file (codes "2")) (back_up 2 (codes "3") file volume).1
        ≡ some (codes "two"))
    × ((back_up 2 (codes "3") file volume).0 ≡ some (codes "a.yaml.bak.3"))
unfolding back_up prune_backups unlink_each unlink backups sort_paths insert_path lt_text
    filter_backups is_backup_of paths backup_dir parent name read write eq_path eq_text starts_with
    volume
pruned = (refl, refl, refl)

abbrev Each : (FilePath → Type 0) → List FilePath → Type 0
Each P [] = Unit
Each P (p ∷ ps) = P p × Each P ps

each :
    (P : FilePath → Type 0) (q : FilePath) (ps : List FilePath)
    → Each P ps
    → mem_path q ps ≡ true
    → P q
each P q [] h m = cc
each P q (p ∷ ps) h m = elim (Bool-cases (eq_path q p)) [
  | inl e ↦ subst P (sym ((eq_path_iff q p).0 e)) h.0
  | inr e ↦ each P q ps h.1 (ground (arith, e, m))
]

abbrev IsOlder : FilePath → Type 0
IsOlder q =
    is_backup_of file q ≡ true → lt_text (name q) (name (backup_path file (codes "3"))) ≡ true

older : (q : FilePath) → is_backup_of file q ≡ true → read q volume ≢ none → IsOlder q
older q _ h =
    each IsOlder q (paths volume)
      (unfold volume paths is_backup_of lt_text parent name backup_dir eq_path eq_text
          starts_with in
        (λ b. cc, (λ _. refl, (λ b. cc, (λ _. refl, tt)))))
      (mem-paths q volume h)

back_up_newest_example :
    read (backup_path file (codes "3")) (back_up 1 (codes "3") file volume).1 ≡ some (codes "new")
back_up_newest_example =
    back_up_newest 1 (codes "3") file (codes "new") volume
      (unfold volume read eq_path eq_text in refl)
      (unfold volume read eq_path eq_text backup_dir parent name in refl) (λ q b h. older q b h b)

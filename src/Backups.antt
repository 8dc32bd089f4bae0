-- ===== src/Backups.antt =====
-- src/companion/backups.py: a timestamped copy of a file beside it, with bounded retention.
-- The clock enters as the formatted timestamp; `unlink` of a stale copy does not fail here (the
-- source ignores its failure).
pub mod Retention
pub mod Guarantees
mod Tests
use hactl_companion.Base.{
  ℕ, zero, suc, ◌+◌, ◌-◌, ◌≡◌, Bool, true, false, Option, none, some, List, [], ◌∷◌, ◌++◌, ◌&&◌,
  ◌||◌, Text, codes, starts_with, length, take, drop, ltb, ◌==◌, if◌then◌else◌,
}
use hactl_companion.PathGuard.{FilePath, Os, confine, render, name}
use hactl_companion.Files.{Disk, read, write, unlink, paths, eq_path}
use hactl_companion.Http.{HttpError, uncaught, Result, ok, err}

abbrev pub max_backups : ℕ
max_backups = 10

abbrev pub backup_dirname : Text
backup_dirname = codes ".hactl_backups"

-- `path.parent`.
unfoldable pub parent : FilePath → FilePath
parent [] = []
parent (p ∷ []) = []
parent (p ∷ q ∷ ps) = p ∷ parent (q ∷ ps)

unfoldable pub backup_dir : FilePath → FilePath
unfolding parent
backup_dir path = parent path ++ backup_dirname ∷ []

-- `<name>.bak.`, before the timestamp.
abbrev pub backup_prefix : FilePath → Text
backup_prefix path = name path ++ codes ".bak."

-- What `backup_dir(path).glob("<name>.bak.*")` matches.
unfoldable pub is_backup_of : FilePath → FilePath → Bool
unfolding backup_dir name eq_path starts_with
is_backup_of path q =
    eq_path (parent q) (backup_dir path) && starts_with (name q) (backup_prefix path)

-- The order of `sorted` on texts and on paths.
unfoldable pub lt_text : Text → Text → Bool
lt_text [] [] = false
lt_text [] (b ∷ t) = true
lt_text (a ∷ s) [] = false
lt_text (a ∷ s) (b ∷ t) = ltb a b || ((a == b) && lt_text s t)

unfoldable pub insert_path : FilePath → List FilePath → List FilePath
insert_path p [] = p ∷ []
insert_path p (q ∷ qs) = if lt_text (name q) (name p) then q ∷ insert_path p qs else p ∷ q ∷ qs

-- `sorted(paths)`, where the paths have one parent and so compare by their names.
unfoldable pub sort_paths : List FilePath → List FilePath
unfolding insert_path lt_text name
sort_paths [] = []
sort_paths (p ∷ ps) = insert_path p (sort_paths ps)

unfoldable pub filter_backups : FilePath → List FilePath → List FilePath
filter_backups path [] = []
filter_backups path (q ∷ qs) =
    let rest = filter_backups path qs in if is_backup_of path q then q ∷ rest else rest

-- `sorted(backup_dir(path).glob(...))`.
unfoldable pub backups : FilePath → Disk → List FilePath
backups path d = sort_paths (filter_backups path (paths d))

unfoldable pub unlink_each : List FilePath → Disk → Disk
unlink_each [] d = d
unlink_each (q ∷ qs) d = unlink_each qs (unlink q d)

-- `backups[:-keep]` are the stale ones.
unfoldable pub prune_backups : FilePath → ℕ → Disk → Disk
prune_backups path zero d = d
prune_backups path (suc k) d =
    let found = backups path d in unlink_each (take (length found - suc k) found) d

abbrev pub backup_path : FilePath → Text → FilePath
backup_path path timestamp = backup_dir path ++ (backup_prefix path ++ timestamp) ∷ []

-- The copy of the file at `path`, once `path` is known to lie inside `base`.
unfoldable pub back_up : ℕ → Text → FilePath → Disk → Option Text × Disk
back_up keep timestamp path d = elim (read path d) [
  | none ↦ (none, d)
  | some text ↦ (
    some (backup_prefix path ++ timestamp),
    prune_backups path keep (write (backup_path path timestamp) text d),
  )
]

-- The `ValueError` of `confine` is not caught by any caller.
unfoldable pub make_backup : Os → Text → ℕ → Text → FilePath → Disk → Result (Option Text) × Disk
make_backup os base keep timestamp path d = elim (confine os base (render path)) [
  | none ↦ (err (uncaught (codes "Path traversal not allowed: " ++ render path)), d)
  | some full ↦ let (backup, d') = back_up keep timestamp full d in (ok backup, d')
]

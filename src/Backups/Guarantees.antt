-- ===== src/Backups/Guarantees.antt =====
-- What `make_backup` guarantees (src/companion/backups.py): the copy it has just made stays, older
-- ones are bounded in number, and no other file is touched.
use hactl_companion.Base.{
  ℕ, zero, suc, ◌-◌, ◌≤◌, ◌≡◌, ◌≢◌, ◌∙◌, refl, sym, ap, true, false, none, some, List, [], ◌∷◌,
  ◌++◌, ◌&&◌, ◌||◌, arith, Text, length, take, drop, length-append, Option-cases, inl, inr,
  starts_with-append, take-append-drop,
}
use hactl_companion.PathGuard.{FilePath, name, Os, confine, render}
use hactl_companion.Http.{ok}
use hactl_companion.Files.{Disk, read, write, paths, eq_path, eq_path_iff, eq_path_refl, read-write}
use hactl_companion.Backups.{
  parent, backup_dir, backup_prefix, is_backup_of, lt_text, filter_backups, backups, prune_backups,
  backup_path, back_up, make_backup, backup_dirname,
}
use hactl_companion.Backups.Retention.{
  mem_path, any-append, mem-sort_paths, mem-filter_backups, read-unlink_each, kept, kept_bounds,
  survivor-kept, AllOlder, sort_paths-append, sort_paths-AllOlder, newest-not-stale,
}

name-append : (xs : FilePath) (n : Text) → name (xs ++ n ∷ []) ≡ n
unfolding name
name-append [] n = refl
name-append (x ∷ []) n = refl
name-append (x ∷ y ∷ xs) n = name-append (y ∷ xs) n

parent-append : (xs : FilePath) (n : Text) → parent (xs ++ n ∷ []) ≡ xs
unfolding parent
parent-append [] n = refl
parent-append (x ∷ []) n = refl
parent-append (x ∷ y ∷ xs) n = ap (λ l. x ∷ l) (parent-append (y ∷ xs) n)

pub is_backup_of-backup_path :
    (path : FilePath) (timestamp : Text) → is_backup_of path (backup_path path timestamp) ≡ true
unfolding is_backup_of
is_backup_of-backup_path path timestamp =
    rw
      (
        parent-append (backup_dir path) (backup_prefix path ++ timestamp),
        name-append (backup_dir path) (backup_prefix path ++ timestamp),
        eq_path_refl (backup_dir path),
      )
      (starts_with-append (backup_prefix path) timestamp)

paths-write_new :
    (p : FilePath) (t : Text) (d : Disk) → read p d ≡ none → paths (write p t d) ≡ paths d ++ p ∷ []
unfolding paths write read
paths-write_new p t [] h = refl
paths-write_new p t ((q, u) ∷ d) h = ground (arith, paths-write_new p t d)

mem-paths-read : (q : FilePath) (d : Disk) → mem_path q (paths d) ≡ true → read q d ≢ none
unfolding read paths
mem-paths-read q [] h = cc
mem-paths-read q ((p, t) ∷ d) h =
    ground (arith, eq_path_iff p q, eq_path_iff q p, mem-paths-read q d)

filter_backups-append :
    (path p : FilePath) (xs : List FilePath)
    → is_backup_of path p ≡ true
    → filter_backups path (xs ++ p ∷ []) ≡ filter_backups path xs ++ p ∷ []
unfolding filter_backups
filter_backups-append path p [] h = rw h
filter_backups-append path p (x ∷ xs) h = ground (arith, filter_backups-append path p xs h)

AllOlder-of :
    (p : FilePath) (xs : List FilePath)
    → ((q : FilePath) → mem_path q xs ≡ true → lt_text (name q) (name p) ≡ true)
    → AllOlder p xs
AllOlder-of p [] h = tt
AllOlder-of p (x ∷ xs) h =
    (h x (rw eq_path_refl refl), AllOlder-of p xs (λ q m. h q (ground (arith, m))))

back_up-eq :
    (keep : ℕ) (timestamp : Text) (path : FilePath) (text : Text) (d : Disk)
    → read path d ≡ some text
    → (back_up keep timestamp path d).1
      ≡ prune_backups path keep (write (backup_path path timestamp) text d)
unfolding back_up
back_up-eq keep timestamp path text d h = ground (arith, h)

older_found :
    (path p : FilePath) (d : Disk)
    → ((q : FilePath)
        → is_backup_of path q ≡ true
        → read q d ≢ none
        → lt_text (name q) (name p) ≡ true)
    → AllOlder p (filter_backups path (paths d))
older_found path p d older = AllOlder-of p (filter_backups path (paths d)) λ q m.
    let both : (is_backup_of path q && mem_path q (paths d)) ≡ true =
      sym (mem-filter_backups path q (paths d)) ∙ m in
    older q (ground (arith, both)) (mem-paths-read q d (ground (arith, both)))

backups-write_new :
    (path p : FilePath) (text : Text) (d : Disk)
    → is_backup_of path p ≡ true
    → read p d ≡ none
    → ((q : FilePath)
        → is_backup_of path q ≡ true
        → read q d ≢ none
        → lt_text (name q) (name p) ≡ true)
    → backups path (write p text d) ≡ backups path d ++ p ∷ []
unfolding backups
backups-write_new path p text d b fresh older =
    rw (paths-write_new p text d fresh, filter_backups-append path p (paths d) b)
      (sort_paths-append p (filter_backups path (paths d)) (older_found path p d older))

-- A prune that finds `p` last of all leaves `p` in place.
prune-newest :
    (path p : FilePath) (text : Text) (keep : ℕ) (d : Disk) (olds : List FilePath)
    → AllOlder p olds
    → backups path d ≡ olds ++ p ∷ []
    → read p d ≡ some text
    → read p (prune_backups path keep d) ≡ some text
unfolding prune_backups
prune-newest path p text zero d olds old e r = r
prune-newest path p text (suc k) d olds old e r =
    rw
      (
        e,
        read-unlink_each,
        newest-not-stale p (length (olds ++ p ∷ []) - suc k) olds old
            (omega (arith, length-append olds (p ∷ []))),
      )
      r

prune-frame :
    (path q : FilePath) (keep : ℕ) (d : Disk)
    → is_backup_of path q ≡ false
    → read q (prune_backups path keep d) ≡ read q d
unfolding prune_backups
prune-frame path q zero d h = refl
prune-frame path q (suc k) d h =
    let found = backups path d in
    let n = length found - suc k in
    let unlisted : mem_path q found ≡ false =
      unfold backups in
      mem-sort_paths q (filter_backups path (paths d))
      ∙ (mem-filter_backups path q (paths d) ∙ rw h refl) in
    let parts : mem_path q (take n found ++ drop n found) ≡ false =
      rw (take-append-drop n found) unlisted in
    let apart : (mem_path q (take n found) || mem_path q (drop n found)) ≡ false =
      sym (any-append (eq_path q) (take n found) (drop n found)) ∙ parts in
    read-unlink_each q (take n found) d ∙ ground (arith, apart)

-- Where the timestamp is later than that of every backup the file has, the copy that was just made
-- is still there after the pruning, with the text of the file; for any number of backups to keep.
pub back_up_newest :
    (keep : ℕ) (timestamp : Text) (path : FilePath) (text : Text) (d : Disk)
    → read path d ≡ some text
    → read (backup_path path timestamp) d ≡ none
    → ((q : FilePath)
        → is_backup_of path q ≡ true
        → read q d ≢ none
        → lt_text (name q) (name (backup_path path timestamp)) ≡ true)
    → read (backup_path path timestamp) (back_up keep timestamp path d).1 ≡ some text
back_up_newest keep timestamp path text d h fresh older =
    let p = backup_path path timestamp in
    let b = is_backup_of-backup_path path timestamp in
    rw (back_up-eq keep timestamp path text d h) (
      prune-newest path p text keep (write p text d) (backups path d)
        (unfold backups in
          sort_paths-AllOlder p (filter_backups path (paths d)) (older_found path p d older))
        (backups-write_new path p text d b fresh older)
        (rw (read-write p p text d, eq_path_refl p) refl))

-- A file that is no backup of the one backed up keeps its text.
pub back_up_frame :
    (keep : ℕ) (timestamp : Text) (path q : FilePath) (d : Disk)
    → is_backup_of path q ≡ false
    → read q (back_up keep timestamp path d).1 ≡ read q d
back_up_frame keep timestamp path q d h = elim (Option-cases (read path d)) [
  | inl absent ↦ unfold back_up in ground (arith, absent)
  | inr (text, e) ↦
      let p = backup_path path timestamp in
      rw (back_up-eq keep timestamp path text d e) (
        prune-frame path q keep (write p text d) h
        ∙ (read-write p q text d
            ∙ ground (arith, eq_path_iff p q, is_backup_of-backup_path path timestamp, h)))
]

-- With a positive bound `keep`, the backups of an existing file that are left are all among one list
-- of at most `keep` paths.
pub back_up_bounded :
    (k : ℕ) (timestamp : Text) (path : FilePath) (text : Text) (d : Disk)
    → read path d ≡ some text
    → (left : List FilePath) × (length left ≤ suc k)
      × ((q : FilePath)
          → is_backup_of path q ≡ true
          → read q (back_up (suc k) timestamp path d).1 ≢ none
          → mem_path q left ≡ true)
back_up_bounded k timestamp path text d h =
    let d' = write (backup_path path timestamp) text d in
    rw (back_up-eq (suc k) timestamp path text d h)
      (kept path (suc k) d', kept_bounds path (suc k) d', λ q. survivor-kept path q k d')

-- A file is no backup of itself.
eq_path-append_self : (xs : FilePath) (y : Text) → eq_path xs (xs ++ y ∷ []) ≡ false
unfolding eq_path
eq_path-append_self [] y = refl
eq_path-append_self (x ∷ xs) y = ground (arith, eq_path-append_self xs y)

pub is_backup_of_self : (path : FilePath) → is_backup_of path path ≡ false
unfolding is_backup_of backup_dir
is_backup_of_self path = ground (arith, eq_path-append_self (parent path) backup_dirname)

pub make_backup-eq :
    (os : Os) (base : Text) (keep : ℕ) (timestamp : Text) (path : FilePath) (d : Disk)
    → confine os base (render path) ≡ some path
    → make_backup os base keep timestamp path d
      ≡ (ok (back_up keep timestamp path d).0, (back_up keep timestamp path d).1)
unfolding make_backup
make_backup-eq os base keep timestamp path d h = rw (h, make_backup)

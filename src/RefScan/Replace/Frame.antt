-- ===== src/RefScan/Replace/Frame.antt =====
-- What POST /v1/ref/replace (src/companion/refscan.py) never touches.
use hactl_companion.Base.{
  ℕ, ◌≡◌, ◌≢◌, ◌∙◌, refl, ap, Bool, true, false, Option, none, some, List, [], ◌∷◌, ◌++◌, arith,
  Text, eq_text, eq_text_refl, Bool-cases, Option-cases, inl, inr, ◌⊎◌,
}
use hactl_companion.Http.{HttpError, Result, ok, err}
use hactl_companion.PathGuard.{
  FilePath, IsResolving, confine, is_within, is_denied_path, render, name,
}
use hactl_companion.Files.{Disk, read, read-write, eq_path, eq_path_iff}
use hactl_companion.Backups.{
  make_backup, max_backups, parent, backup_dir, backup_dirname, is_backup_of,
}
use hactl_companion.Backups.Guarantees.{back_up_frame}
use hactl_companion.Yaml.{Value, Yaml}
use hactl_companion.Surgical.Save.Safety.{write_file-write}
use hactl_companion.RefScan.Walk.{SkippedFile}
use hactl_companion.RefScan.Load.{World, Checked, checked, traversal, denied, check_path}
use hactl_companion.RefScan.Load.Guarded.{check_path-checked}
use hactl_companion.RefScan.Replace.{
  FileWrite, save_checked, save_backed_up, write_one, after_write, write_all, reported, apply,
  gather, replace_yaml_literal, Change,
}

name-append : (ps : FilePath) (p : Text) → name (ps ++ p ∷ []) ≡ p
unfolding name
name-append [] p = refl
name-append (q ∷ []) p = refl
name-append (q ∷ r ∷ ps) p = name-append (r ∷ ps) p

-- A file of another directory than `.hactl_backups` is the backup of no file.
no_backup :
    (path q : FilePath)
    → eq_text (name (parent q)) backup_dirname ≡ false
    → is_backup_of path q ≡ false
unfolding is_backup_of backup_dir
no_backup path q h = elim (Bool-cases (eq_path (parent q) (parent path ++ backup_dirname ∷ []))) [
  | inr e ↦ ground (arith, e)
  | inl e ↦
      let same : name (parent q) ≡ backup_dirname =
        ap name ((eq_path_iff (parent q) (parent path ++ backup_dirname ∷ [])).0 e)
        ∙ name-append (parent path) backup_dirname in
      absurd (cc (h, eq_text_refl backup_dirname, ap (λ t. eq_text t backup_dirname) same))
]

after_write-frame :
    (q : FilePath) (d : Disk) (next : Disk → Option HttpError × Disk) (r : Result Bool × Disk)
    → ((d' : Disk) → read q (next d').1 ≡ read q d')
    → read q r.1 ≡ read q d
    → read q (after_write next r).1 ≡ read q d
unfolding after_write
after_write-frame q d next (err e, d') later h = h
after_write-frame q d next (ok made, d') later h = later d' ∙ h

reported-frame :
    (q : FilePath) (changes : List Change) (log : List SkippedFile) (r : Option HttpError × Disk)
    → read q (reported changes log r).1 ≡ read q r.1
unfolding reported
reported-frame q changes log (none, d) = refl
reported-frame q changes log (some e, d) = refl

module _ (w : World) (yaml : Yaml) (b : Text) (bs : FilePath) (law : IsResolving w.os)
    (root : w.os.realpath (render (b ∷ bs)) ≡ b ∷ bs) (q : FilePath)
    (guarded : (is_within q (b ∷ bs) ≡ false) ⊎ (is_denied_path q (b ∷ bs) ≡ true))
    (apart : eq_text (name (parent q)) backup_dirname ≡ false) where
  never_checked : (path : Text) → check_path w.os (b ∷ bs) path ≢ checked q
  never_checked path h =
      let (at, within, allowed) = check_path-checked w.os b bs path q law root h in
      elim guarded [ inl outside ↦ cc (outside, within) | inr shut ↦ cc (shut, allowed) ]

  make_backup-frame :
      (now : Text) (p : FilePath) (d : Disk)
      → read q (make_backup w.os (render (b ∷ bs)) max_backups now p d).1 ≡ read q d
  unfolding make_backup
  make_backup-frame now p d = elim (Option-cases (confine w.os (render (b ∷ bs)) (render p))) [
    | inl e ↦ ground (arith, e)
    | inr (full, e) ↦
        rw (make_backup, e) (back_up_frame max_backups now full q d (no_backup full q apart))
  ]

  save_checked-frame :
      (p : FilePath) (tree : Value) (spliced : Option Text) (c : Checked) (d : Disk)
      → c ≢ checked q
      → read q (save_checked w yaml (b ∷ bs) p tree spliced c d).1 ≡ read q d
  unfolding save_checked
  save_checked-frame p tree spliced traversal d n = refl
  save_checked-frame p tree spliced denied d n = refl
  save_checked-frame p tree spliced (checked target) d n =
      let (t, e) = write_file-write yaml tree spliced target d in
      rw (e, read-write) (ground (arith, eq_path_iff target q, n))

  save_backed_up-frame :
      (p : FilePath) (tree : Value) (spliced : Option Text) (r : Result (Option Text) × Disk)
      → read q (save_backed_up w yaml (b ∷ bs) (p, tree, spliced) r).1 ≡ read q r.1
  unfolding save_backed_up
  save_backed_up-frame p tree spliced (err e, d) = refl
  save_backed_up-frame p tree spliced (ok backup, d) =
      save_checked-frame p tree spliced (check_path w.os (b ∷ bs) (render p)) d
        (never_checked (render p))

  write_all-frame :
      (clock : FilePath → Text) (writes : List FileWrite) (d : Disk)
      → read q (write_all w yaml (b ∷ bs) clock writes d).1 ≡ read q d
  unfolding write_all write_one
  write_all-frame clock [] d = refl
  write_all-frame clock ((p, tree, spliced) ∷ writes) d =
      after_write-frame q d (write_all w yaml (b ∷ bs) clock writes)
        (write_one w yaml (b ∷ bs) clock (p, tree, spliced) d) (write_all-frame clock writes)
        (save_backed_up-frame p tree spliced
            (make_backup w.os (render (b ∷ bs)) max_backups (clock p) p d)
          ∙ make_backup-frame (clock p) p d)

  apply-frame :
      (clock : FilePath → Text) (dry_run : Bool)
      (gathered : Result (List Change × List FileWrite × List SkippedFile)) (d : Disk)
      → read q (apply w yaml (b ∷ bs) clock dry_run gathered d).1 ≡ read q d
  unfolding apply
  apply-frame clock dry_run (err e) d = refl
  apply-frame clock true (ok (changes, writes, log)) d = reported-frame q changes log (none, d)
  apply-frame clock false (ok (changes, writes, log)) d =
      reported-frame q changes log (write_all w yaml (b ∷ bs) clock writes d)
      ∙ write_all-frame clock writes d

  -- A replacement never touches a file that is outside the configuration directory or that the deny
  -- rules cover, whatever the trees, the matches and the exceptions: but for what lies in a directory
  -- of backups. The base directory is resolved, and other than `/`.
  pub replace_yaml_literal-frame :
      (is_word : ℕ → Bool) (target new : Text) (clock : FilePath → Text) (dry_run : Bool) (d : Disk)
      → read q (replace_yaml_literal is_word w yaml (b ∷ bs) target new clock dry_run d).1
        ≡ read q d
  unfolding replace_yaml_literal
  replace_yaml_literal-frame is_word target new clock dry_run d =
      apply-frame clock dry_run (gather is_word w yaml (b ∷ bs) target new d) d

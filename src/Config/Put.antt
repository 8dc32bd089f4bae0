-- ===== src/Config/Put.antt =====
-- What `PUT /v1/config/file` of src/companion/routes/config.py guarantees: a dry run writes nothing, a
-- write that its check refuses or cannot make leaves no trace but a backup, and an accepted one was
-- checked; an exception of the check itself leaves the content in place.
use hactl_companion.Base.{
  ℕ, ◌≡◌, ◌≢◌, ◌∙◌, refl, sym, ap, subst, Bool, true, false, Option, none, some, [], ◌∷◌, ◌++◌,
  arith, Text, is_blank, Option-cases, Bool-cases, inl, inr, ◌⊎◌, if◌then◌else◌,
}
use hactl_companion.Http.{HttpError, Result, ok, err}
use hactl_companion.PathGuard.{
  FilePath, Os, IsResolving, IsCanonical, confine, is_within, is_denied_path, render, name,
}
use hactl_companion.PathGuard.Confine.{confine-is_within}
use hactl_companion.Files.{
  Disk, read, write, eq_path, eq_path_iff, eq_path_refl, read-write, read-unlink,
}
use hactl_companion.Backups.{
  back_up, backup_path, backup_prefix, is_backup_of, lt_text, make_backup, max_backups,
}
use hactl_companion.Backups.Guarantees.{
  back_up_newest, back_up_frame, make_backup-eq, is_backup_of_self, is_backup_of-backup_path,
}
use hactl_companion.Yaml.{Yaml, Value}
use hactl_companion.Config.{
  allowed, resolve_config_path, Check, completed, unreachable, crashed, Outcome, valid, skipped,
  invalid, unavailable_outcome, raised, validate_written_config, restore, rollback, Answer, applied,
  settle, write_checked, put_loaded, put_target, put_config_file, parse_bool_param,
}

allowed-ok :
    (os : Os) (base relative : Text) (found : Option FilePath) (target : FilePath)
    → allowed os base relative found ≡ ok target
    → (found ≡ some target) × (is_denied_path target (os.realpath base) ≡ false)
unfolding allowed
allowed-ok os base relative none target h = absurd (ground arith)
allowed-ok os base relative (some t) target h = (ground arith, ground arith)

resolve-confine :
    (os : Os) (base relative : Text) (target : FilePath)
    → resolve_config_path os base relative ≡ ok target
    → (confine os (render (os.realpath base)) relative ≡ some target)
      × (is_denied_path target (os.realpath base) ≡ false)
unfolding resolve_config_path
resolve-confine os base [] target h = absurd (ground arith)
resolve-confine os base (c ∷ relative) target h = allowed-ok os base (c ∷ relative) _ target h

module _ (os : Os) (base relative : Text) (b : Text) (bs : FilePath) (law : IsResolving os)
    (rooted : os.realpath base ≡ b ∷ bs) (target : FilePath)
    (found : resolve_config_path os base relative ≡ ok target) where
  guarded :
      (if is_within (os.realpath_join (b ∷ bs) relative) (b ∷ bs)
        then some (os.realpath_join (b ∷ bs) relative)
        else none)
      ≡ some target
  guarded =
      sym (
        confine-is_within os (render (os.realpath base)) relative b bs law
          (law.realpath-realpath base ∙ rooted))
      ∙ (resolve-confine os base relative target found).0

  -- A path that the configuration routes accept leads to a file inside the base directory, component
  -- by component, that no deny rule covers; where the base is not `/`.
  pub resolve_config_path-is_within :
      (is_within target (os.realpath base) ≡ true)
      × (is_denied_path target (os.realpath base) ≡ false)
  resolve_config_path-is_within =
      (rw rooted (ground (arith, guarded)), (resolve-confine os base relative target found).1)

  resolved : os.realpath_join (b ∷ bs) relative ≡ target
  resolved = ground (arith, guarded)

  pub confine-target : confine os base (render target) ≡ some target
  confine-target =
      let same : os.realpath_join (b ∷ bs) (render target) ≡ target =
        subst (λ t. os.realpath_join (b ∷ bs) (render t) ≡ t) resolved
          (law.realpath_join-idempotent (b ∷ bs) (b ∷ bs) relative
            (subst IsCanonical rooted (law.realpath-IsCanonical base))) in
      confine-is_within os base (render target) b bs law rooted
      ∙ rw same (rw (subst (λ r. is_within target r ≡ true) rooted resolve_config_path-is_within.0))

back_up_name :
    (keep : ℕ) (now : Text) (target : FilePath) (text : Text) (d : Disk)
    → read target d ≡ some text
    → (back_up keep now target d).0 ≡ some (backup_prefix target ++ now)
unfolding back_up
back_up_name keep now target text d h = ground (arith, h)

back_up_absent :
    (keep : ℕ) (now : Text) (target : FilePath) (d : Disk)
    → read target d ≡ none
    → back_up keep now target d ≡ (none, d)
unfolding back_up
back_up_absent keep now target d h = rw (back_up, h) refl

-- The timestamp is later than that of every earlier backup of the file.
abbrev pub IsLatest : Text → FilePath → Disk → Type 0
IsLatest now target d =
    (read (backup_path target now) d ≡ none)
    × ((q : FilePath)
        → is_backup_of target q ≡ true
        → read q d ≢ none
        → lt_text (name q) (name (backup_path target now)) ≡ true)

-- The volume once the backup is made and the content written.
abbrev written : Text → FilePath → Text → Disk → Disk
written now target content d = write target content (back_up max_backups now target d).1

backup_text :
    (now : Text) (target : FilePath) (content old : Text) (d : Disk)
    → IsLatest now target d
    → read target d ≡ some old
    → read (backup_path target now) (written now target content d) ≡ some old
backup_text now target content old d (fresh, older) was =
    let p = backup_path target now in
    let apart : eq_path target p ≡ false = ground (
      arith,
      eq_path_iff target p,
      is_backup_of_self target,
      is_backup_of-backup_path target now,
    ) in
    rw (read-write, apart) (back_up_newest max_backups now target old d was fresh older)

undone :
    (now : Text) (target : FilePath) (content : Text) (d : Disk) (q : FilePath)
    → IsLatest now target d
    → is_backup_of target q ≡ false
    → read q (rollback target (back_up max_backups now target d).0 (written now target content d))
      ≡ read q d
unfolding rollback restore
undone now target content d q latest free = elim (Option-cases (read target d)) [
  | inl absent ↦
      rw (back_up_absent max_backups now target d absent)
        (rw (read-unlink, read-write) (ground (arith, eq_path_iff target q, absent)))
  | inr (old, was) ↦ rw (back_up_name max_backups now target old d was) (
      rw (backup_text now target content old d latest was) (
        rw (read-write, read-write)
          (ground
            (arith, eq_path_iff target q, was, back_up_frame max_backups now target q d free))))
]

-- Both tests of the check's answer: no answer, or one that refuses.
settle-err :
    (target : FilePath) (backup : Option Text) (d : Disk) (o : Outcome) (e : HttpError)
    → ((message : Text) → o ≢ raised message)
    → (settle target backup d o).0 ≡ err e
    → (settle target backup d o).1 ≡ rollback target backup d
unfolding settle
settle-err target backup d valid e caught h = absurd (ground (arith, h))
settle-err target backup d skipped e caught h = absurd (ground (arith, h))
settle-err target backup d (invalid errors) e caught h = refl
settle-err target backup d (unavailable_outcome why) e caught h = refl
settle-err target backup d (raised message) e caught h = absurd (caught message refl)

validate-caught :
    (token : Bool) (c : Check)
    → ((message : Text) → c ≢ crashed message)
    → (message : Text) → validate_written_config token c ≢ raised message
unfolding validate_written_config
validate-caught false c caught message = cc
validate-caught true (completed true errors) caught message = cc
validate-caught true (completed false errors) caught message = cc
validate-caught true (unreachable why) caught message = cc
validate-caught true (crashed m) caught message = absurd (caught m refl)

abbrev pub IsGated : Bool → (Disk → Check) → Disk → Bool → Type 0
IsGated token check d validated =
    (token ≡ validated) × (token ≡ true → (errors : Text) × (check d ≡ completed true errors))

gate :
    (token : Bool) (check : Disk → Check) (target : FilePath) (backup : Option Text) (d : Disk)
    (validated : Bool) (named : Option Text) (c : Check)
    → check d ≡ c
    → (settle target backup d (validate_written_config token c)).0 ≡ ok (applied validated named)
    → ((settle target backup d (validate_written_config token c)).1 ≡ d)
      × ((named ≡ backup) × IsGated token check d validated)
unfolding settle validate_written_config
gate false check target backup d validated named c e h =
    (refl, (ground (arith, h), (ground (arith, h), λ t. absurd (ground (arith, t)))))
gate true check target backup d validated named (completed true errors) e h =
    (refl, (ground (arith, h), (ground (arith, h), λ t. (errors, e))))
gate true check target backup d validated named (completed false errors) e h =
    absurd (ground (arith, h))
gate true check target backup d validated named (unreachable why) e h = absurd (ground (arith, h))
gate true check target backup d validated named (crashed m) e h = absurd (ground (arith, h))

module _ (os : Os) (yaml : Yaml) (token : Bool) (check : Disk → Check) (base now : Text) where
  -- With `dry_run` set, as it is unless the request says otherwise, no request changes the volume.
  pub put_dry_run :
      (path : Text) (dry : Option Text) (content : Text) (d : Disk)
      → parse_bool_param dry true ≡ true
      → (put_config_file os yaml token check base now path dry content d).1 ≡ d
  unfolding put_config_file put_target put_loaded
  put_dry_run path dry content d h = rw h (untouched (resolve_config_path os base path))
    where
      loaded :
          (target : FilePath) (o : Option Value)
          → (put_loaded os yaml token check base now true content target o d).1 ≡ d
      loaded target none = refl
      loaded target (some value) = refl

      untouched :
          (r : Result FilePath) → (put_target os yaml token check base now true content r d).1 ≡ d
      untouched (err e) = refl
      untouched (ok target) = ground (arith, loaded target (yaml.load content))

  module _ (path : Text) (b : Text) (bs : FilePath) (law : IsResolving os)
      (rooted : os.realpath base ≡ b ∷ bs) (target : FilePath)
      (found : resolve_config_path os base path ≡ ok target) where
    -- What the handler does once the content is accepted.
    checked : Text → Disk → Result Answer × Disk
    checked content d =
        settle target (back_up max_backups now target d).0 (written now target content d)
          (validate_written_config token (check (written now target content d)))

    write_checked-eq :
        (content : Text) (d : Disk)
        → write_checked token check target content (make_backup os base max_backups now target d)
          ≡ checked content d
    unfolding write_checked checked
    write_checked-eq content d =
        rw
          (make_backup-eq os base max_backups now target d
            (confine-target os base path b bs law rooted target found))
          refl

    abbrev Untouched : Disk → Result Answer × Disk → Type 0
    Untouched d r = (r.1 ≡ d) × ((v : Bool) (n : Option Text) → r.0 ≢ ok (applied v n))

    put_loaded-cases :
        (dry : Bool) (content : Text) (o : Option Value) (d : Disk)
        → Untouched d (put_loaded os yaml token check base now dry content target o d)
          ⊎ (put_loaded os yaml token check base now dry content target o d ≡ checked content d)
    unfolding put_loaded
    put_loaded-cases dry content none d = inl (refl, λ v n. cc)
    put_loaded-cases true content (some value) d = inl (refl, λ v n. cc)
    put_loaded-cases false content (some value) d = inr (write_checked-eq content d)

    -- A request for an accepted path ends early, or it is carried out and checked.
    put-cases :
        (dry : Option Text) (content : Text) (d : Disk)
        → Untouched d (put_config_file os yaml token check base now path dry content d)
          ⊎ (put_config_file os yaml token check base now path dry content d ≡ checked content d)
    unfolding put_config_file put_target
    put-cases dry content d = rw found (elim (Bool-cases (is_blank content)) [
      | inl e ↦ rw e (inl (refl, λ v n. cc))
      | inr e ↦ rw e (put_loaded-cases (parse_bool_param dry true) content (yaml.load content) d)
    ])

    answered :
        (content : Text) (d : Disk)
        → ((w : Disk) (message : Text) → read target w ≡ some content → check w ≢ crashed message)
        → (message : Text)
        → validate_written_config token (check (written now target content d)) ≢ raised message
    answered content d caught =
        validate-caught token _
          λ m. caught (written now target content d) m (rw (read-write, eq_path_refl) refl)

    -- A write that is answered with an error leaves every file as it was, the target included, except
    -- that the target may have gained a backup or lost stale ones: also where the check of the new
    -- configuration refuses it, or cannot reach Home Assistant, after the content was written. The
    -- check raises no other exception on a volume in which the target holds the content, the path is
    -- one that is accepted, the base is not `/`, and the timestamp is later than those of the earlier
    -- backups.
    pub put_rolled_back :
        (dry : Option Text) (content : Text) (d : Disk) (e : HttpError) (q : FilePath)
        → IsLatest now target d
        → is_backup_of target q ≡ false
        → ((w : Disk) (message : Text) → read target w ≡ some content → check w ≢ crashed message)
        → (put_config_file os yaml token check base now path dry content d).0 ≡ err e
        → read q (put_config_file os yaml token check base now path dry content d).1 ≡ read q d
    unfolding checked
    put_rolled_back dry content d e q latest free caught h = elim (put-cases dry content d) [
      | inl early ↦ ap (read q) early.0
      | inr late ↦
          rw
            (
              late,
              settle-err target _ _ _ e (answered content d caught) (sym (ap (λ r. r.0) late) ∙ h),
            )
            (undone now target content d q latest free)
    ]

    -- A write that is answered as applied has put exactly the content into the target and keeps the
    -- previous text of the file in the backup that it names, none being named for a new file; it is
    -- reported as validated just where there is a supervisor token, and then Home Assistant has
    -- accepted the volume as it is left. The path is one that is accepted, the base is not `/`, and the
    -- timestamp is later than those of the earlier backups.
    pub put_applied :
        (dry : Option Text) (content : Text) (d : Disk) (validated : Bool) (named : Option Text)
        → IsLatest now target d
        → (put_config_file os yaml token check base now path dry content d).0
          ≡ ok (applied validated named)
        → let left = (put_config_file os yaml token check base now path dry content d).1 in
          (read target left ≡ some content)
          × IsGated token check left validated
          × ((old : Text)
              → read target d ≡ some old
              → (named ≡ some (backup_prefix target ++ now))
                × (read (backup_path target now) left ≡ some old))
          × (read target d ≡ none → named ≡ none)
    unfolding checked
    put_applied dry content d validated named latest h = elim (put-cases dry content d) [
      | inl early ↦ absurd (early.1 validated named h)
      | inr late ↦
          let (same, (name, gated)) =
            gate token check target (back_up max_backups now target d).0
              (written now target content d) validated named _ refl
              (sym (ap (λ r. r.0) late) ∙ h) in
          rw (late, same)
            (
              rw (read-write, eq_path_refl) refl,
              gated,
              λ old was. (
                name ∙ back_up_name max_backups now target old d was,
                backup_text now target content old d latest was,
              ),
              λ absent. name ∙ ap (λ r. r.0) (back_up_absent max_backups now target d absent),
            )
    ]

    -- A request that says `dry_run=false` or the like, with a body that is not blank and parses, is
    -- applied, if Home Assistant accepts every volume in which the target holds the content. The path
    -- is one that is accepted, and the base is not `/`.
    pub put_accepted :
        (dry : Option Text) (content : Text) (value : Value) (d : Disk)
        → parse_bool_param dry true ≡ false
        → is_blank content ≡ false
        → yaml.load content ≡ some value
        → ((w : Disk)
            → read target w ≡ some content
            → (errors : Text) × (check w ≡ completed true errors))
        → (named : Option Text) × ((put_config_file os yaml token check base now path dry content
              d).0
            ≡ ok (applied token named))
    unfolding put_config_file put_target put_loaded checked
    put_accepted dry content value d wet full parses accepts =
        let (errors, e) =
          accepts (written now target content d) (rw (read-write, eq_path_refl) refl) in
        (
          (back_up max_backups now target d).0,
          rw (found, wet, full, parses)
              (rw (write_checked-eq content d) (rw e (accepted target _ _ token errors))),
        )
      where
        accepted :
            (target : FilePath) (backup : Option Text) (w : Disk) (token : Bool) (errors : Text)
            → (settle target backup w (validate_written_config token (completed true errors))).0
              ≡ ok (applied token backup)
        accepted target backup w false errors = unfold settle validate_written_config in refl
        accepted target backup w true errors = unfold settle validate_written_config in refl

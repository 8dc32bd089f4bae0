-- ===== src/Config.antt =====
-- src/companion/params.py and the write route of src/companion/routes/config.py: `PUT /v1/config/file`
-- with its dry run, its backup, its check by Home Assistant and its rollback. The check is a function
-- of the volume that it reads; the text of a diff is left to `difflib` and stands as the two texts.
pub mod Put
pub mod Read
mod Tests
use hactl_companion.Base.{
  ℕ, Bool, true, false, Option, none, some, List, [], ◌∷◌, ◌++◌, not, ◌&&◌, Text, codes, eq_text,
  mem_text, is_blank, strip, lower, if◌then◌else◌,
}
use hactl_companion.Http.{HttpError, bad_request, forbidden, unavailable, uncaught, Result, ok, err}
use hactl_companion.PathGuard.{FilePath, Os, confine, is_denied_path, render}
use hactl_companion.Files.{Disk, read, write, unlink}
use hactl_companion.Backups.{backup_dir, make_backup, max_backups}
use hactl_companion.Yaml.{Yaml, Value}

abbrev pub true_words : List Text
true_words = codes "1" ∷ codes "true" ∷ codes "yes" ∷ codes "on" ∷ []

abbrev pub false_words : List Text
false_words = codes "0" ∷ codes "false" ∷ codes "no" ∷ codes "off" ∷ []

unfoldable pub parse_bool_param : Option Text → Bool → Bool
unfolding mem_text strip lower
parse_bool_param none default = default
parse_bool_param (some raw) default =
    let value = lower (strip raw) in
    if mem_text value true_words
    then true
    else if mem_text value false_words
    then false
    else default

-- The target of a confined path, unless it is denied.
unfoldable pub allowed : Os → Text → Text → Option FilePath → Result FilePath
allowed os base relative none = err (bad_request (codes "Path traversal is not allowed"))
allowed os base relative (some target) =
    if is_denied_path target (os.realpath base)
    then err (forbidden (codes "Access to " ++ (relative ++ codes " is denied")))
    else ok target

unfoldable pub resolve_config_path : Os → Text → Text → Result FilePath
unfolding allowed
resolve_config_path os base [] = err (bad_request (codes "Missing path parameter"))
resolve_config_path os base (c ∷ relative) =
    allowed os base (c ∷ relative) (confine os (render (os.realpath base)) (c ∷ relative))

-- What `core_api.check_config` says, that it raised `CoreAPIUnavailableError`, or that it raised another
-- exception: an answer that is not JSON, or that is no object.
pub data Check : Type 0 where
  completed : Bool → Text → Check
  unreachable crashed : Text → Check

-- The four outcomes of the source, and the exception that goes through.
pub data Outcome : Type 0 where
  valid skipped : Outcome
  invalid unavailable_outcome raised : Text → Outcome

-- `_validate_written_config`: the first argument tells whether SUPERVISOR_TOKEN is set.
pub validate_written_config : Bool → Check → Outcome
validate_written_config false check = skipped
validate_written_config true (completed true errors) = valid
validate_written_config true (completed false errors) = invalid errors
validate_written_config true (unreachable why) = unavailable_outcome why
validate_written_config true (crashed message) = raised message

-- `shutil.copy2(backup_path, target)` if the backup is a file.
pub restore : FilePath → Option Text → Disk → Disk
restore target none d = d
restore target (some text) d = write target text d

-- `backup` is the name that `make_backup` returned; the file existed exactly if there is one.
pub rollback : FilePath → Option Text → Disk → Disk
unfolding restore
rollback target none d = unlink target d
rollback target (some backup) d = restore target (read (backup_dir target ++ backup ∷ []) d) d

pub rollback_note : Option Text → Text
rollback_note none = codes "New file removed."
rollback_note (some backup) = codes "Backup restored."

pub data Answer : Type 0 where
  dry_run : Text → Text → Answer
  applied : Bool → Option Text → Answer

-- Once the new content is written. An exception of the check leaves the handler, and nothing is undone.
pub settle : FilePath → Option Text → Disk → Outcome → Result Answer × Disk
settle target backup d valid = (ok (applied true backup), d)
settle target backup d skipped = (ok (applied false backup), d)
settle target backup d (invalid errors) = (
  err (
      bad_request
        (codes "Config validation failed: " ++ (errors ++ (codes ". " ++ rollback_note backup)))),
  rollback target backup d,
)
settle target backup d (unavailable_outcome why) = (
  err (
      unavailable (
        codes "Config validation could not run: "
        ++ (why ++ (codes ". " ++ rollback_note backup)))),
  rollback target backup d,
)
settle target backup d (raised message) = (err (uncaught message), d)

-- The backup, the write and the check.
pub write_checked :
    Bool → (Disk → Check) → FilePath → Text → Result (Option Text) × Disk → Result Answer × Disk
write_checked token check target content (err e, d) = (err e, d)
write_checked token check target content (ok backup, d) =
    let written = write target content d in
    settle target backup written (validate_written_config token (check written))

pub text_or_empty : Option Text → Text
text_or_empty none = []
text_or_empty (some text) = text

module _ (os : Os) (yaml : Yaml) (token : Bool) (check : Disk → Check) (base now : Text) where
  -- Once the content is loaded, `none` being a parse error, whose own text is left out of the answer.
  pub put_loaded : Bool → Text → FilePath → Option Value → Disk → Result Answer × Disk
  put_loaded dry content target none d = (err (bad_request (codes "Invalid YAML: ")), d)
  put_loaded true content target (some _) d =
      (ok (dry_run (text_or_empty (read target d)) content), d)
  put_loaded false content target (some _) d =
      write_checked token check target content (make_backup os base max_backups now target d)

  pub put_target : Bool → Text → Result FilePath → Disk → Result Answer × Disk
  put_target dry content (err e) d = (err e, d)
  put_target dry content (ok target) d =
      if is_blank content
      then (err (bad_request (codes "Request body must not be empty")), d)
      else put_loaded dry content target (yaml.load content) d

  -- The handler: the `path` and `dry_run` parameters, and the body.
  pub put_config_file : Text → Option Text → Text → Disk → Result Answer × Disk
  put_config_file path dry content d =
      put_target (parse_bool_param dry true) content (resolve_config_path os base path) d

-- ===== src/Surgical/Save.antt =====
-- `contained`, `read_source`, `write_fields` and `save_entry` of src/companion/surgical.py: the guarded
-- write of one entry, with its backup first and the whole-file dump as the fallback.
pub mod Safety
use hactl_companion.Base.{
  ℕ, Bool, true, false, Option, none, some, List, [], ◌∷◌, ◌++◌, not, Text, codes, if◌then◌else◌,
}
use hactl_companion.Http.{HttpError, bad_request, forbidden, uncaught, Result, ok, err, ◌>>=◌}
use hactl_companion.PathGuard.{FilePath, Os, is_within, is_denied_path, name, render}
use hactl_companion.Files.{Disk, read, write}
use hactl_companion.Backups.{make_backup, max_backups}
use hactl_companion.Yaml.{Value, Dumped, done, failed, Yaml}
use hactl_companion.Surgical.Splice.{Edit, splice}
use hactl_companion.Surgical.Verify.{verified}

unfoldable pub contained : Os → Text → Text → Result FilePath
contained os base path =
    let root = os.realpath base in
    let target = os.realpath path in
    if not (is_within target root)
    then err (bad_request (codes "Path traversal is not allowed"))
    else if is_denied_path target root
    then err (forbidden (codes "Access to " ++ (name target ++ codes " is denied")))
    else ok target

-- The text of a file that was opened, or the exception of `open`.
unfoldable pub opened : Option Text → Result Text
opened none = err (uncaught (codes "FileNotFoundError"))
opened (some text) = ok text

unfoldable pub read_source : Os → Text → Text → Disk → Result Text
read_source os base path d = contained os base path >>= λ target. opened (read target d)

-- The fields of the response.
unfoldable pub write_fields : Bool → List (Text × Bool)
write_fields true = []
write_fields false = (codes "reformatted", true) ∷ []

-- `yaml.dump(data, stream)` into the file just opened: what it has written stays when it raises.
unfoldable pub dump_whole : Dumped → FilePath → Disk → Result Bool × Disk
dump_whole (done text) target d = (ok false, write target text d)
dump_whole (failed partial) target d = (err (uncaught (codes "YAMLError")), write target partial d)

unfoldable pub write_file : Yaml → Value → Option Text → FilePath → Disk → Result Bool × Disk
write_file yaml wanted none target d = dump_whole (yaml.dump wanted) target d
write_file yaml wanted (some spliced) target d = (ok true, write target spliced d)

-- The write itself, once the backup is made or has raised.
unfoldable pub after_backup :
    Yaml → Value → Option Text → FilePath → Result (Option Text) × Disk → Result Bool × Disk
after_backup yaml wanted spliced target (err e, d) = (err e, d)
after_backup yaml wanted spliced target (ok backup, d) = write_file yaml wanted spliced target d

unfoldable pub save_target :
    Os → Yaml → Text → Text → Result FilePath → Value → Text → Edit → Disk → Result Bool × Disk
save_target os yaml base now (err e) wanted source edit d = (err e, d)
save_target os yaml base now (ok target) wanted source edit d =
    after_backup yaml wanted (verified yaml wanted (splice yaml source wanted edit)) target
      (make_backup os base max_backups now target d)

unfoldable pub save_entry :
    Os → Yaml → Text → Text → Text → Value → Text → Edit → Disk → Result Bool × Disk
save_entry os yaml base now path wanted source edit d =
    save_target os yaml base now (contained os base path) wanted source edit d

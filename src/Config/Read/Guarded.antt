-- ===== src/Config/Read/Guarded.antt =====
-- What GET /v1/config/file answers (src/companion/routes/config.py).
use hactl_companion.Base.{◌≡◌, Bool, true, false, Text, ◌⊎◌}
use hactl_companion.Files.{Disk}
use hactl_companion.Yaml.{Value, null, done, Yaml}
use hactl_companion.Yaml
use hactl_companion.RefScan.Load.{World}
use hactl_companion.Resolver.{resolved, load_resolved}
use hactl_companion.Resolver.Complete.{no_includes}

pub is_null : Value → Bool
is_null null = true
is_null v = false

-- What the flag asks for: the file's text as it is written, or the dump of the file's own tree with its
-- includes resolved, of which none is left; a document that is empty is answered as it is written.
abbrev pub IsAnswer : World → Yaml → Text → Text → Disk → Bool → Text → Text → Type 0
IsAnswer w yaml base path d false text content = content ≡ text
IsAnswer w yaml base path d true text content =
    (v : Value) × (load_resolved w (w.os.realpath base) d path ≡ resolved v)
    × (no_includes v ≡ true)
    × (((v ≡ null) × (content ≡ text)) ⊎ ((is_null v ≡ false) × (yaml.dump v ≡ done content)))

-- ===== src/RefScan/Ends.antt =====
-- The walks of src/companion/refscan.py over a volume end: all regular files are listed.
use hactl_companion.Base.{ℕ, ◌≡◌, ◌≢◌, Bool, true, Option, [], ◌∷◌, arith, Text}
use hactl_companion.PathGuard.{FilePath}
use hactl_companion.Files.{Disk, read, paths, eq_path_iff}
use hactl_companion.Yaml.{Yaml}
use hactl_companion.RefScan.Walk.{seen_in, walk_config, out_of_fuel}
use hactl_companion.RefScan.Walk.Terminates.{walk_terminates}
use hactl_companion.RefScan.Load.{World, is_file, scan_graph}
use hactl_companion.RefScan.Replace.{replace_graph}

pub is_file-listed : (d : Disk) (p : FilePath) → is_file d p ≡ true → seen_in p (paths d) ≡ true
unfolding is_file read paths
is_file-listed [] p h = absurd (cc h)
is_file-listed ((q, t) ∷ d) p h =
    ground (arith, h, eq_path_iff q p, eq_path_iff p q, is_file-listed d p)

-- Both walks over the configuration, that of the scans and that of the replacement, come to their end
-- or to an exception on every volume, also where files include one another in a circle: the rounds
-- they are given are enough.
pub walks_end :
    (is_word : ℕ → Bool) (w : World) (yaml : Yaml) (base : FilePath) (target new entry : Text)
    (contains : Option Text) (d : Disk)
    → (walk_config (scan_graph w base contains d) (paths d) entry ≢ out_of_fuel)
      × (walk_config (replace_graph is_word w yaml base target new d) (paths d) entry ≢ out_of_fuel)
unfolding scan_graph replace_graph
walks_end is_word w yaml base target new entry contains d = (
  walk_terminates (scan_graph w base contains d) (paths d) entry (is_file-listed d),
  walk_terminates (replace_graph is_word w yaml base target new d) (paths d) entry
      (is_file-listed d),
)

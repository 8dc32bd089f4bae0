-- ===== src/RefScan/Scan/Coverage.antt =====
-- The answer of GET /v1/ref/scan covers the configuration, or it says what it does not cover
-- (src/companion/refscan.py, src/companion/routes/refscan.py).
use hactl_companion.Base.{
  ℕ, ◌≡◌, refl, Bool, true, false, Option, none, some, List, [], ◌∷◌, Text, ◌⊎◌, codes,
  contains_text,
}
use hactl_companion.Http.{Result, ok, err, ◌>>=◌}
use hactl_companion.PathGuard.{FilePath}
use hactl_companion.Files.{Disk, read}
use hactl_companion.RefScan.Walk.{
  SkippedFile, mem_skipped, reason_text, missing, Visit, passed_over, crashed, read_tree, unread,
  WalkState, WalkEnd, done, raised, out_of_fuel, ConfigGraph,
}
use hactl_companion.RefScan.Walk.Found.{AllVisited}
use hactl_companion.RefScan.Load.{escaped_newline}
use hactl_companion.RefScan.Scan.{skipped_fields, sort_by_key, ScanHit, file_hits, all_hits, walked}
use hactl_companion.RefScan.Scan.Hits.{mem-skipped_files, all_in}

-- Whether the answer has a record.
abbrev pub is_reported : SkippedFile → Option (List SkippedFile) → Bool
is_reported r none = false
is_reported r (some log) = mem_skipped r log

pub is_reported-skipped_fields :
    (r : SkippedFile) (log : List SkippedFile)
    → is_reported r (skipped_fields log) ≡ mem_skipped r log
unfolding skipped_fields mem_skipped
is_reported-skipped_fields r [] = refl
is_reported-skipped_fields r (s ∷ log) = mem-skipped_files r (s ∷ log)

-- The text of a file that is passed over holds neither the target nor an include, also not in a
-- folded line, which begins behind an escaped line break.
abbrev pub IsIrrelevant : Text → Option Text → Type 0
IsIrrelevant target o =
    (text : Text) × (o ≡ some text)
    × (contains_text target text ≡ false)
    × (contains_text (codes "!include") text ≡ false)
    × (escaped_newline text ≡ false)

-- What an answer says of a file on a volume, by what its visit gave: all its hits, and every include of
-- it that cannot be followed; or the reason why it was not read; or it is passed over.
abbrev pub Covers :
    (ℕ → Bool)
    → Text
    → ConfigGraph
    → Disk
    → List ScanHit
    → Option (List SkippedFile)
    → FilePath
    → Visit
    → Type 0
Covers is_word target g d hits skipped p passed_over = IsIrrelevant target (read p d)
Covers is_word target g d hits skipped p (unread reason) =
    is_reported (g.location p, reason_text reason) skipped ≡ true
Covers is_word target g d hits skipped p (crashed e) = ⊥
Covers is_word target g d hits skipped p (read_tree tree names lost) =
    (all_in hits (file_hits is_word target (g.location p) tree) ≡ true)
    × ((r : SkippedFile) → mem_skipped r lost ≡ true → is_reported r skipped ≡ true)

pub walked-done :
    {A : Type 0} (next : WalkState → Result A) (e : WalkEnd) (a : A)
    → (walked e >>= next) ≡ ok a
    → (s : WalkState) × (e ≡ done s) × (next s ≡ ok a)
unfolding walked
walked-done next (done s) a h = (s, refl, h)
walked-done next (raised x) a h = absurd (cc h)
walked-done next out_of_fuel a h = absurd (cc h)

module _ (is_word : ℕ → Bool) (target : Text) (g : ConfigGraph) (d : Disk) (s : WalkState)
    (p : FilePath) (all : AllVisited g s.found)
    (passes : g.visit p ≡ passed_over → IsIrrelevant target (read p d)) where
  abbrev hits_of : List ScanHit
  hits_of = sort_by_key (λ (h : ScanHit). (h.location, h.path)) (all_hits is_word target g s.found)

-- What an answer says of a name that the include graph reaches.
abbrev pub Accounted :
    (ℕ → Bool)
    → Text
    → ConfigGraph
    → Disk
    → List ScanHit
    → Option (List SkippedFile)
    → Text
    → Type 0
Accounted is_word target g d hits skipped rel =
    ((g.is_file (g.resolve rel) ≡ false)
      × (is_reported (g.location (g.resolve rel), reason_text missing) skipped ≡ true))
    ⊎ Covers is_word target g d hits skipped (g.resolve rel) (g.visit (g.resolve rel))

pub bind-ok :
    {A B : Type 0} (r : Result A) (next : A → Result B) (b : B)
    → (r >>= next) ≡ ok b
    → (a : A) × (r ≡ ok a) × (next a ≡ ok b)
bind-ok (err e) next b h = absurd (cc h)
bind-ok (ok a) next b h = (a, refl, h)

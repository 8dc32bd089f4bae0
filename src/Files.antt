-- ===== src/Files.antt =====
-- The configuration volume: the regular files and their texts, as the sources read and write them
-- through `pathlib`. Directories are made on demand and are not modelled.
use hactl_companion.Base.{
  ◌≡◌, ◌↔◌, refl, Bool, true, false, Option, none, some, List, [], ◌∷◌, ◌&&◌, arith, Text, eq_text,
  eq_text_iff, if◌then◌else◌,
}
use hactl_companion.PathGuard.{FilePath}

unfoldable pub eq_path : FilePath → FilePath → Bool
eq_path [] [] = true
eq_path [] (q ∷ qs) = false
eq_path (p ∷ ps) [] = false
eq_path (p ∷ ps) (q ∷ qs) = eq_text p q && eq_path ps qs

pub eq_path_iff : (p q : FilePath) → (eq_path p q ≡ true) ↔ (p ≡ q)
unfolding eq_path
eq_path_iff [] [] = (λ _. refl, λ _. refl)
eq_path_iff [] (q ∷ qs) = (λ h. cc, λ h. cc)
eq_path_iff (p ∷ ps) [] = (λ h. cc, λ h. cc)
eq_path_iff (p ∷ ps) (q ∷ qs) = ground (arith, eq_path_iff ps qs, eq_text_iff p q)

pub eq_path_refl : (p : FilePath) → eq_path p p ≡ true
eq_path_refl p = (eq_path_iff p p).1 refl

abbrev pub Disk : Type 0
Disk = List (FilePath × Text)

-- `path.read_text()`; `none` where `path.is_file()` is false.
unfoldable pub read : FilePath → Disk → Option Text
read p [] = none
read p ((q, t) ∷ d) = if eq_path q p then some t else read p d

-- `path.write_text(t)`.
unfoldable pub write : FilePath → Text → Disk → Disk
write p t [] = (p, t) ∷ []
write p t ((q, u) ∷ d) = if eq_path q p then (p, t) ∷ d else (q, u) ∷ write p t d

-- `path.unlink(missing_ok=True)`.
unfoldable pub unlink : FilePath → Disk → Disk
unlink p [] = []
unlink p ((q, u) ∷ d) = let rest = unlink p d in if eq_path q p then rest else (q, u) ∷ rest

-- The paths of all files, as a directory listing finds them.
unfoldable pub paths : Disk → List FilePath
paths [] = []
paths ((q, u) ∷ d) = q ∷ paths d

pub read-write :
    (p q : FilePath) (t : Text) (d : Disk)
    → read q (write p t d) ≡ (if eq_path p q then some t else read q d)
unfolding read write
read-write p q t [] = refl
read-write p q t ((r, u) ∷ d) =
    ground (arith, eq_path_iff p q, eq_path_iff r p, eq_path_iff r q, read-write p q t d)

pub read-unlink :
    (p q : FilePath) (d : Disk) → read q (unlink p d) ≡ (if eq_path p q then none else read q d)
unfolding read unlink
read-unlink p q [] = ground arith
read-unlink p q ((r, u) ∷ d) =
    ground (arith, eq_path_iff p q, eq_path_iff r p, eq_path_iff r q, read-unlink p q d)

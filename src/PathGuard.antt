-- ===== src/PathGuard.antt =====
-- src/companion/pathguard.py. A resolved path is the list of its components below `/`; the text of
-- such a path is what `os.path.realpath` returns. The resolution itself (symbolic links, `..`) is the
-- operating system's, and enters as the record `Os`.
pub mod Confine
pub mod Denied
pub mod Lexical
mod Tests
use hactl_companion.Base.{
  ℕ, ◌≡◌, ◌≢◌, Bool, true, false, Option, none, some, List, [], ◌∷◌, ◌++◌, not, ◌&&◌, ◌||◌, String,
  Text, codes, eq_text, mem_text, starts_with, lower, any, if◌then◌else◌,
}

abbrev pub slash : ℕ
slash = 47

abbrev pub FilePath : Type 0
FilePath = List Text

-- `"/a/b"` for the components `a` and `b`.
unfoldable pub body : FilePath → Text
body [] = []
body (p ∷ ps) = slash ∷ p ++ body ps

-- `str(path)` of a resolved path.
unfoldable pub render : FilePath → Text
unfolding body
render [] = slash ∷ []
render (p ∷ ps) = body (p ∷ ps)

-- No component of a resolved path is empty or holds a separator.
abbrev pub SlashFree : Text → Type 0
SlashFree [] = Unit
SlashFree (c ∷ s) = (c ≢ slash) × SlashFree s

abbrev pub IsCanonical : FilePath → Type 0
IsCanonical [] = Unit
IsCanonical (p ∷ ps) = (p ≢ []) × SlashFree p × IsCanonical ps

-- `os.path.realpath`, and `os.path.join` before it where there is a second path to join.
pub record Os : Type 0 where
  pub realpath : Text → FilePath
  pub realpath_join : FilePath → Text → FilePath

-- What the library documents of them: a canonical absolute path.
pub record IsResolving (os : Os) : Type 0 where
  pub realpath-IsCanonical : (t : Text) → IsCanonical (os.realpath t)
  pub realpath_join-IsCanonical :
      (b : FilePath) (t : Text) → IsCanonical b → IsCanonical (os.realpath_join b t)
  pub realpath-realpath : (t : Text) → os.realpath (render (os.realpath t)) ≡ os.realpath t
  -- Resolving a resolved path again changes nothing, and joining an absolute path is that path.
  pub realpath_join-realpath :
      (b : FilePath) (t : Text) → os.realpath_join b (render (os.realpath t)) ≡ os.realpath t
  pub realpath_join-idempotent :
      (b c : FilePath) (t : Text)
      → IsCanonical c
      → os.realpath_join b (render (os.realpath_join c t)) ≡ os.realpath_join c t

-- `target.relative_to(base).parts`; `none` is its `ValueError`.
unfoldable pub relative_to : FilePath → FilePath → Option FilePath
relative_to t [] = some t
relative_to [] (b ∷ bs) = none
relative_to (p ∷ t) (b ∷ bs) = let rest = relative_to t bs in if eq_text p b then rest else none

-- `target.is_relative_to(base)`.
unfoldable pub is_within : FilePath → FilePath → Bool
unfolding relative_to
is_within target base = elim (relative_to target base) [ none ↦ false | some _ ↦ true ]

-- The two tests of `confine`, on the texts of the resolved paths.
unfoldable pub confined : Text → Text → Bool
confined full root =
    if not (starts_with full root)
    then false
    else if not (eq_text full root) && not (starts_with full (root ++ slash ∷ []))
    then false
    else true

-- `none` is the `ValueError`.
unfoldable pub confine : Os → Text → Text → Option FilePath
unfolding confined render
confine os base target =
    let root = os.realpath base in
    let full = os.realpath_join root target in
    if confined (render full) (render root) then some full else none

abbrev pub denied_files : List Text
denied_files = codes "secrets.yaml" ∷ []

abbrev pub denied_dirs : List Text
denied_dirs = codes ".storage" ∷ []

unfoldable pub is_denied : Text → Bool
is_denied name = mem_text (lower name) denied_files

-- `path.name`, the last component.
unfoldable pub name : FilePath → Text
name [] = []
name (p ∷ []) = p
name (p ∷ q ∷ ps) = name (q ∷ ps)

unfoldable pub is_denied_dir : Text → Bool
is_denied_dir part = mem_text (lower part) denied_dirs

-- `relative_to`, with the whole path where it raises.
parts_below : FilePath → FilePath → FilePath
unfolding relative_to
parts_below target base = elim (relative_to target base) [ none ↦ target | some parts ↦ parts ]

unfoldable pub is_denied_path : FilePath → FilePath → Bool
unfolding is_denied name is_denied_dir parts_below
is_denied_path target base =
    if is_denied (name target) then true else any is_denied_dir (parts_below target base)

-- ===== src/PathGuard/Tests.antt =====
-- Runs of src/companion/pathguard.py, and the theorems at concrete paths.
use hactl_companion.Base.{
  ◌≡◌, refl, true, false, none, some, [], ◌∷◌, ◌++◌, codes, eq_text, split, split_step, starts_with,
  lower, mem_text,
}
use hactl_companion.PathGuard.{
  FilePath, render, body, is_within, relative_to, confined, confine, is_denied, is_denied_dir,
  is_denied_path, name,
}
use hactl_companion.PathGuard.Lexical.{lexical, lexical-IsResolving}
use hactl_companion.PathGuard.Confine.{confine-is_within}

abbrev config : FilePath
config = codes "config" ∷ []

inside_accepted :
    confine lexical (codes "/config") (codes "packages/a.yaml")
    ≡ some (codes "config" ∷ codes "packages" ∷ codes "a.yaml" ∷ [])
unfolding confine confined lexical render body starts_with eq_text split split_step
inside_accepted = refl

denied_names :
    (is_denied_path (config ++ (codes "Secrets.YAML" ∷ [])) config ≡ true)
    × (is_denied_path (config ++ (codes "a.yaml" ∷ [])) config ≡ false)
unfolding is_denied_path is_denied is_denied_dir name relative_to eq_text lower mem_text
denied_names = (refl, refl)

confine-is_within_example : confine lexical (codes "/config") (codes "/config2/x.yaml") ≡ none
unfolding lexical is_within relative_to eq_text split split_step starts_with
confine-is_within_example =
    confine-is_within lexical (codes "/config") (codes "/config2/x.yaml") (codes "config") []
      lexical-IsResolving refl

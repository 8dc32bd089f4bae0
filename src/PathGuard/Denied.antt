-- ===== src/PathGuard/Denied.antt =====
-- The deny lists of src/companion/pathguard.py: what a denied directory covers.
use hactl_companion.Base.{
  ◌≡◌, ◌∙◌, refl, Bool, true, some, List, [], ◌∷◌, ◌++◌, ◌||◌, arith, Text, eq_text_refl, any,
}
use hactl_companion.PathGuard.{
  FilePath, relative_to, is_denied, is_denied_dir, is_denied_path, name,
}

relative_to-append : (base sub : FilePath) → relative_to (base ++ sub) base ≡ some sub
unfolding relative_to
relative_to-append [] sub = refl
relative_to-append (b ∷ bs) sub = rw eq_text_refl (relative_to-append bs sub)

any-append {ℓ} :
    {A : Type ℓ} (p : A → Bool) (xs : List A) (x : A) (ys : List A)
    → p x ≡ true
    → any p (xs ++ x ∷ ys) ≡ true
any-append p [] x ys h = ground (arith)
any-append p (y ∷ xs) x ys h = ground (arith, any-append p xs x ys h)

-- For a path at or below the base, the deny test looks at its last component and at every component
-- below the base, and at no component of the base.
pub is_denied_path-append :
    (base sub : FilePath)
    → is_denied_path (base ++ sub) base ≡ (is_denied (name (base ++ sub)) || any is_denied_dir sub)
unfolding is_denied_path
is_denied_path-append base sub = ground (arith, relative_to-append base sub)

-- A directory on the deny list, at any depth below the base, denies itself and everything beneath it.
pub denied_dir_covers :
    (base above : FilePath) (d : Text) (beneath : FilePath)
    → is_denied_dir d ≡ true
    → is_denied_path (base ++ (above ++ d ∷ beneath)) base ≡ true
denied_dir_covers base above d beneath h =
    is_denied_path-append base (above ++ d ∷ beneath)
    ∙ ground (arith, any-append is_denied_dir above d beneath h)

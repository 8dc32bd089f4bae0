-- ===== src/PathGuard/Lexical.antt =====
-- An operating system without symbolic links, and paths without `..`: it shows that the assumptions on
-- `os.path.realpath` (src/companion/pathguard.py) can be met, and it runs in tests.
use hactl_companion.Base.{
  ℕ, ◌≡◌, ◌≢◌, refl, ap, false, [], ◌∷◌, ◌++◌, arith, Text, split, split_step, starts_with, ◌==◌,
  if◌then◌else◌, Bool-cases, inl, inr,
}
use hactl_companion.PathGuard.{
  slash, FilePath, body, render, SlashFree, IsCanonical, Os, IsResolving,
}

nonempty : FilePath → FilePath
nonempty [] = []
nonempty ([] ∷ ps) = nonempty ps
nonempty ((c ∷ p) ∷ ps) = (c ∷ p) ∷ nonempty ps

components : Text → FilePath
unfolding nonempty
components t = nonempty (split slash t)

joined : FilePath → Text → FilePath
joined b t = if starts_with t (slash ∷ []) then components t else b ++ components t

unfoldable pub lexical : Os
unfolding components joined
lexical = record { realpath = components; realpath_join = joined }

abbrev AllSlashFree : FilePath → Type 0
AllSlashFree [] = Unit
AllSlashFree (p ∷ ps) = SlashFree p × AllSlashFree ps

split_step-AllSlashFree :
    (c : ℕ) (ps : FilePath) → c ≢ slash → AllSlashFree ps → AllSlashFree (split_step false c ps)
unfolding split_step
split_step-AllSlashFree c [] n h = ((n, tt), tt)
split_step-AllSlashFree c (p ∷ ps) n h = ((n, h.0), h.1)

split-AllSlashFree : (t : Text) → AllSlashFree (split slash t)
unfolding split split_step
split-AllSlashFree [] = (tt, tt)
split-AllSlashFree (c ∷ t) = elim (Bool-cases (c == slash)) [
  | inl e ↦ rw e (tt, split-AllSlashFree t)
  | inr e ↦
      rw e (split_step-AllSlashFree c (split slash t) (ground (arith, e)) (split-AllSlashFree t))
]

nonempty-IsCanonical : (ps : FilePath) → AllSlashFree ps → IsCanonical (nonempty ps)
unfolding nonempty
nonempty-IsCanonical [] h = tt
nonempty-IsCanonical ([] ∷ ps) h = nonempty-IsCanonical ps h.1
nonempty-IsCanonical ((c ∷ p) ∷ ps) h = ((λ e. cc), h.0, nonempty-IsCanonical ps h.1)

nonempty_canonical : (ps : FilePath) → IsCanonical ps → nonempty ps ≡ ps
unfolding nonempty
nonempty_canonical [] h = refl
nonempty_canonical ([] ∷ ps) h = absurd (h.0 refl)
nonempty_canonical ((c ∷ p) ∷ ps) h = ap (λ l. (c ∷ p) ∷ l) (nonempty_canonical ps h.2)

append-IsCanonical : (ps qs : FilePath) → IsCanonical ps → IsCanonical qs → IsCanonical (ps ++ qs)
append-IsCanonical [] qs h k = k
append-IsCanonical (p ∷ ps) qs h k = (h.0, h.1, append-IsCanonical ps qs h.2 k)

split-body :
    (p : Text) (ps : FilePath) → SlashFree p → IsCanonical ps → split slash (p ++ body ps) ≡ p ∷ ps
unfolding split split_step body
split-body [] [] h k = refl
split-body [] (q ∷ ps) h k = ap (λ l. [] ∷ l) (split-body q ps k.1 k.2)
split-body (c ∷ p) ps h k = ground (arith, h.0, split-body p ps h.1 k)

components-render : (p : FilePath) → IsCanonical p → components (render p) ≡ p
unfolding components render
components-render [] h = unfold split split_step in refl
components-render (p ∷ ps) h =
    unfold split split_step body in rw (split-body p ps h.1 h.2) (nonempty_canonical (p ∷ ps) h)

components-IsCanonical : (t : Text) → IsCanonical (components t)
unfolding components
components-IsCanonical t = nonempty-IsCanonical (split slash t) (split-AllSlashFree t)

joined-IsCanonical : (b : FilePath) (t : Text) → IsCanonical b → IsCanonical (joined b t)
unfolding joined
joined-IsCanonical b t h = elim (Bool-cases (starts_with t (slash ∷ []))) [
  | inl e ↦ rw e (components-IsCanonical t)
  | inr e ↦ rw e (append-IsCanonical b (components t) h (components-IsCanonical t))
]

joined-render : (b p : FilePath) → IsCanonical p → joined b (render p) ≡ p
unfolding joined
joined-render b [] h = unfold render starts_with in components-render [] h
joined-render b (p ∷ ps) h = unfold render body starts_with in components-render (p ∷ ps) h

pub lexical-IsResolving : IsResolving lexical
unfolding lexical
lexical-IsResolving = record {
  realpath-IsCanonical = components-IsCanonical;
  realpath_join-IsCanonical = joined-IsCanonical;
  realpath-realpath = λ t. components-render (components t) (components-IsCanonical t);
  realpath_join-realpath = λ b t. joined-render b (components t) (components-IsCanonical t);
  realpath_join-idempotent = λ b c t h. joined-render b (joined c t) (joined-IsCanonical c t h);
}

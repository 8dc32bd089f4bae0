-- ===== src/PathGuard/Confine.antt =====
-- `confine` of src/companion/pathguard.py against containment by path components.
use hactl_companion.Base.{
  ◌≡◌, ◌∙◌, refl, subst, Bool, false, none, some, [], ◌∷◌, ◌++◌, ◌&&◌, ◌||◌, arith, Text, eq_text,
  starts_with, if◌then◌else◌,
}
use hactl_companion.PathGuard.{
  slash, FilePath, body, render, SlashFree, IsCanonical, Os, IsResolving, is_within, confined,
  confine,
}

-- Equal to `root`, or below it.
abbrev below : Text → Text → Bool
below full root = eq_text full root || starts_with full (root ++ slash ∷ [])

confined-eq-below : (full root : Text) → confined full root ≡ below full root
unfolding confined eq_text starts_with
confined-eq-below [] [] = refl
confined-eq-below [] (d ∷ root) = refl
confined-eq-below (c ∷ full) [] = ground arith
confined-eq-below (c ∷ full) (d ∷ root) = ground (arith, confined-eq-below full root)

-- Text that ends a component: nothing, or a separator and more.
abbrev Ends : Text → Type 0
Ends [] = Unit
Ends (c ∷ s) = c ≡ slash

body-Ends : (p : FilePath) → Ends (body p)
unfolding body
body-Ends [] = tt
body-Ends (p ∷ ps) = refl

below-component :
    (x y r q : Text)
    → SlashFree x
    → SlashFree y
    → Ends r
    → Ends q
    → below (x ++ r) (y ++ q) ≡ (eq_text x y && below r q)
unfolding eq_text starts_with
below-component [] [] r q hx hy er eq = refl
below-component [] (d ∷ y) [] q hx hy er eq = refl
below-component [] (d ∷ y) (c ∷ r) q hx hy er eq = ground arith
below-component (c ∷ x) [] r [] hx hy er eq = ground arith
below-component (c ∷ x) [] r (d ∷ q) hx hy er eq = ground arith
below-component (c ∷ x) (d ∷ y) r q hx hy er eq =
    ground (arith, below-component x y r q hx.1 hy.1 er eq)

below-body :
    (t b : FilePath) → IsCanonical t → IsCanonical b → below (body t) (body b) ≡ is_within t b
unfolding is_within body eq_text starts_with
below-body [] [] ht hb = refl
below-body (p ∷ t) [] ht hb = refl
below-body [] (b ∷ bs) ht hb = refl
below-body (p ∷ t) (b ∷ bs) ht hb =
    below-component p b (body t) (body bs) ht.1 hb.1 (body-Ends t) (body-Ends bs)
    ∙ ground (arith, below-body t bs ht.2 hb.2)

confined-eq-is_within :
    (t : FilePath) (b : Text) (bs : FilePath)
    → IsCanonical t
    → IsCanonical (b ∷ bs)
    → confined (render t) (render (b ∷ bs)) ≡ is_within t (b ∷ bs)
unfolding render
confined-eq-is_within (p ∷ t) b bs ht hb = confined-eq-below _ _ ∙ below-body (p ∷ t) (b ∷ bs) ht hb
confined-eq-is_within [] [] bs ht hb = absurd (hb.0 refl)
confined-eq-is_within [] (c ∷ b) bs ht hb =
    unfold confined is_within starts_with eq_text body in refl

-- Where the base directory is not `/`, `confine` accepts a target exactly when its resolved path is
-- the resolved base or lies below it component by component, and then it returns that path: a
-- sibling whose name merely begins like the base is refused.
pub confine-is_within :
    (os : Os) (base target : Text) (b : Text) (bs : FilePath)
    → IsResolving os
    → os.realpath base ≡ b ∷ bs
    → confine os base target ≡ (
        let full = os.realpath_join (b ∷ bs) target in
        if is_within full (b ∷ bs) then some full else none)
unfolding confine
confine-is_within os base target b bs law e = rw e (
    rw (
      confined-eq-is_within (os.realpath_join (b ∷ bs) target) b bs
        (law.realpath_join-IsCanonical (b ∷ bs) target
          (subst IsCanonical e (law.realpath-IsCanonical base)))
        (subst IsCanonical e (law.realpath-IsCanonical base))))

confined-root :
    (p : Text) (ps : FilePath)
    → IsCanonical (p ∷ ps)
    → confined (render (p ∷ ps)) (render []) ≡ false
unfolding confined render eq_text starts_with
confined-root [] ps h = absurd (h.0 refl)
confined-root (c ∷ p) ps h = ground (arith, h.1.0)

-- Where the base directory is `/` itself, `confine` refuses every path below it, since no resolved
-- path begins with two separators.
pub confine_at_root :
    (os : Os) (base target p : Text) (ps : FilePath)
    → IsResolving os
    → os.realpath base ≡ []
    → os.realpath_join [] target ≡ p ∷ ps
    → confine os base target ≡ none
unfolding confine
confine_at_root os base target p ps law e f =
    rw (e, f)
      (rw (confined-root p ps (subst IsCanonical f (law.realpath_join-IsCanonical [] target tt))))

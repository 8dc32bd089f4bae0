-- ===== src/Surgical/Verify.antt =====
-- `_parses_back_to` of src/companion/surgical.py: a spliced text is used only if it parses to the tree
-- that the route meant to write.
use hactl_companion.Base.{
  ◌≡◌, Bool, true, false, Option, none, some, arith, Text, if◌then◌else◌, Option-cases, Bool-cases,
  inl, inr, subst,
}
use hactl_companion.Yaml.{Value, Yaml}
use hactl_companion.Yaml.Plain.{plain, eq_plain}

unfoldable pub parses_back_to : Yaml → Text → Value → Bool
parses_back_to yaml spliced wanted = elim (yaml.load spliced) [
  | none ↦ false
  | some reparsed ↦ eq_plain (plain reparsed) (plain wanted)
]

-- What both writers make of a splice: one that does not parse back is dropped.
unfoldable pub verified : Yaml → Value → Option Text → Option Text
verified yaml wanted none = none
verified yaml wanted (some spliced) =
    if parses_back_to yaml spliced wanted then some spliced else none

-- The text loads, to a tree that equals the wanted one as plain Python values.
abbrev pub ParsesBack : Yaml → Text → Value → Type 0
ParsesBack yaml t wanted =
    (reparsed : Value) × (yaml.load t ≡ some reparsed)
    × (eq_plain (plain reparsed) (plain wanted) ≡ true)

pub parses_back_to-ParsesBack :
    (yaml : Yaml) (t : Text) (wanted : Value)
    → parses_back_to yaml t wanted ≡ true
    → ParsesBack yaml t wanted
unfolding parses_back_to
parses_back_to-ParsesBack yaml t wanted h = elim (Option-cases (yaml.load t)) [
  | inl e ↦ absurd (ground (arith, e, h))
  | inr (v, e) ↦ (v, e, ground (arith, e, h))
]

pub verified-ParsesBack :
    (yaml : Yaml) (wanted : Value) (o : Option Text) (t : Text)
    → verified yaml wanted o ≡ some t
    → ParsesBack yaml t wanted
unfolding verified
verified-ParsesBack yaml wanted none t h = cc
verified-ParsesBack yaml wanted (some u) t h = elim (Bool-cases (parses_back_to yaml u wanted)) [
  | inl e ↦
      let same : u ≡ t = ground (arith, e, h) in
      parses_back_to-ParsesBack yaml t wanted
        (subst (λ x. parses_back_to yaml x wanted ≡ true) same e)
  | inr e ↦ absurd (ground (arith, e, h))
]

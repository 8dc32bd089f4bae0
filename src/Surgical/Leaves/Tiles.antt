-- ===== src/Surgical/Leaves/Tiles.antt =====
-- The pieces of `splice_leaves` (src/companion/surgical.py) lose and repeat no byte of the source, and nothing
-- but the leaves' bodies is changed.
use mathlib.Core.List.{append_assoc}
use hactl_companion.Base.{
  ℕ, ◌-◌, ◌≤◌, ◌≡◌, ◌∙◌, refl, sym, ap, map, Bool-cases, Option, none, some, List, [], ◌∷◌, ◌++◌,
  arith, Text, newline, slice, drop, find, find_bounds, Option-cases, inl, inr, drop-drop,
  take-append-drop,
}
use hactl_companion.Yaml.{Value, Seg, Scalar, Node, Yaml}
use hactl_companion.Surgical.Verify.{parses_back_to, verified, ParsesBack, verified-ParsesBack}
use hactl_companion.Surgical.Leaves.{
  Rewrite, Span, scalar_body_start, pieces, splice_spans, splice_leaves, collect_spans,
}

-- A text is a slice of it and what follows.
slice-append-drop : (a b : ℕ) (s : Text) → a ≤ b → slice a b s ++ drop b s ≡ drop a s
slice-append-drop a b s h =
    ap (λ t. slice a b s ++ t) (sym (drop-drop (b - a) a b s (omega arith)))
    ∙ take-append-drop (b - a) (drop a s)

body_bounds :
    (source : Text) (start stop_at : ℕ) (s : Scalar)
    → start ≤ stop_at
    → (start ≤ scalar_body_start source start stop_at s)
      × (scalar_body_start source start stop_at s ≤ stop_at)
unfolding scalar_body_start
body_bounds source start stop_at s h = elim (Option-cases (find source newline start stop_at)) [
  | inl e ↦ ground (arith, e)
  | inr (i, e) ↦ ground (arith, e, find_bounds source newline start stop_at i e)
]

-- No span ends before it begins.
abbrev pub IsForward : List Span → Type 0
IsForward [] = Unit
IsForward ((start, stop_at, s) ∷ spans) = (start ≤ stop_at) × IsForward spans

splice_spans-ParsesBack :
    (yaml : Yaml) (source : Text) (wanted : Value) (rewrite : Rewrite) (o : Option (List Span))
    (out : Text)
    → splice_spans yaml source wanted rewrite o ≡ some out
    → ParsesBack yaml out wanted
unfolding splice_spans
splice_spans-ParsesBack yaml source wanted rewrite none out h = cc
splice_spans-ParsesBack yaml source wanted rewrite (some []) out h = cc
splice_spans-ParsesBack yaml source wanted rewrite (some (span ∷ spans)) out h =
    verified-ParsesBack yaml wanted _ out h

-- A text of parts, each a gap and a leaf's body, and what follows the last one.
pub whole : List (Text × Text) → Text → Text
whole [] rest = rest
whole ((gap, body) ∷ parts) rest = (gap ++ body) ++ whole parts rest

abbrev pub rewritten : Rewrite → List (Text × Text) → List (Text × Text)
rewritten rewrite parts = map (λ (part : Text × Text). (part.0, (rewrite part.1).0)) parts

-- The source text of each leaf: from the line behind a block scalar's header, or from its start.
abbrev pub bodies : Text → List Span → List Text
bodies source spans =
    map (λ (span : Span). slice (scalar_body_start source span.0 span.1 span.2) span.1 source) spans

-- From an offset on, the result is the source with the leaves' bodies rewritten and all else kept.
pub record IsLeafEdit (source : Text) (rewrite : Rewrite) (cursor : ℕ) (spans : List Span)
    (out : Text) : Type 0 where
  pub parts : List (Text × Text)
  pub rest : Text
  pub before : whole parts rest ≡ drop cursor source
  pub after : whole (rewritten rewrite parts) rest ≡ out
  pub leaves : map (λ (part : Text × Text). part.1) parts ≡ bodies source spans

pieces-IsLeafEdit :
    (source : Text) (rewrite : Rewrite) (cursor : ℕ) (spans : List Span) (out : Text)
    → IsForward spans
    → pieces source rewrite cursor spans ≡ some out
    → IsLeafEdit source rewrite cursor spans out
unfolding pieces whole
pieces-IsLeafEdit source rewrite cursor [] out order h = record {
  parts = [];
  rest = drop cursor source;
  before = refl;
  after = ground (arith, h);
  leaves = refl;
}
pieces-IsLeafEdit source rewrite cursor ((start, stop_at, s) ∷ spans) out order h =
    let body = scalar_body_start source start stop_at s in
    let (low, high) = body_bounds source start stop_at s order.0 in
    elim (Option-cases (pieces source rewrite stop_at spans)) [
      | inl e ↦ absurd (ground (arith, e, h))
      | inr (u, e) ↦
          let later = pieces-IsLeafEdit source rewrite stop_at spans u order.1 e in
          let split : out
              ≡ (slice cursor body source ++ (rewrite (slice body stop_at source)).0) ++ u =
            ground (arith, e, h) in
          let ahead : cursor ≤ start = ground (arith, e, h) in
          record {
            parts = (slice cursor body source, slice body stop_at source) ∷ later.parts;
            rest = later.rest;
            before =
                ap (λ t. (slice cursor body source ++ slice body stop_at source) ++ t) later.before
                ∙ (append_assoc (slice cursor body source) (slice body stop_at source)
                      (drop stop_at source)
                    ∙ (ap (λ t. slice cursor body source ++ t)
                          (slice-append-drop body stop_at source high)
                        ∙ slice-append-drop cursor body source (omega (arith, ahead, low))));
            after =
                ap (λ t. (slice cursor body source ++ (rewrite (slice body stop_at source)).0) ++ t)
                  later.after
                ∙ sym split;
            leaves = ap (λ l. slice body stop_at source ∷ l) later.leaves;
          }
    ]

verified-some :
    (yaml : Yaml) (wanted : Value) (o : Option Text) (out : Text)
    → verified yaml wanted o ≡ some out
    → o ≡ some out
unfolding verified
verified-some yaml wanted none out h = absurd (cc h)
verified-some yaml wanted (some t) out h = elim (Bool-cases (parses_back_to yaml t wanted)) [
  | inl e ↦ ground (arith, e, h)
  | inr e ↦ absurd (ground (arith, e, h))
]

splice_spans-IsLeafEdit :
    (yaml : Yaml) (source : Text) (wanted : Value) (rewrite : Rewrite) (o : Option (List Span))
    (out : Text)
    → ((spans : List Span) → o ≡ some spans → IsForward spans)
    → splice_spans yaml source wanted rewrite o ≡ some out
    → (spans : List Span) × (o ≡ some spans) × IsLeafEdit source rewrite 0 spans out
unfolding splice_spans
splice_spans-IsLeafEdit yaml source wanted rewrite none out forward h = absurd (cc h)
splice_spans-IsLeafEdit yaml source wanted rewrite (some []) out forward h = absurd (cc h)
splice_spans-IsLeafEdit yaml source wanted rewrite (some (span ∷ spans)) out forward h = (
  span ∷ spans,
  refl,
  pieces-IsLeafEdit source rewrite 0 (span ∷ spans) out (forward (span ∷ spans) refl)
      (verified-some yaml wanted (pieces source rewrite 0 (span ∷ spans)) out h),
)

-- A splice of leaves that is returned is the source with nothing but the bodies of the leaves at the
-- paths changed, each to what the rewriting makes of it, and it parses back to the tree that the route
-- meant to write. The source is cut into gaps, those bodies in order, and a rest, which the result has
-- in the same order with the same gaps and the same rest. The marks of the file put no end of a leaf
-- before its start.
pub splice_leaves-IsLeafEdit :
    (yaml : Yaml) (source : Text) (wanted : Value) (paths : List (List Seg)) (rewrite : Rewrite)
    (root : Node) (out : Text)
    → yaml.compose source ≡ some (some root)
    → ((spans : List Span) → collect_spans root paths [] ≡ some spans → IsForward spans)
    → splice_leaves yaml source wanted paths rewrite ≡ some out
    → ((spans : List Span) × (collect_spans root paths [] ≡ some spans)
        × IsLeafEdit source rewrite 0 spans out)
      × ParsesBack yaml out wanted
splice_leaves-IsLeafEdit yaml source wanted paths rewrite root out composed forward h =
    let k : splice_spans yaml source wanted rewrite (collect_spans root paths []) ≡ some out =
      unfold splice_leaves in ground (arith, composed, h) in
    (
      splice_spans-IsLeafEdit yaml source wanted rewrite (collect_spans root paths []) out forward
          k,
      splice_spans-ParsesBack yaml source wanted rewrite (collect_spans root paths []) out k,
    )

-- ===== src/Surgical/Leaves.antt =====
-- `splice_leaves` of src/companion/surgical.py: the source text with only some scalars rewritten, and
-- the re-parse that every splice must pass. The rewriting function is `re.Pattern.subn`'s shape.
pub mod Tiles
use hactl_companion.Base.{
  ℕ, zero, suc, ◌+◌, Bool, true, false, Option, none, some, List, [], ◌∷◌, ◌++◌, ◌&&◌, ◌||◌, Text,
  newline, eq_text, find, slice, drop, ltb, ◌==◌, show_nat, if◌then◌else◌,
}
use hactl_companion.Yaml.{
  Style, bare, literal, folded, Value, Seg, key, index, Mark, Scalar, Node, Nodes, Pairs, scalar,
  sequence, mapping, no_nodes, node, no_pairs, pair, Yaml,
}
use hactl_companion.Surgical.Verify.{verified}

abbrev pub Rewrite : Type 0
Rewrite = Text → Text × ℕ

unfoldable pub node_item : Nodes → ℕ → Option Node
node_item no_nodes i = none
node_item (node n ns) zero = some n
node_item (node n ns) (suc i) = node_item ns i

-- `str(segment)`.
unfoldable pub seg_text : Seg → Text
unfolding show_nat
seg_text (key t) = t
seg_text (index i) = show_nat i

-- The values under the keys that have the text, and the value if there is exactly one.
unfoldable pub values_under : Text → Pairs → List Node
unfolding eq_text
values_under t no_pairs = []
values_under t (pair k v ps) =
    let rest = values_under t ps in if eq_text k.value t then v ∷ rest else rest

unfoldable pub only : List Node → Option Node
only (n ∷ []) = some n
only _ = none

unfoldable pub child : Node → Seg → Option Node
unfolding node_item values_under only seg_text
child (sequence m flow ns) (index i) = node_item ns i
child (sequence m flow ns) (key t) = none
child (mapping m flow ps) segment = only (values_under (seg_text segment) ps)
child (scalar s) segment = none

unfoldable pub node_at : Node → List Seg → Option Node
node_at root [] = some root
node_at root (segment ∷ path) = elim (child root segment) [ none ↦ none | some n ↦ node_at n path ]

-- `node.style in ("|", ">")`.
unfoldable pub is_block : Style → Bool
is_block literal = true
is_block folded = true
is_block _ = false

unfoldable pub body_after : ℕ → Option ℕ → ℕ
body_after stop_at none = stop_at
body_after stop_at (some newline_at) = newline_at + 1

unfoldable pub scalar_body_start : Text → ℕ → ℕ → Scalar → ℕ
unfolding is_block body_after
scalar_body_start source start stop_at s =
    if is_block s.style then body_after stop_at (find source newline start stop_at) else start

-- A rewritten span: its two ends, and its scalar.
abbrev pub Span : Type 0
Span = ℕ × ℕ × Scalar

-- `spans[(start, end)] = node`, in the order in which `sorted` lists the spans.
unfoldable pub put_span : ℕ → ℕ → Scalar → List Span → List Span
put_span a b s [] = (a, b, s) ∷ []
put_span a b s ((c, d, t) ∷ spans) =
    if (a == c) && (b == d)
    then (a, b, s) ∷ spans
    else if ltb a c || ((a == c) && ltb b d)
    then (a, b, s) ∷ (c, d, t) ∷ spans
    else (c, d, t) ∷ put_span a b s spans

-- One path: `none` gives the splice up, and a path that leads nowhere is passed over.
unfoldable pub add_span : Option Node → List Span → Option (List Span)
unfolding put_span
add_span none spans = some spans
add_span (some (scalar s)) spans = some (put_span s.start_mark.offset s.end_mark.offset s spans)
add_span (some n) spans = none

unfoldable pub collect_spans : Node → List (List Seg) → List Span → Option (List Span)
collect_spans root [] spans = some spans
collect_spans root (path ∷ paths) spans = elim (add_span (node_at root path) spans) [
  | none ↦ none
  | some more ↦ collect_spans root paths more
]

unfoldable pub prepend : Text → Option Text → Option Text
prepend t none = none
prepend t (some u) = some (t ++ u)

-- As many substitutions in the bytes as in the value, and at least one.
unfoldable pub agree : ℕ → ℕ → Bool
agree made wanted = if made == 0 then false else made == wanted

-- The joined pieces from `cursor` on.
unfoldable pub pieces : Text → Rewrite → ℕ → List Span → Option Text
unfolding prepend agree
pieces source rewrite cursor [] = some (drop cursor source)
pieces source rewrite cursor ((start, stop_at, s) ∷ spans) =
    let rest = pieces source rewrite stop_at spans in
    let body = scalar_body_start source start stop_at s in
    let (rewritten, made) = rewrite (slice body stop_at source) in
    if ltb start cursor
    then none
    else if agree made (rewrite s.value).1
    then prepend (slice cursor body source ++ rewritten) rest
    else none

unfoldable pub splice_spans : Yaml → Text → Value → Rewrite → Option (List Span) → Option Text
splice_spans yaml source wanted rewrite none = none
splice_spans yaml source wanted rewrite (some []) = none
splice_spans yaml source wanted rewrite (some (span ∷ spans)) =
    verified yaml wanted (pieces source rewrite 0 (span ∷ spans))

unfoldable pub splice_leaves : Yaml → Text → Value → List (List Seg) → Rewrite → Option Text
splice_leaves yaml source wanted paths rewrite = elim (yaml.compose source) [
  | none ↦ none
  | some none ↦ none
  | some (some root) ↦ splice_spans yaml source wanted rewrite (collect_spans root paths [])
]

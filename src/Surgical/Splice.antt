-- ===== src/Surgical/Splice.antt =====
-- `_splice`, `_append`, `_entry_line_starts` and `_entry_block` of src/companion/surgical.py.
pub mod Starts
pub mod Frame
use hactl_companion.Base.{
  ℕ, zero, suc, ◌+◌, Bool, true, false, Option, none, some, List, [], ◌∷◌, ◌++◌, not, ◌&&◌, Text,
  codes, newline, eq_text, is_blank, rfind, after, slice, take, drop, length, ◌==◌, if◌then◌else◌,
}
use hactl_companion.Yaml.{
  Key, Value, Items, Fields, null, atom, str, tagged, seq, map, nil, cons, end, field, Seg, key,
  index, Mark, Scalar, Node, Nodes, Pairs, scalar, sequence, mapping, no_nodes, node, no_pairs,
  pair, start_mark, flow_style, Dumped, done, failed, Yaml,
}
use hactl_companion.Surgical.Span.{content_end, line_ending, ends_with_newline, reindent}

pub data EditKind : Type 0 where
  replace delete append : EditKind

-- `where_at` is `where`; its default, -1, is `none`.
pub record Edit : Type 0 where
  pub kind : EditKind
  pub where_at : Option Seg

unfoldable pub eq_seg : Seg → Seg → Bool
unfolding eq_text
eq_seg (key s) (key t) = eq_text s t
eq_seg (index i) (index j) = i == j
eq_seg (key s) (index j) = false
eq_seg (index i) (key t) = false

-- The entries of the top level with the offset of their first character.
unfoldable pub sequence_anchors : ℕ → Nodes → List (Seg × ℕ)
unfolding start_mark
sequence_anchors i no_nodes = []
sequence_anchors i (node n ns) = (index i, (start_mark n).offset) ∷ sequence_anchors (i + 1) ns

unfoldable pub mapping_anchors : Pairs → List (Seg × ℕ)
mapping_anchors no_pairs = []
mapping_anchors (pair k v ps) = (key k.value, k.start_mark.offset) ∷ mapping_anchors ps

abbrev dash : ℕ
dash = 45

-- The `-` before an item, with only white space between them.
unfoldable pub dash_before : Text → ℕ → Option ℕ
dash_before source content = elim (rfind source dash 0 content) [
  | none ↦ none
  | some at ↦ if is_blank (slice (at + 1) content source) then some at else none
]

-- The start of the line of an entry that begins at `content`, if only white space is before it.
unfoldable pub line_of : Text → ℕ → Option ℕ
line_of source content =
    let line_start = after (rfind source newline 0 content) in
    if is_blank (slice line_start content source) then some line_start else none

unfoldable pub entry_start : Text → Bool → ℕ → Option ℕ
entry_start source true content = elim (dash_before source content) [
  | none ↦ none
  | some at ↦ line_of source at
]
entry_start source false content = line_of source content

-- `starts[where] = line_start`.
unfoldable pub put_start : Seg → ℕ → List (Seg × ℕ) → List (Seg × ℕ)
put_start w a [] = (w, a) ∷ []
put_start w a ((v, b) ∷ starts) =
    if eq_seg v w then (v, a) ∷ starts else (v, b) ∷ put_start w a starts

unfoldable pub collect_starts :
    Text → Bool → List (Seg × ℕ) → List (Seg × ℕ) → Option (List (Seg × ℕ))
collect_starts source in_sequence [] starts = some starts
collect_starts source in_sequence ((w, content) ∷ anchors) starts =
    elim (entry_start source in_sequence content) [
      | none ↦ none
      | some line_start ↦ collect_starts source in_sequence anchors (put_start w line_start starts)
    ]

unfoldable pub entry_line_starts : Text → Node → Option (List (Seg × ℕ))
entry_line_starts source (sequence m flow ns) =
    collect_starts source true (sequence_anchors 0 ns) []
entry_line_starts source (mapping m flow ps) = collect_starts source false (mapping_anchors ps) []
entry_line_starts source (scalar s) = none

-- `data[index]`, and `data[-1]`.
unfoldable pub item_at : Items → ℕ → Option Value
item_at nil i = none
item_at (cons v vs) zero = some v
item_at (cons v vs) (suc i) = item_at vs i

unfoldable pub last_item : Items → Option Value
last_item nil = none
last_item (cons v nil) = some v
last_item (cons v (cons w vs)) = last_item (cons w vs)

-- The key object that the file was parsed with, and its value.
unfoldable pub field_at : Text → Fields → Option (Key × Value)
unfolding eq_text
field_at t end = none
field_at t (field k v fs) = if eq_text k.text t then some (k, v) else field_at t fs

unfoldable pub one_item : Option Value → Option Value
one_item none = none
one_item (some v) = some (seq (cons v nil))

unfoldable pub one_field : Option (Key × Value) → Option Value
one_field none = none
one_field (some (k, v)) = some (map (field k v end))

-- What `_entry_block` dumps. A list is addressed by index and a mapping by key: anything else raises
-- one of the exceptions that the source catches.
unfoldable pub payload : Value → EditKind → Option Seg → Option Value
unfolding item_at last_item field_at one_item one_field
payload (seq vs) append w = one_item (last_item vs)
payload (seq vs) kind (some (index i)) = one_item (item_at vs i)
payload (map fs) kind (some (key t)) = one_field (field_at t fs)
payload _ _ _ = none

-- The emitted lines without trailing blank lines and comments.
unfoldable pub trimmed : Dumped → Option Text
trimmed (done block) = some (take (content_end block 0 (length block)) block)
trimmed (failed partial) = none

unfoldable pub entry_block : Yaml → Value → Edit → Option Text
entry_block yaml data_tree edit = elim (payload data_tree edit.kind edit.where_at) [
  | none ↦ none
  | some v ↦ trimmed (yaml.dump v)
]

-- `source if source.endswith("\n") or not source else source + eol`.
unfoldable pub with_eol : Text → Text
unfolding ends_with_newline line_ending
with_eol [] = []
with_eol (c ∷ s) = if ends_with_newline (c ∷ s) then c ∷ s else (c ∷ s) ++ line_ending (c ∷ s)

unfoldable pub append_entry : Yaml → Text → Value → Edit → Text → Option Text
append_entry yaml source data_tree edit indent = elim (entry_block yaml data_tree edit) [
  | none ↦ none
  | some block ↦ some (with_eol source ++ reindent block indent (line_ending source))
]

-- The start of an entry, and the start of the next one or the end of the text.
unfoldable pub span_of : Seg → List (Seg × ℕ) → ℕ → Option (ℕ × ℕ)
unfolding eq_seg
span_of w [] size = none
span_of w ((v, a) ∷ []) size = if eq_seg v w then some (a, size) else none
span_of w ((v, a) ∷ (u, b) ∷ starts) size =
    if eq_seg v w then some (a, b) else span_of w ((u, b) ∷ starts) size

unfoldable pub find_span : Option Seg → List (Seg × ℕ) → ℕ → Option (ℕ × ℕ)
unfolding span_of
find_span none starts size = none
find_span (some w) starts size = span_of w starts size

abbrev pub spaces : ℕ → Text
spaces zero = []
spaces (suc n) = 32 ∷ spaces n

-- The text around the span of an entry is kept.
unfoldable pub replace_span : Text → ℕ → ℕ → Text → Text
replace_span source start stop_at block = take start source ++ (block ++ drop stop_at source)

unfoldable pub replace_entry : Yaml → Text → Value → Edit → ℕ → ℕ → ℕ → Option Text
replace_entry yaml source data_tree edit column start stop_at =
    elim (entry_block yaml data_tree edit) [
      | none ↦ none
      | some block ↦
          let indent = slice start (start + column) source in
          if is_blank indent
          then some (replace_span source start stop_at (reindent block indent (line_ending source)))
          else none
    ]

unfoldable pub edit_entry : EditKind → Yaml → Text → Value → Edit → ℕ → ℕ → ℕ → Option Text
edit_entry delete yaml source data_tree edit column start limit =
    some (replace_span source start (content_end source start limit) [])
edit_entry _ yaml source data_tree edit column start limit =
    replace_entry yaml source data_tree edit column start (content_end source start limit)

unfoldable pub splice_root :
    Yaml → Text → Value → Edit → ℕ → List (Seg × ℕ) → EditKind → Option Text
splice_root yaml source data_tree edit column starts append =
    append_entry yaml source data_tree edit (spaces column)
splice_root yaml source data_tree edit column starts kind =
    elim (find_span edit.where_at starts (length source)) [
      | none ↦ none
      | some (start, limit) ↦ edit_entry kind yaml source data_tree edit column start limit
    ]

unfoldable pub splice_empty : Yaml → Text → Value → Edit → EditKind → Option Text
splice_empty yaml source data_tree edit append = append_entry yaml source data_tree edit []
splice_empty yaml source data_tree edit _ = none

unfoldable pub splice_node : Yaml → Text → Value → Edit → Node → Option Text
splice_node yaml source data_tree edit root =
    if flow_style root then none else elim (entry_line_starts source root) [
      | none ↦ none
      | some starts ↦
          splice_root yaml source data_tree edit (start_mark root).column starts edit.kind
    ]

unfoldable pub splice : Yaml → Text → Value → Edit → Option Text
splice yaml source data_tree edit = elim (yaml.compose source) [
  | none ↦ none
  | some none ↦ splice_empty yaml source data_tree edit edit.kind
  | some (some root) ↦ splice_node yaml source data_tree edit root
]

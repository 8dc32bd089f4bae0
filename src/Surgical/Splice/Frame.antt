-- ===== src/Surgical/Splice/Frame.antt =====
-- What `_splice` of src/companion/surgical.py leaves in place.
use mathlib.Core.Option.{some-injective}
use mathlib.Core.List.{append_assoc}
use hactl_companion.Base.{
  ℕ, ◌+◌, ◌≡◌, ◌≢◌, ◌⊎◌, inl, inr, ◌∙◌, sym, subst, refl, true, Option, none, some, List, [], ◌∷◌,
  ◌++◌, arith, Text, slice, take, drop, length, starts_with, starts_with-append, is_blank,
  Bool-cases, Option-cases,
}
use hactl_companion.Yaml.{Seg, Value, Node, start_mark, Yaml}
use hactl_companion.Surgical.Span.{content_end, line_ending, ends_with_newline, reindent}
use hactl_companion.Surgical.Splice.{
  EditKind, delete, replace, append, Edit, entry_line_starts, entry_block, with_eol, append_entry,
  find_span, replace_span, replace_entry, edit_entry, spaces, splice_root, splice_empty,
  splice_node, splice,
}
use hactl_companion.Surgical.Splice.Starts.{
  IsLineStart, AllLineStarts, entry_line_starts-AllLineStarts, IsSpan, span_of-IsSpan,
  AllLineStarts-own,
}

-- What stands in the place of the entry: nothing, or its emitted lines with the indent that the entry
-- had and the file's line breaks.
abbrev pub IsBlock : Yaml → Text → Value → Edit → ℕ → ℕ → EditKind → Text → Type 0
IsBlock yaml s data_tree edit column start delete block = block ≡ []
IsBlock yaml s data_tree edit column start replace block =
    (emitted : Text) × (entry_block yaml data_tree edit ≡ some emitted)
    × (is_blank (slice start (start + column) s) ≡ true)
    × (block ≡ reindent emitted (slice start (start + column) s) (line_ending s))
IsBlock yaml s data_tree edit column start append block = ⊥

abbrev Edited : Yaml → Text → Value → Edit → ℕ → List (Seg × ℕ) → EditKind → Text → Type 0
Edited yaml s data_tree edit column starts kind out =
    (entry : Seg) × (start : ℕ) × (limit : ℕ) × (block : Text) × (edit.where_at ≡ some entry)
    × IsSpan entry starts (length s) start limit
    × IsBlock yaml s data_tree edit column start kind block
    × (out ≡ take start s ++ (block ++ drop (content_end s start limit) s))

-- One edit of an entry of the file: the text before the entry's first line and the text behind its
-- content are kept, where its content ends before the next entry.
pub record IsEntryEdit (yaml : Yaml) (s : Text) (data_tree : Value) (edit : Edit) (out : Text)
    : Type 0 where
  pub root : Node
  pub composed : yaml.compose s ≡ some (some root)
  pub starts : List (Seg × ℕ)
  pub entries : entry_line_starts s root ≡ some starts
  pub entry : Seg
  pub named : edit.where_at ≡ some entry
  pub start : ℕ
  pub limit : ℕ
  pub span : IsSpan entry starts (length s) start limit
  pub line_start : IsLineStart s start
  pub block : Text
  pub replaced : IsBlock yaml s data_tree edit (start_mark root).column start edit.kind block
  pub keeps : out ≡ take start s ++ (block ++ drop (content_end s start limit) s)

replace_entry-keeps :
    (yaml : Yaml) (s : Text) (data_tree : Value) (edit : Edit) (column start stop_at : ℕ)
    (out : Text)
    → replace_entry yaml s data_tree edit column start stop_at ≡ some out
    → (block : Text) × IsBlock yaml s data_tree edit column start replace block
      × (out ≡ take start s ++ (block ++ drop stop_at s))
unfolding replace_entry replace_span
replace_entry-keeps yaml s data_tree edit column start stop_at out h =
    elim (Option-cases (entry_block yaml data_tree edit)) [
      | inl e ↦ absurd (ground (arith, e, h))
      | inr (block, e) ↦ (
        reindent block (slice start (start + column) s) (line_ending s),
        (block, e, ground (arith, e, h), refl),
        ground (arith, e, h),
      )
    ]

edit_entry-keeps :
    (kind : EditKind) (yaml : Yaml) (s : Text) (data_tree : Value) (edit : Edit)
    (column start limit : ℕ) (out : Text)
    → kind ≢ append
    → edit_entry kind yaml s data_tree edit column start limit ≡ some out
    → (block : Text) × IsBlock yaml s data_tree edit column start kind block
      × (out ≡ take start s ++ (block ++ drop (content_end s start limit) s))
unfolding edit_entry replace_span
edit_entry-keeps delete yaml s data_tree edit column start limit out n h =
    ([], refl, sym (some-injective _ _ h))
edit_entry-keeps replace yaml s data_tree edit column start limit out n h =
    replace_entry-keeps yaml s data_tree edit column start (content_end s start limit) out h
edit_entry-keeps append yaml s data_tree edit column start limit out n h = absurd (n refl)

find_span-IsSpan :
    (w : Option Seg) (starts : List (Seg × ℕ)) (size a b : ℕ)
    → find_span w starts size ≡ some (a, b)
    → (entry : Seg) × (w ≡ some entry) × IsSpan entry starts size a b
unfolding find_span
find_span-IsSpan none starts size a b h = absurd (cc h)
find_span-IsSpan (some w) starts size a b h = (w, refl, span_of-IsSpan w starts size a b h)

splice_root-Edited :
    (yaml : Yaml) (s : Text) (data_tree : Value) (edit : Edit) (column : ℕ)
    (starts : List (Seg × ℕ)) (kind : EditKind) (out : Text)
    → kind ≢ append
    → splice_root yaml s data_tree edit column starts kind ≡ some out
    → Edited yaml s data_tree edit column starts kind out
unfolding splice_root
splice_root-Edited yaml s data_tree edit column starts append out n h = absurd (n refl)
splice_root-Edited yaml s data_tree edit column starts kind out n h =
    elim (Option-cases (find_span edit.where_at starts (length s))) [
      | inl e ↦ absurd (ground (arith, e, h))
      | inr ((a, b), e) ↦
          let (entry, named, span) = find_span-IsSpan edit.where_at starts (length s) a b e in
          let (block, replaced, keeps) =
            edit_entry-keeps _ yaml s data_tree edit column a b out n (ground (arith, e, h)) in
          (entry, a, b, block, named, span, replaced, keeps)
    ]

splice_empty-none :
    (yaml : Yaml) (s : Text) (data_tree : Value) (edit : Edit) (kind : EditKind) (out : Text)
    → kind ≢ append
    → splice_empty yaml s data_tree edit kind ≡ some out
    → ⊥
unfolding splice_empty
splice_empty-none yaml s data_tree edit append out n h = n refl
splice_empty-none yaml s data_tree edit _ out n h = cc

splice_node-IsEntryEdit :
    (yaml : Yaml) (s : Text) (data_tree : Value) (edit : Edit) (root : Node) (out : Text)
    → edit.kind ≢ append
    → yaml.compose s ≡ some (some root)
    → splice_node yaml s data_tree edit root ≡ some out
    → IsEntryEdit yaml s data_tree edit out
unfolding splice_node
splice_node-IsEntryEdit yaml s data_tree edit root out n composed h =
    elim (Option-cases (entry_line_starts s root)) [
      | inl e ↦ absurd (ground (arith, e, h))
      | inr (starts, e) ↦
          let (entry, start, limit, block, named, span, replaced, keeps) =
            splice_root-Edited yaml s data_tree edit (start_mark root).column starts edit.kind out n
              (ground (arith, e, h)) in
          record {
            root = root;
            composed = composed;
            starts = starts;
            entries = e;
            entry = entry;
            named = named;
            start = start;
            limit = limit;
            span = span;
            line_start = AllLineStarts-own s span.before span.after span.own start (
                subst (AllLineStarts s) span.split_up
                  (entry_line_starts-AllLineStarts s root starts e));
            block = block;
            replaced = replaced;
            keeps = keeps;
          }
    ]

-- A splice that replaces or deletes an entry names one of the entries that the file is composed of,
-- the first with its index or key, and keeps every byte before that entry's first line, which is a
-- line of the file, and every byte from the end of its content on, which is sought up to the first
-- line of the next entry or the end of the file. A deletion puts nothing in between; a replacement puts
-- the emitted entry there, with the entry's own indent, which is blank, and the file's line breaks.
pub splice-IsEntryEdit :
    (yaml : Yaml) (s : Text) (data_tree : Value) (edit : Edit) (out : Text)
    → edit.kind ≢ append
    → splice yaml s data_tree edit ≡ some out
    → IsEntryEdit yaml s data_tree edit out
splice-IsEntryEdit yaml s data_tree edit out n h = elim (Option-cases (yaml.compose s)) [
  | inl e ↦ absurd (unfold splice in ground (arith, e, h))
  | inr (none, e) ↦ absurd (
      unfold splice in
      splice_empty-none yaml s data_tree edit edit.kind out n (ground (arith, e, h)))
  | inr (some root, e) ↦
      splice_node-IsEntryEdit yaml s data_tree edit root out n e
        (unfold splice in ground (arith, e, h))
]

-- What an append adds: a line break where the file does not end in one, and then the entry.
pub record IsAppend (s out : Text) : Type 0 where
  pub added : Text
  pub keeps : out ≡ s ++ added
  pub own_line :
      (s ≡ []) ⊎ ((ends_with_newline s ≡ true) ⊎ (starts_with added (line_ending s) ≡ true))

with_eol-IsAppend : (s added out : Text) → with_eol s ++ added ≡ out → IsAppend s out
unfolding with_eol
with_eol-IsAppend [] added out h = record { added = added; keeps = sym h; own_line = inl refl }
with_eol-IsAppend (c ∷ s) added out h = elim (Bool-cases (ends_with_newline (c ∷ s))) [
  | inl e ↦ record { added = added; keeps = ground (arith, e, h); own_line = inr (inl e) }
  | inr e ↦ record {
    added = line_ending (c ∷ s) ++ added;
    keeps = ground (arith, e, h, append_assoc (c ∷ s) (line_ending (c ∷ s)) added);
    own_line = inr (inr (starts_with-append (line_ending (c ∷ s)) added));
  }
]

append_entry-IsAppend :
    (yaml : Yaml) (s : Text) (data_tree : Value) (edit : Edit) (indent out : Text)
    → append_entry yaml s data_tree edit indent ≡ some out
    → IsAppend s out
unfolding append_entry
append_entry-IsAppend yaml s data_tree edit indent out h =
    elim (Option-cases (entry_block yaml data_tree edit)) [
      | inl e ↦ absurd (ground (arith, e, h))
      | inr (block, e) ↦
          with_eol-IsAppend s (reindent block indent (line_ending s)) out (ground (arith, e, h))
    ]

splice_root-append :
    (yaml : Yaml) (s : Text) (data_tree : Value) (edit : Edit) (column : ℕ)
    (starts : List (Seg × ℕ)) (kind : EditKind)
    → kind ≡ append
    → splice_root yaml s data_tree edit column starts kind
      ≡ append_entry yaml s data_tree edit (spaces column)
unfolding splice_root
splice_root-append yaml s data_tree edit column starts append e = refl
splice_root-append yaml s data_tree edit column starts _ e = cc

splice_node-IsAppend :
    (yaml : Yaml) (s : Text) (data_tree : Value) (edit : Edit) (root : Node) (out : Text)
    → edit.kind ≡ append
    → splice_node yaml s data_tree edit root ≡ some out
    → IsAppend s out
unfolding splice_node
splice_node-IsAppend yaml s data_tree edit root out k h =
    elim (Option-cases (entry_line_starts s root)) [
      | inl e ↦ absurd (ground (arith, e, h))
      | inr (starts, e) ↦
          append_entry-IsAppend yaml s data_tree edit (spaces (start_mark root).column) out (
            sym
              (splice_root-append yaml s data_tree edit (start_mark root).column starts edit.kind k)
            ∙ ground (arith, e, h))
    ]

-- A splice that appends an entry keeps the whole file in front of it, and the entry begins on a line
-- of its own.
pub splice-IsAppend :
    (yaml : Yaml) (s : Text) (data_tree : Value) (edit : Edit) (out : Text)
    → edit.kind ≡ append
    → splice yaml s data_tree edit ≡ some out
    → IsAppend s out
splice-IsAppend yaml s data_tree edit out k h = elim (Option-cases (yaml.compose s)) [
  | inl e ↦ absurd (unfold splice in ground (arith, e, h))
  | inr (none, e) ↦
      append_entry-IsAppend yaml s data_tree edit [] out
        (unfold splice splice_empty in ground (arith, e, h, k))
  | inr (some root, e) ↦
      splice_node-IsAppend yaml s data_tree edit root out k (unfold splice in ground (arith, e, h))
]

-- ===== src/Surgical/Span.antt =====
-- The text arithmetic of src/companion/surgical.py: where an entry's lines begin and end, the line
-- ending of a file, and a block shifted to a column.
pub mod ContentEnd
use hactl_companion.Base.{
  ℕ, zero, suc, ◌+◌, ◌-◌, max, Bool, true, false, Option, none, some, List, [], ◌∷◌, ◌++◌, not,
  ◌&&◌, ◌||◌, Text, codes, newline, eq_text, is_blank, lstrip, starts_with, contains_text, rfind,
  after, slice, leb, ltb, ◌==◌, length, take, if◌then◌else◌,
}
use hactl_companion.Yaml.{
  Seg, key, index, Mark, Scalar, Node, Nodes, Pairs, scalar, sequence, mapping, no_nodes, node,
  no_pairs, pair, start_mark,
}

abbrev pub crlf : Text
crlf = 13 ∷ 10 ∷ []

-- A blank line or a full-line comment: no part of an entry.
unfoldable pub is_filler : Text → Bool
unfolding is_blank lstrip starts_with
is_filler line = is_blank line || starts_with (lstrip line) (codes "#")

-- `max(start, source.rfind("\n", start, end - 1) + 1)`.
unfoldable pub line_start_before : Text → ℕ → ℕ → ℕ
line_start_before source start end = max start (after (rfind source newline start (end - 1)))

-- The loop of `_content_end`, with `fuel` rounds at most.
unfoldable pub content_end_loop : Text → ℕ → ℕ → ℕ → ℕ
content_end_loop source start zero end = end
content_end_loop source start (suc fuel) end =
    let line_start = line_start_before source start end in
    let rest = content_end_loop source start fuel line_start in
    if ltb start end then (if is_filler (slice line_start end source) then rest else end) else end

-- Each round moves the end back, so `limit` rounds are enough.
unfoldable pub content_end : Text → ℕ → ℕ → ℕ
unfolding content_end_loop line_start_before is_filler
content_end source start limit = content_end_loop source start limit limit

unfoldable pub line_ending : Text → Text
unfolding contains_text starts_with
line_ending source = if contains_text crlf source then crlf else newline ∷ []

-- The line breaks of `str.splitlines`.
unfoldable pub is_break : ℕ → Bool
is_break c =
    (leb 10 c && leb c 13) || (leb 28 c && leb c 30) || c == 0x85 || c == 0x2028 || c == 0x2029

-- Whether a line ends behind `c`: not inside a CR LF.
unfoldable pub ends_line : ℕ → Text → Bool
unfolding is_break
ends_line c s = is_break c && not ((c == 13) && starts_with s (newline ∷ []))

-- A character in front of the first line.
unfoldable pub extend_line : ℕ → List Text → List Text
extend_line c [] = (c ∷ []) ∷ []
extend_line c (l ∷ ls) = (c ∷ l) ∷ ls

-- `s.splitlines(keepends=True)`.
unfoldable pub split_lines : Text → List Text
unfolding ends_line extend_line
split_lines [] = []
split_lines (c ∷ s) =
    let rest = split_lines s in if ends_line c s then (c ∷ []) ∷ rest else extend_line c rest

-- `line.endswith("\n")`.
unfoldable pub ends_with_newline : Text → Bool
ends_with_newline [] = false
ends_with_newline (c ∷ []) = c == newline
ends_with_newline (c ∷ d ∷ s) = ends_with_newline (d ∷ s)

-- `indent + line if indent and line.strip() else line`.
unfoldable pub indent_line : Text → Text → Text
indent_line [] line = line
indent_line (c ∷ indent) line = if is_blank line then line else (c ∷ indent) ++ line

-- `line[:-1] + eol if line.endswith("\n") else line`.
unfoldable pub end_line : Text → Text → Text
unfolding ends_with_newline
end_line eol line = if ends_with_newline line then take (length line - 1) line ++ eol else line

unfoldable pub reindent_lines : Text → Text → List Text → Text
unfolding indent_line end_line is_blank eq_text
reindent_lines indent eol [] = []
reindent_lines indent eol (l ∷ ls) =
    (let out = indent_line indent l in if eq_text eol (newline ∷ []) then out else end_line eol out)
    ++ reindent_lines indent eol ls

unfoldable pub reindent : Text → Text → Text → Text
unfolding reindent_lines split_lines
reindent block indent eol = reindent_lines indent eol (split_lines block)

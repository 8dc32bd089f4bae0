-- ===== src/Surgical/Tests.antt =====
-- Runs of src/companion/surgical.py over a small parser, and the theorems at concrete files.
use mathlib.Core.Option.{some-injective}
use hactl_companion.Base.{
  ℕ, ◌+◌, ◌≡◌, refl, true, false, Option, none, some, List, [], ◌∷◌, arith, Text, codes, eq_text,
  is_blank, is_space, lstrip, starts_with, contains_text, rfind, split, split_step, if◌then◌else◌,
  lower, mem_text, inl, inr,
}
use hactl_companion.Base.{Bool-cases, subst, sym, ◌∙◌}
use hactl_companion.Files.{eq_path_iff}
use hactl_companion.Http.{ok}
use hactl_companion.PathGuard.{
  FilePath, is_within, relative_to, is_denied_path, is_denied, is_denied_dir, name, confined,
  confine, render, body,
}
use hactl_companion.PathGuard.Lexical.{lexical, lexical-IsResolving}
use hactl_companion.Files.{Disk, read, write, paths, eq_path}
use hactl_companion.Backups.{
  parent, backup_dir, backup_path, is_backup_of, lt_text, sort_paths, insert_path, filter_backups,
  backups, unlink_each, prune_backups, back_up, make_backup,
}
use hactl_companion.Yaml.{
  Yaml, Value, Node, Mark, bare, str, seq, nil, cons, done, scalar, sequence, no_nodes, node, index,
  start_mark, flow_style,
}
use hactl_companion.Yaml.Plain.{plain, eq_plain}
use hactl_companion.Surgical.Span.{
  is_filler, line_start_before, content_end_loop, content_end, line_ending, is_break, ends_line,
  extend_line, split_lines, ends_with_newline, indent_line, end_line, reindent_lines, reindent,
}
use hactl_companion.Surgical.Span.ContentEnd.{IsContentEnd, content_end-IsContentEnd}
use hactl_companion.Surgical.Splice.{
  Edit, EditKind, replace, delete, append, eq_seg, sequence_anchors, dash_before, line_of,
  entry_start, put_start, collect_starts, entry_line_starts, item_at, last_item, one_item, payload,
  trimmed, entry_block, with_eol, append_entry, span_of, find_span, replace_span, replace_entry,
  edit_entry, splice_root, splice_empty, splice_node, splice,
}
use hactl_companion.Surgical.Splice.Frame.{
  IsEntryEdit, IsAppend, splice-IsEntryEdit, splice-IsAppend,
}
use hactl_companion.Surgical.Verify.{parses_back_to, verified, ParsesBack}
use hactl_companion.Surgical.Leaves.{
  Rewrite, Span, node_item, child, node_at, is_block, scalar_body_start, put_span, add_span,
  collect_spans, prepend, agree, pieces, splice_spans, splice_leaves,
}
use hactl_companion.Surgical.Leaves.Tiles.{IsForward, IsLeafEdit, splice_leaves-IsLeafEdit}
use hactl_companion.Surgical.Save.{contained, write_file, after_backup, save_target, save_entry}
use hactl_companion.Surgical.Save.Safety.{
  Written, save_entry-Written, save_entry-backup, save_entry-frame,
}

-- A list of two items, with a comment that belongs to the second.
abbrev file_text : Text
file_text = codes "- a\n\n# two\n- b\n"

abbrev mark : ℕ → ℕ → Mark
mark o c = record { offset = o; column = c }

abbrev leaf : ℕ → Text → Node
leaf o t =
    scalar (record { start_mark = mark o 2; end_mark = mark (o + 1) 3; style = bare; value = t })

abbrev root : Node
root = sequence (mark 0 0) false (node (leaf 2 (codes "a")) (node (leaf 13 (codes "b")) no_nodes))

abbrev list_of : Text → Text → Value
list_of s t = seq (cons (str bare s) (cons (str bare t) nil))

abbrev only_b : Value
only_b = seq (cons (str bare (codes "b")) nil)

abbrev without_a : Text
without_a = codes "\n# two\n- b\n"

abbrev with_c : Text
with_c = codes "- a\n\n# two\n- b\n- c\n"

-- A parser that knows the texts of the tests.
parser : Yaml
parser = record {
  compose = λ t. some (some root);
  load = λ t. if eq_text t without_a then some only_b else some (list_of (codes "a") (codes "c"));
  dump = λ v. done (codes "- c\n# after\n");
}

abbrev edit_of : EditKind → ℕ → Edit
edit_of k i = record { kind = k; where_at = some (index i) }

runs : Edit → Value → Option Text
unfolding parser splice splice_node splice_root splice_empty start_mark flow_style entry_line_starts
    collect_starts entry_start dash_before line_of put_start sequence_anchors eq_seg rfind is_blank
    is_space eq_text append_entry entry_block payload item_at last_item one_item trimmed content_end
    content_end_loop line_start_before is_filler lstrip starts_with line_ending contains_text
    split_lines ends_line is_break extend_line ends_with_newline indent_line end_line reindent_lines
    reindent with_eol span_of find_span replace_span replace_entry edit_entry
runs edit wanted = splice parser file_text wanted edit

deletes_one : runs (edit_of delete 0) only_b ≡ some without_a
unfolding runs
deletes_one = refl

replaces_one :
    runs (edit_of replace 1) (list_of (codes "a") (codes "c")) ≡ some (codes "- a\n\n# two\n- c\n")
unfolding runs
replaces_one = refl

appends_one :
    runs (record { kind = append; where_at = none }) (list_of (codes "a") (codes "c")) ≡ some with_c
unfolding runs
appends_one = refl

content_end-IsContentEnd_example : IsContentEnd file_text 0 11 4
unfolding runs
content_end-IsContentEnd_example = content_end-IsContentEnd file_text 0 11 (omega arith)

splice-IsEntryEdit_example : IsEntryEdit parser file_text only_b (edit_of delete 0) without_a
unfolding runs
splice-IsEntryEdit_example =
    splice-IsEntryEdit parser file_text only_b (edit_of delete 0) without_a (λ e. cc) refl

splice-IsAppend_example : IsAppend file_text with_c
unfolding runs
splice-IsAppend_example =
    splice-IsAppend parser file_text (list_of (codes "a") (codes "c"))
      (record { kind = append; where_at = none }) with_c refl refl

abbrev b_span : List Span
b_span =
    (
      13,
      14,
      record { start_mark = mark 13 2; end_mark = mark 14 3; style = bare; value = codes "b" },
    )
    ∷ []

abbrev to_c : Rewrite
to_c t = if eq_text t (codes "b") then (codes "c", 1) else (t, 0)

collected : collect_spans root ((index 1 ∷ []) ∷ []) [] ≡ some b_span
unfolding collect_spans add_span put_span node_at child node_item
collected = refl

spliced_b :
    splice_leaves parser file_text (list_of (codes "a") (codes "c")) ((index 1 ∷ []) ∷ []) to_c
    ≡ some (codes "- a\n\n# two\n- c\n")
unfolding parser splice_leaves splice_spans verified parses_back_to plain eq_plain eq_text pieces
    scalar_body_start is_block prepend agree collect_spans add_span put_span node_at child node_item
spliced_b = refl

splice_leaves-IsLeafEdit_example :
    ((spans : List Span) × (collect_spans root ((index 1 ∷ []) ∷ []) [] ≡ some spans)
      × IsLeafEdit file_text to_c 0 spans (codes "- a\n\n# two\n- c\n"))
    × ParsesBack parser (codes "- a\n\n# two\n- c\n") (list_of (codes "a") (codes "c"))
splice_leaves-IsLeafEdit_example =
    splice_leaves-IsLeafEdit parser file_text (list_of (codes "a") (codes "c"))
      ((index 1 ∷ []) ∷ []) to_c root (codes "- a\n\n# two\n- c\n") (unfold parser in refl)
      (λ spans e. subst IsForward (some-injective _ _ (sym collected ∙ e)) (omega arith, tt))
      spliced_b

abbrev target : FilePath
target = codes "config" ∷ codes "a.yaml" ∷ []

abbrev path : Text
path = codes "/config/a.yaml"

abbrev volume : Disk
volume = (target, file_text) ∷ []

abbrev other : FilePath
other = codes "config" ∷ codes "b.yaml" ∷ []

inside : contained lexical (codes "/config") path ≡ ok target
unfolding contained lexical is_within relative_to is_denied_path is_denied is_denied_dir name split
    split_step starts_with eq_text lower mem_text
inside = refl

rooted : lexical.realpath (codes "/config") ≡ codes "config" ∷ []
unfolding lexical split split_step
rooted = refl

save_entry-Written_example :
    (t : Text) × (read target
        (save_entry lexical parser
          (codes "/config")
          (codes "1")
          path
          only_b
          file_text
          (edit_of delete 0)
          volume).1
      ≡ some t)
    × Written parser only_b true t
save_entry-Written_example =
    save_entry-Written lexical parser (codes "/config") (codes "1") path only_b file_text
      (edit_of delete 0) volume (codes "config") [] lexical-IsResolving rooted target inside true
      (unfold runs save_entry save_target after_backup write_file verified parses_back_to plain
          eq_plain contained lexical is_within relative_to is_denied_path is_denied is_denied_dir
          name split split_step lower mem_text make_backup confine confined render body read write
          eq_path back_up prune_backups unlink_each backups sort_paths insert_path lt_text
          filter_backups is_backup_of paths backup_dir parent in
        refl)

save_entry-backup_example :
    read
      (backup_path target (codes "1"))
      (save_entry lexical parser
        (codes "/config")
        (codes "1")
        path
        only_b
        file_text
        (edit_of delete 0)
        volume).1
    ≡ some file_text
save_entry-backup_example =
    save_entry-backup lexical parser (codes "/config") (codes "1") path only_b file_text
      (edit_of delete 0) volume (codes "config") [] lexical-IsResolving rooted target inside
      file_text (unfold read eq_path eq_text in refl)
      (unfold read eq_path eq_text backup_dir parent name in refl)
      (λ q b h. elim (Bool-cases (eq_path target q)) [
        | inl e ↦ absurd (
            unfold is_backup_of parent backup_dir name eq_path eq_text in
            cc (subst (λ x. is_backup_of target x ≡ true) (sym ((eq_path_iff target q).0 e)) b))
        | inr e ↦ absurd (h (unfold read in ground (arith, e)))
      ])

save_entry-frame_example :
    read other
      (save_entry lexical parser
        (codes "/config")
        (codes "1")
        path
        only_b
        file_text
        (edit_of delete 0)
        volume).1
    ≡ read other volume
save_entry-frame_example =
    save_entry-frame lexical parser (codes "/config") (codes "1") path only_b file_text
      (edit_of delete 0) volume (codes "config") [] lexical-IsResolving rooted target inside other
      (λ e. ground (arith, e)) (unfold is_backup_of parent backup_dir name eq_path eq_text in refl)

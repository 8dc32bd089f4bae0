-- ===== src/RefGrep.antt =====
-- The search of src/companion/refgrep.py over the trees that a walk yields: its candidates, the literal
-- match and the report. `simple_lower` of a character is a parameter; the regular expressions, which a
-- process of their own runs, are not modelled.
pub mod Report
mod Tests
use hactl_companion.Base.{
  ℕ, zero, suc, ◌+◌, leb, ltb, Bool, true, false, not, ◌&&◌, ◌||◌, Option, none, some, List, [],
  ◌∷◌, ◌++◌, Text, codes, eq_text, contains_text, is_blank, length, take, map, if◌then◌else◌,
}
use hactl_companion.Http.{HttpError, bad_request, Result, ok, err}
use hactl_companion.PathGuard.{FilePath}
use hactl_companion.Backups.{lt_text}
use hactl_companion.Yaml.{
  Value, Items, Fields, null, atom, str, tagged, seq, nil, cons, end, field, Seg, key, index,
}
use hactl_companion.Yaml
use hactl_companion.RefScan.Tree.{TreePath, render_path}

abbrev pub hit_cap : ℕ
hit_cap = 1000

abbrev pub min_literal_len : ℕ
min_literal_len = 2

-- `KIND_KEY` and `KIND_VALUE`.
pub data HitKind : Type 0 where
  key_hit value_hit : HitKind

unfoldable pub kind_text : HitKind → Text
kind_text key_hit = codes "key"
kind_text value_hit = codes "value"

pub record Candidate : Type 0 where
  pub location : Text
  pub path : TreePath
  pub nearest_key : Text
  pub kind : HitKind
  pub text : Text

-- `validate_term` of a literal: the message is left out.
unfoldable pub validate_literal : Text → Result Text
validate_literal term =
    if is_blank term
    then err (bad_request (codes "Missing term parameter"))
    else if ltb (length term) min_literal_len
    then err (bad_request (codes "term is too short"))
    else ok term

-- `_candidates`: the values, and the keys before what they hold.
unfoldable mutual
  pub candidates : Value → Text → TreePath → Text → List Candidate
  candidates (str style t) at path name =
      record { location = at; path = path; nearest_key = name; kind = value_hit; text = t } ∷ []
  candidates (seq items) at path name = item_candidates 0 items at path name
  candidates (Yaml.map fields) at path name = field_candidates fields at path
  candidates v at path name = []

  pub item_candidates : ℕ → Items → Text → TreePath → Text → List Candidate
  item_candidates i nil at path name = []
  item_candidates i (cons item items) at path name =
      candidates item at (path ++ index i ∷ []) name ++ item_candidates (suc i) items at path name

  pub field_candidates : Fields → Text → TreePath → List Candidate
  field_candidates end at path = []
  field_candidates (field k v fields) at path =
      record {
        location = at;
        path = path ++ key k.text ∷ [];
        nearest_key = k.text;
        kind = key_hit;
        text = k.text;
      }
      ∷ (candidates v at (path ++ key k.text ∷ []) k.text ++ field_candidates fields at path)

-- `collect_candidates`, over what the walk has yielded.
unfoldable pub collect_candidates : List (Text × Value) → List Candidate
unfolding candidates
collect_candidates [] = []
collect_candidates ((at, tree) ∷ found) = candidates tree at [] [] ++ collect_candidates found

unfoldable pub matching : (Candidate → Bool) → List Candidate → List Candidate
matching p [] = []
matching p (c ∷ cs) = let rest = matching p cs in if p c then c ∷ rest else rest

-- `literal_matches`; `lower_char` is the table of `simple_lower`.
unfoldable pub literal_matches : (ℕ → ℕ) → List Candidate → Text → Bool → List Candidate
unfolding matching contains_text
literal_matches lower_char cs term true = matching (λ c. contains_text term c.text) cs
literal_matches lower_char cs term false =
    matching (λ c. contains_text (map lower_char term) (map lower_char c.text)) cs

-- `_sort_key`, and the order of `sorted` on it.
unfoldable pub sorts_before : Candidate → Candidate → Bool
unfolding lt_text kind_text
sorts_before a b =
    lt_text a.location b.location
    || (eq_text a.location b.location
        && (lt_text (render_path a.path) (render_path b.path)
            || (eq_text (render_path a.path) (render_path b.path)
                && lt_text (kind_text a.kind) (kind_text b.kind))))

unfoldable pub insert_candidate : Candidate → List Candidate → List Candidate
unfolding sorts_before
insert_candidate c [] = c ∷ []
insert_candidate c (e ∷ es) =
    let rest = insert_candidate c es in if sorts_before e c then e ∷ rest else c ∷ e ∷ es

unfoldable pub sort_candidates : List Candidate → List Candidate
unfolding insert_candidate
sort_candidates [] = []
sort_candidates (c ∷ cs) = insert_candidate c (sort_candidates cs)

pub record GrepHit : Type 0 where
  pub hit_location : Text
  pub hit_path : Text
  pub hit_key : Text
  pub hit_kind : Text
  pub hit_text : Text

unfoldable pub hit_of : Candidate → GrepHit
unfolding kind_text
hit_of c = record {
  hit_location = c.location;
  hit_path = render_path c.path;
  hit_key = c.nearest_key;
  hit_kind = kind_text c.kind;
  hit_text = c.text;
}

-- `SourceCount`: the file, its hits at keys, and its hits at values.
abbrev pub SourceCount : Type 0
SourceCount = Text × ℕ × ℕ

unfoldable pub one_more : HitKind → ℕ × ℕ → ℕ × ℕ
one_more key_hit (keys, values) = (keys + 1, values)
one_more value_hit (keys, values) = (keys, values + 1)

abbrev pub counts_of : Text → ℕ × ℕ → SourceCount
counts_of at (keys, values) = (at, keys, values)

-- `per_file.setdefault(…)` and the count, in the order of the files.
unfoldable pub count_hit : Candidate → List SourceCount → List SourceCount
unfolding one_more lt_text
count_hit c [] = counts_of c.location (one_more c.kind (0, 0)) ∷ []
count_hit c ((at, keys, values) ∷ counts) =
    let rest = count_hit c counts in
    if eq_text c.location at
    then counts_of at (one_more c.kind (keys, values)) ∷ counts
    else if lt_text at c.location
    then (at, keys, values) ∷ rest
    else counts_of c.location (one_more c.kind (0, 0)) ∷ (at, keys, values) ∷ counts

unfoldable pub count_hits : List Candidate → List SourceCount
unfolding count_hit
count_hits [] = []
count_hits (c ∷ cs) = count_hit c (count_hits cs)

pub record GrepResult : Type 0 where
  pub hits : List GrepHit
  pub total : ℕ
  pub sources : List SourceCount

unfoldable pub summarise : List Candidate → ℕ → GrepResult
unfolding sort_candidates count_hits hit_of
summarise matches cap =
    let ordered = sort_candidates matches in
    record {
      hits = map hit_of (take cap ordered);
      total = length ordered;
      sources = count_hits ordered;
    }

unfoldable pub truncated : GrepResult → Bool
truncated r = ltb (length r.hits) r.total

-- `grep_config` of a literal, over what the walk has yielded.
unfoldable pub grep_literal : (ℕ → ℕ) → List (Text × Value) → Text → Bool → ℕ → Result GrepResult
unfolding summarise literal_matches collect_candidates validate_literal
grep_literal lower_char found term case_sensitive cap = elim (validate_literal term) [
  | err e ↦ err e
  | ok t ↦
      ok (summarise (literal_matches lower_char (collect_candidates found) t case_sensitive) cap)
]

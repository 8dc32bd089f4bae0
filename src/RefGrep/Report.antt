-- ===== src/RefGrep/Report.antt =====
-- The report of a search (src/companion/refgrep.py) accounts for every match, also beyond the cap.
use hactl_companion.Base.{
  ℕ, suc, ◌+◌, ◌≡◌, ◌∙◌, refl, ap, ltb, List, [], ◌∷◌, arith, length, take, map, min, length-take,
}
use hactl_companion.RefGrep.{
  Candidate, HitKind, key_hit, value_hit, insert_candidate, sort_candidates, hit_of, SourceCount,
  one_more, count_hit, count_hits, summarise, truncated,
}

-- All hits of all files.
abbrev pub counted : List SourceCount → ℕ
counted [] = 0
counted ((at, keys, values) ∷ counts) = (keys + values) + counted counts

length-insert_candidate :
    (c : Candidate) (cs : List Candidate) → length (insert_candidate c cs) ≡ suc (length cs)
unfolding insert_candidate
length-insert_candidate c [] = refl
length-insert_candidate c (e ∷ cs) = ground (arith, length-insert_candidate c cs)

length-sort_candidates : (cs : List Candidate) → length (sort_candidates cs) ≡ length cs
unfolding sort_candidates
length-sort_candidates [] = refl
length-sort_candidates (c ∷ cs) =
    length-insert_candidate c (sort_candidates cs) ∙ ap suc (length-sort_candidates cs)

counted-one_more :
    (kind : HitKind) (keys values : ℕ)
    → (one_more kind (keys, values)).0 + (one_more kind (keys, values)).1 ≡ suc (keys + values)
unfolding one_more
counted-one_more key_hit keys values = omega arith
counted-one_more value_hit keys values = omega arith

counted-count_hit :
    (c : Candidate) (counts : List SourceCount)
    → counted (count_hit c counts) ≡ suc (counted counts)
unfolding count_hit
counted-count_hit c [] = omega (arith, counted-one_more c.kind 0 0)
counted-count_hit c ((at, keys, values) ∷ counts) = ground (
  arith,
  counted-count_hit c counts,
  counted-one_more c.kind 0 0,
  counted-one_more c.kind keys values,
)

counted-count_hits : (cs : List Candidate) → counted (count_hits cs) ≡ length cs
unfolding count_hits
counted-count_hits [] = refl
counted-count_hits (c ∷ cs) = counted-count_hit c (count_hits cs) ∙ ap suc (counted-count_hits cs)

length-map_hits : (cs : List Candidate) → length (map hit_of cs) ≡ length cs
length-map_hits [] = refl
length-map_hits (c ∷ cs) = ap suc (length-map_hits cs)

-- The report counts every match, whatever the cap: the total is their number, the counts of the files
-- add up to it, the hits are as many as the cap allows, and the report says that it is cut off exactly
-- if there are more matches than that.
pub summarise-accounts :
    (matches : List Candidate) (cap : ℕ)
    → ((summarise matches cap).total ≡ length matches)
      × (counted (summarise matches cap).sources ≡ length matches)
      × (length (summarise matches cap).hits ≡ min cap (length matches))
      × (truncated (summarise matches cap) ≡ ltb cap (length matches))
unfolding summarise truncated
summarise-accounts matches cap =
    let ordered = sort_candidates matches in
    let shown : length (map hit_of (take cap ordered)) ≡ min cap (length matches) =
      length-map_hits (take cap ordered)
      ∙ (length-take cap ordered ∙ ap (min cap) (length-sort_candidates matches)) in
    (
      length-sort_candidates matches,
      counted-count_hits ordered ∙ length-sort_candidates matches,
      shown,
      grind (arith, shown, length-sort_candidates matches),
    )

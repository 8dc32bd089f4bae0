-- ===== src/RefScan/Walk/Terminates.antt =====
-- The walk over the include graph (src/companion/refscan.py) ends.
use hactl_companion.Base.{
  ℕ, zero, suc, ◌+◌, ◌*◌, ◌≤◌, ◌≡◌, ◌≢◌, refl, sym, ap, subst, ◌∙◌, true, false, List, [], ◌∷◌,
  arith, Text, length, length-append, Bool-cases, inl, inr, if◌then◌else◌,
}
use hactl_companion.PathGuard.{FilePath}
use hactl_companion.Files.{eq_path, eq_path_iff, eq_path_refl}
use hactl_companion.RefScan.Walk.{
  seen_in, Visit, passed_over, unread, crashed, read_tree, WalkState, WalkEnd, done, raised,
  out_of_fuel, ConfigGraph, visited, walk_round, next_state, walk_loop, start_at, walk, SkippedFile,
  walk_config, most_included, included_by,
}
use hactl_companion.Yaml.{Value}

-- The number of includes that the files not yet seen can still bring, `width` for each.
pub room : ℕ → List FilePath → List FilePath → ℕ
room width seen [] = 0
room width seen (p ∷ files) =
    let rest = room width seen files in if seen_in p seen then rest else width + rest

pub room_start : (width : ℕ) (files : List FilePath) → room width [] files ≤ length files * width
unfolding room
room_start width [] = omega arith
room_start width (p ∷ files) = grind (arith, room_start width files)

room_shrinks :
    (width : ℕ) (p : FilePath) (seen files : List FilePath)
    → room width (p ∷ seen) files ≤ room width seen files
unfolding room
room_shrinks width p seen [] = omega arith
room_shrinks width p seen (q ∷ files) = ground (arith, room_shrinks width p seen files)

pub room_taken :
    (width : ℕ) (p : FilePath) (seen files : List FilePath)
    → seen_in p seen ≡ false
    → seen_in p files ≡ true
    → room width (p ∷ seen) files + width ≤ room width seen files
unfolding room
room_taken width p seen [] fresh m = cc m
room_taken width p seen (q ∷ files) fresh m = elim (Bool-cases (eq_path p q)) [
  | inl e ↦
      let same : p ≡ q = (eq_path_iff p q).0 e in
      ground
        (arith, room_shrinks width p seen files, eq_path_refl p, fresh, same, seen_in_same p q same)
  | inr e ↦ ground (arith, room_taken width p seen files, m, e, fresh)
]
  where
    seen_in_same : (p q : FilePath) → p ≡ q → seen_in q seen ≡ seen_in p seen
    seen_in_same p q e = ap (λ x. seen_in x seen) (sym e)

module _ (g : ConfigGraph) (width : ℕ) (files : List FilePath)
    (bounded : (p : FilePath) (tree : Value) (names : List Text) (lost : List SkippedFile)
      → g.is_file p ≡ true
      → g.visit p ≡ read_tree tree names lost
      → length names ≤ width)
    (finite : (p : FilePath) → g.is_file p ≡ true → seen_in p files ≡ true) where
  visit_shrinks :
      (p : FilePath) (rest : List Text) (s s' : WalkState) (v : Visit)
      → seen_in p s.seen ≡ false
      → g.is_file p ≡ true
      → g.visit p ≡ v
      → visited g p rest s v ≡ done s'
      → length s'.queue + room width s'.seen files ≤ length rest + room width s.seen files
  unfolding visited
  visit_shrinks p rest s s' passed_over fresh there e h =
      ground (arith, h, room_shrinks width p s.seen files)
  visit_shrinks p rest s s' (unread reason) fresh there e h =
      ground (arith, h, room_shrinks width p s.seen files)
  visit_shrinks p rest s s' (crashed x) fresh there e h = absurd (ground (arith, h))
  visit_shrinks p rest s s' (read_tree tree names lost) fresh there e h = ground (
    arith,
    h,
    room_taken width p s.seen files fresh (finite p there),
    bounded p tree names lost there e,
    length-append rest names,
  )

  round_shrinks :
      (rel : Text) (rest : List Text) (s s' : WalkState)
      → walk_round g rel rest s ≡ done s'
      → length s'.queue + room width s'.seen files ≤ length rest + room width s.seen files
  unfolding walk_round
  round_shrinks rel rest s s' h = elim (Bool-cases (seen_in (g.resolve rel) s.seen)) [
    | inl old ↦ ground (arith, h, old)
    | inr fresh ↦ elim (Bool-cases (g.is_file (g.resolve rel))) [
      | inl there ↦
          visit_shrinks (g.resolve rel) rest s s' (g.visit (g.resolve rel)) fresh there refl
            (rw (walk_round, fresh, there) at h)
      | inr absent ↦ ground (arith, h, fresh, absent)
    ]
  ]

  visited_ends :
      (p : FilePath) (rest : List Text) (s : WalkState) (v : Visit)
      → visited g p rest s v ≢ out_of_fuel
  unfolding visited
  visited_ends p rest s passed_over = λ h. cc h
  visited_ends p rest s (unread reason) = λ h. cc h
  visited_ends p rest s (crashed e) = λ h. cc h
  visited_ends p rest s (read_tree tree names lost) = λ h. cc h

  round_ends :
      (rel : Text) (rest : List Text) (s : WalkState) → walk_round g rel rest s ≢ out_of_fuel
  unfolding walk_round
  round_ends rel rest s =
      ground (arith, visited_ends (g.resolve rel) rest s (g.visit (g.resolve rel)))

  next_state_ends :
      (after : WalkState → WalkEnd) (r : WalkEnd)
      → r ≢ out_of_fuel
      → ((s : WalkState) → r ≡ done s → after s ≢ out_of_fuel)
      → next_state g after r ≢ out_of_fuel
  unfolding next_state
  next_state_ends after (done s) ends later = later s refl
  next_state_ends after (raised e) ends later = λ h. cc h
  next_state_ends after out_of_fuel ends later = ends

  walk_loop_ends :
      (fuel : ℕ) (queue : List Text) (s : WalkState)
      → length queue + room width s.seen files ≤ fuel
      → walk_loop g fuel queue s ≢ out_of_fuel
  unfolding walk_loop
  walk_loop_ends zero [] s enough = λ h. cc h
  walk_loop_ends (suc fuel) [] s enough = λ h. cc h
  walk_loop_ends zero (rel ∷ rest) s enough = absurd (omega arith)
  walk_loop_ends (suc fuel) (rel ∷ rest) s enough =
      next_state_ends (λ s'. walk_loop g fuel s'.queue s') (walk_round g rel rest s)
        (round_ends rel rest s)
        (λ s' e. walk_loop_ends fuel s'.queue s' (omega (arith, round_shrinks rel rest s s' e)))

  enough_fuel :
      (fuel : ℕ) (entry : Text) → 1 + length files * width ≤ fuel → walk g fuel entry ≢ out_of_fuel
  unfolding walk
  enough_fuel fuel entry enough =
      walk_loop_ends fuel (entry ∷ []) (start_at g entry) (omega (arith, room_start width files))

included_by_read :
    (tree : Value) (names : List Text) (lost : List SkippedFile)
    → included_by (read_tree tree names lost) ≡ length names
unfolding included_by
included_by_read tree names lost = refl

most_included-bounds :
    (g : ConfigGraph) (files : List FilePath) (p : FilePath)
    → seen_in p files ≡ true
    → included_by (g.visit p) ≤ most_included g files
unfolding most_included
most_included-bounds g [] p m = absurd (cc m)
most_included-bounds g (q ∷ files) p m = elim (Bool-cases (eq_path p q)) [
  | inl e ↦ ground (arith, (eq_path_iff p q).0 e)
  | inr e ↦ ground (arith, m, e, most_included-bounds g files p (ground (arith, m, e)))
]

-- The walk ends, also where files include one another in a circle: it comes to its end or to an
-- exception within a round for the entry and, for each file, as many rounds as the file with the most
-- includes has. All the files that are there are in the list that the rounds are counted by.
pub walk_terminates :
    (g : ConfigGraph) (files : List FilePath) (entry : Text)
    → ((p : FilePath) → g.is_file p ≡ true → seen_in p files ≡ true)
    → walk_config g files entry ≢ out_of_fuel
unfolding walk_config
walk_terminates g files entry finite =
    enough_fuel g (most_included g files) files
      (λ p tree names lost there e.
        subst (λ n. n ≤ most_included g files) (ap included_by e ∙ included_by_read tree names lost)
          (most_included-bounds g files p (finite p there)))
      finite (1 + length files * most_included g files) entry (omega arith)

-- ===== src/RefScan/Walk/Found.antt =====
-- What the walk (src/companion/refscan.py) has yielded comes from the visits.
use hactl_companion.Base.{
  ℕ, zero, suc, ◌≡◌, refl, subst, List, [], ◌∷◌, ◌++◌, arith, Text, Bool-cases, inl, inr,
}
use hactl_companion.PathGuard.{FilePath}
use hactl_companion.Yaml.{Value}
use hactl_companion.RefScan.Walk.{
  SkippedFile, seen_in, Visit, passed_over, unread, crashed, read_tree, WalkState, done,
  ConfigGraph, visited, walk_round, walk_loop, start_at, walk,
}
use hactl_companion.RefScan.Walk.Complete.{next_state_done}

-- Every file of the list has the tree that its visit gives.
abbrev pub AllVisited : ConfigGraph → List (FilePath × Value) → Type 0
AllVisited g [] = Unit
AllVisited g ((p, tree) ∷ found) =
    ((names : List Text) × (lost : List SkippedFile) × (g.visit p ≡ read_tree tree names lost))
    × AllVisited g found

module _ (g : ConfigGraph) where
  AllVisited-last :
      (found : List (FilePath × Value)) (p : FilePath) (tree : Value) (names : List Text)
      (lost : List SkippedFile)
      → AllVisited g found
      → g.visit p ≡ read_tree tree names lost
      → AllVisited g (found ++ (p, tree) ∷ [])
  AllVisited-last [] p tree names lost all e = ((names, lost, e), tt)
  AllVisited-last ((q, t) ∷ found) p tree names lost (here, all) e =
      (here, AllVisited-last found p tree names lost all e)

  visited-AllVisited :
      (p : FilePath) (rest : List Text) (s s' : WalkState) (v : Visit)
      → g.visit p ≡ v
      → visited g p rest s v ≡ done s'
      → AllVisited g s.found
      → AllVisited g s'.found
  unfolding visited
  visited-AllVisited p rest s s' passed_over e h all = subst (AllVisited g) (cc h) all
  visited-AllVisited p rest s s' (unread reason) e h all = subst (AllVisited g) (cc h) all
  visited-AllVisited p rest s s' (crashed x) e h all = absurd (cc h)
  visited-AllVisited p rest s s' (read_tree tree names lost) e h all =
      subst (AllVisited g) (cc h) (AllVisited-last s.found p tree names lost all e)

  round-AllVisited :
      (rel : Text) (rest : List Text) (s s' : WalkState)
      → walk_round g rel rest s ≡ done s'
      → AllVisited g s.found
      → AllVisited g s'.found
  unfolding walk_round
  round-AllVisited rel rest s s' h all = elim (Bool-cases (seen_in (g.resolve rel) s.seen)) [
    | inl old ↦ subst (AllVisited g) (ground (arith, h, old)) all
    | inr fresh ↦ elim (Bool-cases (g.is_file (g.resolve rel))) [
      | inl there ↦
          visited-AllVisited (g.resolve rel) rest s s' (g.visit (g.resolve rel)) refl
            (rw (walk_round, fresh, there) at h) all
      | inr absent ↦ subst (AllVisited g) (ground (arith, h, fresh, absent)) all
    ]
  ]

  loop-AllVisited :
      (fuel : ℕ) (queue : List Text) (s t : WalkState)
      → walk_loop g fuel queue s ≡ done t
      → AllVisited g s.found
      → AllVisited g t.found
  unfolding walk_loop
  loop-AllVisited fuel [] s t h all = subst (AllVisited g) (cc h) all
  loop-AllVisited zero (rel ∷ rest) s t h all = absurd (cc h)
  loop-AllVisited (suc fuel) (rel ∷ rest) s t h all =
      let (s', e, k) =
        next_state_done g (λ s'. walk_loop g fuel s'.queue s') (walk_round g rel rest s) t h in
      loop-AllVisited fuel s'.queue s' t k (round-AllVisited rel rest s s' e all)

  -- Every file that was yielded comes with the tree that its visit gave.
  pub walk-AllVisited :
      (fuel : ℕ) (entry : Text) (t : WalkState) → walk g fuel entry ≡ done t → AllVisited g t.found
  unfolding walk
  walk-AllVisited fuel entry t h = loop-AllVisited fuel (entry ∷ []) (start_at g entry) t h tt

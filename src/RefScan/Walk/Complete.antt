-- ===== src/RefScan/Walk/Complete.antt =====
-- No file drops out of the walk (src/companion/refscan.py) without a trace: every name that the include
-- graph reaches is yielded, or it is in the log with the reason.
use hactl_companion.Base.{
  ℕ, zero, suc, ◌≡◌, refl, sym, subst, true, false, List, [], ◌∷◌, arith, Text, eq_text,
  eq_text_iff, eq_text_refl, Bool-cases, inl, inr, ◌⊎◌, mem_text,
}
use hactl_companion.RefScan.Walk.{
  missing, reason_text, mem_skipped, WalkState, WalkEnd, done, raised, out_of_fuel, ConfigGraph,
  walk_round, next_state, walk_loop, start_at, walk,
}
use hactl_companion.RefScan.Walk.Tracking.{
  Reaches, entry_itself, included, Traced, Handled, IsTracking, Handled-Extends, IsRound,
  IsTracking-round,
}
use hactl_companion.RefScan.Walk.Tracking.Rounds.{walk_round-IsRound}

module _ (g : ConfigGraph) where
  pub next_state_done :
      (after : WalkState → WalkEnd) (r : WalkEnd) (t : WalkState)
      → next_state g after r ≡ done t
      → (s : WalkState) × (r ≡ done s) × (after s ≡ done t)
  unfolding next_state
  next_state_done after (done s) t h = (s, refl, h)
  next_state_done after (raised e) t h = absurd (cc h)
  next_state_done after out_of_fuel t h = absurd (cc h)

  entry_kept :
      (entry rel : Text) (rest : List Text) (s s' : WalkState)
      → IsRound g rel rest s s'
      → Handled g s entry ⊎ (mem_text entry (rel ∷ rest) ≡ true)
      → Handled g s' entry ⊎ (mem_text entry s'.queue ≡ true)
  unfolding mem_text
  entry_kept entry rel rest s s' r (inl old) = inl (Handled-Extends g s s' entry r.extends old)
  entry_kept entry rel rest s s' r (inr waits) = elim (Bool-cases (eq_text entry rel)) [
    | inl e ↦ inl (subst (Handled g s') (sym ((eq_text_iff entry rel).0 e)) r.handled)
    | inr e ↦ inr (r.waits entry (ground (arith, waits, e)))
  ]

  -- What every state that the loop reaches has: all is tracked, and the entry is not forgotten.
  walk_loop-IsTracking :
      (entry : Text) (fuel : ℕ) (queue : List Text) (s t : WalkState)
      → IsTracking g queue s
      → Handled g s entry ⊎ (mem_text entry queue ≡ true)
      → walk_loop g fuel queue s ≡ done t
      → IsTracking g [] t × Handled g t entry
  unfolding walk_loop mem_text
  walk_loop-IsTracking entry fuel [] s t inv (inl there) h =
      let same : s ≡ t = cc h in
      (subst (IsTracking g []) same inv, subst (λ x. Handled g x entry) same there)
  walk_loop-IsTracking entry fuel [] s t inv (inr waits) h = absurd (cc waits)
  walk_loop-IsTracking entry zero (rel ∷ rest) s t inv there h = absurd (cc h)
  walk_loop-IsTracking entry (suc fuel) (rel ∷ rest) s t inv there h =
      let (s', e, k) =
        next_state_done (λ s'. walk_loop g fuel s'.queue s') (walk_round g rel rest s) t h in
      let r = walk_round-IsRound g rel rest s s' e in
      walk_loop-IsTracking entry fuel s'.queue s' t (IsTracking-round g rel rest s s' r inv)
        (entry_kept entry rel rest s s' r there) k

  tracked_start : (entry : Text) → IsTracking g (entry ∷ []) (start_at g entry)
  tracked_start entry = record {
    traced = λ p m. absurd (cc m);
    follows = λ p tree names lost name m. absurd (cc m);
  }

  Reaches-Handled :
      (entry rel : Text) (t : WalkState)
      → IsTracking g [] t
      → Handled g t entry
      → Reaches g entry rel
      → Handled g t rel
  unfolding mem_text
  Reaches-Handled entry rel t inv there entry_itself = there
  Reaches-Handled entry rel t inv there (included r name tree names lost reach exists v m) =
      elim (Reaches-Handled entry r t inv there reach) [
        | inl (absent, logged) ↦ absurd (cc (absent, exists))
        | inr seen ↦ elim (inv.follows (g.resolve r) tree names lost name seen v m) [
          | inl h ↦ h
          | inr w ↦ absurd (cc w)
        ]
      ]

  -- In a walk that comes to its end, every name that the include graph reaches from the entry is
  -- accounted for: there is no such file and the log has it as missing, or its file was seen, and then
  -- its tree was yielded and the log has those of its includes that cannot be followed, or the log has
  -- the reason why not. Files that are passed over unread, because
  -- they cannot hold the text that is searched for, leave no record.
  pub walk_accounts :
      (fuel : ℕ) (entry rel : Text) (t : WalkState)
      → Reaches g entry rel
      → walk g fuel entry ≡ done t
      → ((g.is_file (g.resolve rel) ≡ false)
          × (mem_skipped (g.location (g.resolve rel), reason_text missing) t.skipped ≡ true))
        ⊎ Traced g t (g.resolve rel) (g.visit (g.resolve rel))
  unfolding walk mem_text
  walk_accounts fuel entry rel t reach h =
      let (inv, there) =
        walk_loop-IsTracking entry fuel (entry ∷ []) (start_at g entry) t (tracked_start entry)
          (inr (ground (arith, eq_text_refl entry))) h in
      elim (Reaches-Handled entry rel t inv there reach) [
        | inl absent ↦ inl absent
        | inr seen ↦ inr (inv.traced (g.resolve rel) seen)
      ]

-- ===== src/RefScan/Walk/Tracking.antt =====
-- What a round of the walk (src/companion/refscan.py) must leave behind: every name that the include
-- graph reaches is yielded with the includes of it that are lost in the log, or it is in the log itself.
pub mod Rounds
use hactl_companion.Base.{
  ℕ, zero, suc, ◌≡◌, ◌≢◌, ◌∙◌, refl, sym, ap, subst, Bool, true, false, not, List, [], ◌∷◌, ◌++◌,
  ◌||◌, ◌&&◌, arith, Text, eq_text, eq_text_iff, eq_text_refl, any, Bool-cases, inl, inr, ◌⊎◌,
  if◌then◌else◌, mem_text,
}
use hactl_companion.Http.{HttpError}
use hactl_companion.PathGuard.{FilePath}
use hactl_companion.Files.{eq_path, eq_path_iff, eq_path_refl}
use hactl_companion.Backups.Retention.{any-append}
use hactl_companion.RefScan.Walk.{
  SkipReason, missing, unreadable, unparseable, circular, reason_text, SkippedFile, eq_skipped,
  mem_skipped, seen_in, Visit, passed_over, unread, crashed, read_tree, WalkState, WalkEnd, done,
  raised, out_of_fuel, ConfigGraph, visited, walk_round, next_state, walk_loop, start_at, walk,
}
use hactl_companion.Yaml.{Value}

-- The names that the include graph reaches from the entry.
pub data Reaches (g : ConfigGraph) (entry : Text) : Text → Type 0 where
  entry_itself : Reaches g entry entry
  included :
      (rel name : Text) (tree : Value) (names : List Text) (lost : List SkippedFile)
      → Reaches g entry rel
      → g.is_file (g.resolve rel) ≡ true
      → g.visit (g.resolve rel) ≡ read_tree tree names lost
      → mem_text name names ≡ true
      → Reaches g entry name

abbrev pub yielded : FilePath → List (FilePath × Value) → Bool
yielded p found = any (λ (q : FilePath × Value). eq_path p q.0) found

module _ (g : ConfigGraph) where
  -- What a visit must have left behind.
  abbrev pub Traced : WalkState → FilePath → Visit → Type 0
  Traced s p passed_over = Unit
  Traced s p (unread reason) = mem_skipped (g.location p, reason_text reason) s.skipped ≡ true
  Traced s p (crashed e) = ⊥
  Traced s p (read_tree tree names lost) =
      (yielded p s.found ≡ true)
      × ((r : SkippedFile) → mem_skipped r lost ≡ true → mem_skipped r s.skipped ≡ true)

  -- A name that was taken from the queue.
  abbrev pub Handled : WalkState → Text → Type 0
  Handled s rel =
      ((g.is_file (g.resolve rel) ≡ false)
        × (mem_skipped (g.location (g.resolve rel), reason_text missing) s.skipped ≡ true))
      ⊎ (seen_in (g.resolve rel) s.seen ≡ true)

  -- Each file that was seen is traced, and the names it includes are handled or wait in the queue.
  pub record IsTracking (queue : List Text) (s : WalkState) : Type 0 where
    pub traced : (p : FilePath) → seen_in p s.seen ≡ true → Traced s p (g.visit p)
    pub follows :
        (p : FilePath) (tree : Value) (names : List Text) (lost : List SkippedFile) (name : Text)
        → seen_in p s.seen ≡ true
        → g.visit p ≡ read_tree tree names lost
        → mem_text name names ≡ true
        → Handled s name ⊎ (mem_text name queue ≡ true)

  -- A later state has everything that an earlier one had.
  pub record Extends (s s' : WalkState) : Type 0 where
    pub seen_kept : (p : FilePath) → seen_in p s.seen ≡ true → seen_in p s'.seen ≡ true
    pub log_kept :
        (r : SkippedFile) → mem_skipped r s.skipped ≡ true → mem_skipped r s'.skipped ≡ true
    pub found_kept : (p : FilePath) → yielded p s.found ≡ true → yielded p s'.found ≡ true

  pub Handled-Extends :
      (s s' : WalkState) (rel : Text) → Extends s s' → Handled s rel → Handled s' rel
  Handled-Extends s s' rel ext (inl (absent, logged)) = inl (absent, ext.log_kept _ logged)
  Handled-Extends s s' rel ext (inr seen) = inr (ext.seen_kept _ seen)

  pub Traced-Extends :
      (s s' : WalkState) (p : FilePath) (v : Visit) → Extends s s' → Traced s p v → Traced s' p v
  Traced-Extends s s' p passed_over ext t = tt
  Traced-Extends s s' p (unread reason) ext t = ext.log_kept _ t
  Traced-Extends s s' p (crashed e) ext t = t
  Traced-Extends s s' p (read_tree tree names lost) ext (there, logged) =
      (ext.found_kept p there, λ r m. ext.log_kept r (logged r m))

  -- One round: the earlier state is extended, and at most one file is new, whose name is handled.
  pub record IsRound (rel : Text) (rest : List Text) (s s' : WalkState) : Type 0 where
    pub extends : Extends s s'
    pub handled : Handled s' rel
    pub waits : (name : Text) → mem_text name rest ≡ true → mem_text name s'.queue ≡ true
    pub newly :
        (p : FilePath)
        → seen_in p s'.seen ≡ true
        → (seen_in p s.seen ≡ true)
          ⊎ (Traced s' p (g.visit p)
              × ((tree : Value) (names : List Text) (lost : List SkippedFile) (name : Text)
                  → g.visit p ≡ read_tree tree names lost
                  → mem_text name names ≡ true
                  → mem_text name s'.queue ≡ true))

  pub IsTracking-round :
      (rel : Text) (rest : List Text) (s s' : WalkState)
      → IsRound rel rest s s'
      → IsTracking (rel ∷ rest) s
      → IsTracking s'.queue s'
  unfolding mem_text
  IsTracking-round rel rest s s' r inv = record {
    traced = λ p m. elim (r.newly p m) [
      | inl old ↦ Traced-Extends s s' p (g.visit p) r.extends (inv.traced p old)
      | inr (t, _) ↦ t
    ];
    follows = λ p tree names lost name m v there. elim (r.newly p m) [
      | inr (_, w) ↦ inr (w tree names lost name v there)
      | inl old ↦ elim (inv.follows p tree names lost name old v there) [
        | inl h ↦ inl (Handled-Extends s s' name r.extends h)
        | inr q ↦ elim (Bool-cases (eq_text name rel)) [
          | inl e ↦ inl (subst (Handled s') (sym ((eq_text_iff name rel).0 e)) r.handled)
          | inr e ↦ inr (r.waits name (ground (arith, q, e)))
        ]
      ]
    ];
  }

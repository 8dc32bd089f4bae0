-- ===== src/RefScan/Walk/Tracking/Rounds.antt =====
-- Every round of the walk (src/companion/refscan.py) leaves behind what it must.
use hactl_companion.Base.{
  ◌≡◌, refl, sym, subst, true, List, [], ◌∷◌, ◌++◌, ◌||◌, arith, Text, eq_text_refl, Bool-cases,
  inl, inr, ◌⊎◌, mem_text,
}
use hactl_companion.PathGuard.{FilePath}
use hactl_companion.Files.{eq_path, eq_path_iff, eq_path_refl}
use hactl_companion.Backups.Retention.{any-append}
use hactl_companion.RefScan.Walk.{
  missing, reason_text, SkippedFile, eq_skipped, mem_skipped, seen_in, Visit, passed_over, unread,
  crashed, read_tree, WalkState, done, ConfigGraph, visited, walk_round,
}
use hactl_companion.Yaml.{Value}
use hactl_companion.RefScan.Walk.Tracking.{yielded, Traced, IsRound}

module _ (g : ConfigGraph) where
  done_same : {s s' : WalkState} → done s ≡ done s' → s ≡ s'
  done_same h = cc h

  names_of :
      (name : Text) (names names' : List Text)
      → names' ≡ names
      → mem_text name names' ≡ true
      → mem_text name names ≡ true
  names_of name names names' e m = ground (arith, e, m)

  mem-waiting :
      (name : Text) (rest names : List Text)
      → mem_text name (rest ++ names) ≡ (mem_text name rest || mem_text name names)
  unfolding mem_text
  mem-waiting name [] names = refl
  mem-waiting name (x ∷ rest) names = ground (arith, mem-waiting name rest names)

  seen_new :
      (p q : FilePath) (seen : List FilePath)
      → seen_in q (p ∷ seen) ≡ true
      → (q ≡ p) ⊎ (seen_in q seen ≡ true)
  seen_new p q seen h = elim (Bool-cases (eq_path q p)) [
    | inl e ↦ inl ((eq_path_iff q p).0 e)
    | inr e ↦ inr (ground (arith, h, e))
  ]

  seen_first : (p : FilePath) (seen : List FilePath) → seen_in p (p ∷ seen) ≡ true
  seen_first p seen = ground (arith, eq_path_refl p)

  logged_last : (r : SkippedFile) (log : List SkippedFile) → mem_skipped r (log ++ r ∷ []) ≡ true
  unfolding mem_skipped eq_skipped
  logged_last r log =
      ground (arith, any-append (eq_skipped r) log (r ∷ []), eq_text_refl r.0, eq_text_refl r.1)

  logged_kept :
      (r : SkippedFile) (log more : List SkippedFile)
      → mem_skipped r log ≡ true
      → mem_skipped r (log ++ more) ≡ true
  unfolding mem_skipped
  logged_kept r log more h = ground (arith, any-append (eq_skipped r) log more, h)

  logged_more :
      (r : SkippedFile) (log more : List SkippedFile)
      → mem_skipped r more ≡ true
      → mem_skipped r (log ++ more) ≡ true
  unfolding mem_skipped
  logged_more r log more h = ground (arith, any-append (eq_skipped r) log more, h)

  yielded_kept :
      (p : FilePath) (found more : List (FilePath × Value))
      → yielded p found ≡ true
      → yielded p (found ++ more) ≡ true
  yielded_kept p found more h =
      ground (arith, any-append (λ (q : FilePath × Value). eq_path p q.0) found more, h)

  yielded_last :
      (p : FilePath) (tree : Value) (found : List (FilePath × Value))
      → yielded p (found ++ (p, tree) ∷ []) ≡ true
  yielded_last p tree found = ground (
    arith,
    any-append (λ (q : FilePath × Value). eq_path p q.0) found ((p, tree) ∷ []),
    eq_path_refl p,
  )

  -- A round that ends in a state with `p` new, from what its visit leaves behind.
  new_file-IsRound :
      (rel : Text) (rest : List Text) (s s' : WalkState)
      → s'.seen ≡ g.resolve rel ∷ s.seen
      → ((r : SkippedFile) → mem_skipped r s.skipped ≡ true → mem_skipped r s'.skipped ≡ true)
      → ((p : FilePath) → yielded p s.found ≡ true → yielded p s'.found ≡ true)
      → ((name : Text) → mem_text name rest ≡ true → mem_text name s'.queue ≡ true)
      → Traced g s' (g.resolve rel) (g.visit (g.resolve rel))
      → ((tree : Value) (names : List Text) (lost : List SkippedFile) (name : Text)
          → g.visit (g.resolve rel) ≡ read_tree tree names lost
          → mem_text name names ≡ true
          → mem_text name s'.queue ≡ true)
      → IsRound g rel rest s s'
  new_file-IsRound rel rest s s' e log found kept traced names = record {
    extends = record {
      seen_kept = λ p h. ground (arith, e, h);
      log_kept = log;
      found_kept = found;
    };
    handled = inr (
        subst (λ seen. seen_in (g.resolve rel) seen ≡ true) (sym e)
          (seen_first (g.resolve rel) s.seen));
    waits = kept;
    newly = λ p m.
        elim (seen_new (g.resolve rel) p s.seen (subst (λ seen. seen_in p seen ≡ true) e m)) [
          | inr old ↦ inl old
          | inl same ↦ inr (
              subst
                (λ q.
                  Traced g s' q (g.visit q)
                  × ((tree : Value) (names : List Text) (lost : List SkippedFile) (name : Text)
                      → g.visit q ≡ read_tree tree names lost
                      → mem_text name names ≡ true
                      → mem_text name s'.queue ≡ true))
                (sym same) (traced, names))
        ];
  }

  visited-IsRound :
      (rel : Text) (rest : List Text) (s s' : WalkState) (v : Visit)
      → g.visit (g.resolve rel) ≡ v
      → visited g (g.resolve rel) rest s v ≡ done s'
      → IsRound g rel rest s s'
  unfolding visited
  visited-IsRound rel rest s s' passed_over e h =
      let after : WalkState = record s { queue = rest; seen = g.resolve rel ∷ s.seen } in
      subst (IsRound g rel rest s) (done_same h) (
        new_file-IsRound rel rest s after refl (λ r k. k) (λ p k. k) (λ name k. k)
          (subst (Traced g after (g.resolve rel)) (sym e) tt)
          (λ tree names lost name v. absurd (cc (e, v))))
  visited-IsRound rel rest s s' (unread reason) e h =
      let after : WalkState = record s {
        queue = rest;
        seen = g.resolve rel ∷ s.seen;
        skipped = s.skipped ++ (g.location (g.resolve rel), reason_text reason) ∷ [];
      } in
      subst (IsRound g rel rest s) (done_same h) (
        new_file-IsRound rel rest s after refl
          (λ r. logged_kept r s.skipped ((g.location (g.resolve rel), reason_text reason) ∷ []))
          (λ p k. k) (λ name k. k)
          (subst (Traced g after (g.resolve rel)) (sym e)
            (logged_last (g.location (g.resolve rel), reason_text reason) s.skipped))
          (λ tree names lost name v. absurd (cc (e, v))))
  visited-IsRound rel rest s s' (crashed x) e h = absurd (ground (arith, h))
  visited-IsRound rel rest s s' (read_tree tree names lost) e h =
      let after : WalkState = record {
        queue = rest ++ names;
        seen = g.resolve rel ∷ s.seen;
        skipped = s.skipped ++ lost;
        found = s.found ++ (g.resolve rel, tree) ∷ [];
      } in
      subst (IsRound g rel rest s) (done_same h) (
        new_file-IsRound rel rest s after refl (λ r. logged_kept r s.skipped lost)
          (λ p. yielded_kept p s.found ((g.resolve rel, tree) ∷ []))
          (λ name k. ground (arith, mem-waiting name rest names, k))
          (subst (Traced g after (g.resolve rel)) (sym e)
            (yielded_last (g.resolve rel) tree s.found, λ r. logged_more r s.skipped lost))
          (λ tree' names' lost' name v m.
            ground (arith, mem-waiting name rest names, names_of name names names' (cc (e, v)) m)))

  pub walk_round-IsRound :
      (rel : Text) (rest : List Text) (s s' : WalkState)
      → walk_round g rel rest s ≡ done s'
      → IsRound g rel rest s s'
  unfolding walk_round
  walk_round-IsRound rel rest s s' h = elim (Bool-cases (seen_in (g.resolve rel) s.seen)) [
    | inl old ↦ subst (IsRound g rel rest s) (done_same (rw (walk_round, old) at h)) (record {
      extends = record { seen_kept = λ p k. k; log_kept = λ r k. k; found_kept = λ p k. k };
      handled = inr old;
      waits = λ name k. k;
      newly = λ p m. inl m;
    })
    | inr fresh ↦ elim (Bool-cases (g.is_file (g.resolve rel))) [
      | inl there ↦
          visited-IsRound rel rest s s' (g.visit (g.resolve rel)) refl
            (rw (walk_round, fresh, there) at h)
      | inr absent ↦
          subst (IsRound g rel rest s) (done_same (rw (walk_round, fresh, absent) at h)) (record {
            extends = record {
              seen_kept = λ p k. k;
              log_kept = λ r.
                  logged_kept r s.skipped ((g.location (g.resolve rel), reason_text missing) ∷ []);
              found_kept = λ p k. k;
            };
            handled =
                inl
                  (absent, logged_last (g.location (g.resolve rel), reason_text missing) s.skipped);
            waits = λ name k. k;
            newly = λ p m. inl m;
          })
    ]
  ]

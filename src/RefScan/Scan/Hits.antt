-- ===== src/RefScan/Scan/Hits.antt =====
-- The hits of a scan and the records of its log (src/companion/refscan.py): sorting them loses none, and
-- the hits of each file that the walk yields are among them.
use hactl_companion.Base.{
  ℕ, ◌≡◌, ◌∙◌, refl, sym, ap, subst, Bool, true, ◌&&◌, ◌||◌, List, [], ◌∷◌, ◌++◌, arith, Text,
  eq_text, eq_text_iff, eq_text_refl, any, all, Bool-cases, inl, inr, ◌↔◌,
}
use hactl_companion.PathGuard.{FilePath}
use hactl_companion.Files.{eq_path, eq_path_iff}
use hactl_companion.Backups.Retention.{any-append}
use hactl_companion.Yaml.{Value}
use hactl_companion.RefScan.Walk.{SkippedFile, eq_skipped, mem_skipped, read_tree, ConfigGraph}
use hactl_companion.RefScan.Walk.Tracking.{yielded}
use hactl_companion.RefScan.Walk.Found.{AllVisited}
use hactl_companion.RefScan.Scan.{
  add_record, skipped_files, insert_by_key, sort_by_key, ScanHit, file_hits, all_hits,
}

pub eq_skipped_iff : (r s : SkippedFile) → (eq_skipped r s ≡ true) ↔ (r ≡ s)
unfolding eq_skipped
eq_skipped_iff (a, r) (b, s) = ground (arith, eq_text_iff a b, eq_text_iff r s)

-- Sorting and the set of the log neither drop nor add anything.
pub any-sort_by_key :
    {A : Type 0} (sort_key : A → Text × Text) (p : A → Bool) (xs : List A)
    → any p (sort_by_key sort_key xs) ≡ any p xs
unfolding sort_by_key
any-sort_by_key sort_key p [] = refl
any-sort_by_key {A = A} sort_key p (x ∷ xs) =
    ground (arith, any-insert x (sort_by_key sort_key xs), any-sort_by_key sort_key p xs)
  where
    any-insert : (y : A) (ys : List A) → any p (insert_by_key sort_key y ys) ≡ (p y || any p ys)
    any-insert y [] = refl
    any-insert y (z ∷ ys) = ground (arith, any-insert y ys)

mem-add_record :
    (q r : SkippedFile) (log : List SkippedFile)
    → mem_skipped q (add_record r log) ≡ (eq_skipped q r || mem_skipped q log)
unfolding add_record mem_skipped
mem-add_record q r [] = refl
mem-add_record q r (s ∷ log) = ground (arith, mem-add_record q r log, eq_skipped_iff r s)

pub mem-skipped_files :
    (q : SkippedFile) (log : List SkippedFile)
    → mem_skipped q (skipped_files log) ≡ mem_skipped q log
unfolding skipped_files mem_skipped
mem-skipped_files q [] = refl
mem-skipped_files q (r ∷ log) =
    ground (arith, mem-add_record q r (skipped_files log), mem-skipped_files q log)

abbrev pub eq_hit : ScanHit → ScanHit → Bool
eq_hit a b =
    eq_text a.location b.location
    && eq_text a.path b.path
    && eq_text a.matched_value b.matched_value

-- Whether all hits of one list are in another.
abbrev pub all_in : List ScanHit → List ScanHit → Bool
all_in hits xs = all (λ h. any (eq_hit h) hits) xs

pub all_in-larger :
    (hits more xs : List ScanHit)
    → ((h : ScanHit) → any (eq_hit h) hits ≡ true → any (eq_hit h) more ≡ true)
    → all_in hits xs ≡ true
    → all_in more xs ≡ true
all_in-larger hits more [] larger e = refl
all_in-larger hits more (x ∷ xs) larger e =
    ground (arith, e, larger x, all_in-larger hits more xs larger)

eq_hit_refl : (h : ScanHit) → eq_hit h h ≡ true
eq_hit_refl h =
    ground (arith, eq_text_refl h.location, eq_text_refl h.path, eq_text_refl h.matched_value)

all_in_itself : (xs : List ScanHit) → all_in xs xs ≡ true
all_in_itself [] = refl
all_in_itself (x ∷ xs) = ground (
  arith,
  eq_hit_refl x,
  all_in-larger xs (x ∷ xs) xs (λ h e. ground (arith, e)) (all_in_itself xs),
)

all_in_first : (xs ys : List ScanHit) → all_in (xs ++ ys) xs ≡ true
all_in_first xs ys =
    all_in-larger xs (xs ++ ys) xs (λ h e. ground (arith, any-append (eq_hit h) xs ys, e))
      (all_in_itself xs)

all_in_later : (zs ys xs : List ScanHit) → all_in ys xs ≡ true → all_in (zs ++ ys) xs ≡ true
all_in_later zs ys xs =
    all_in-larger ys (zs ++ ys) xs (λ h e. ground (arith, any-append (eq_hit h) zs ys, e))

-- The hits of a file that was yielded are among all hits.
pub file_hits-all_in :
    (is_word : ℕ → Bool) (target : Text) (g : ConfigGraph) (found : List (FilePath × Value))
    (p : FilePath) (tree : Value) (names : List Text) (lost : List SkippedFile)
    → AllVisited g found
    → g.visit p ≡ read_tree tree names lost
    → yielded p found ≡ true
    → all_in (all_hits is_word target g found) (file_hits is_word target (g.location p) tree) ≡ true
unfolding all_hits
file_hits-all_in is_word target g [] p tree names lost all e y = absurd (cc y)
file_hits-all_in is_word target g ((q, t) ∷ found) p tree names lost ((names', lost', v), all) e y =
    elim (Bool-cases (eq_path p q)) [
      | inl same ↦
          let at : p ≡ q = (eq_path_iff p q).0 same in
          let trees : t ≡ tree = same_tree (sym v ∙ ap g.visit (sym at) ∙ e) in
          subst (λ x. all_in (all_hits is_word target g ((q, t) ∷ found)) x ≡ true) (cc (at, trees))
            (all_in_first (file_hits is_word target (g.location q) t)
              (all_hits is_word target g found))
      | inr other ↦
          all_in_later (file_hits is_word target (g.location q) t) (all_hits is_word target g found)
            (file_hits is_word target (g.location p) tree)
            (file_hits-all_in is_word target g found p tree names lost all e
              (ground (arith, y, other)))
    ]
  where
    same_tree :
        {a b : Value} {n m : List Text} {l k : List SkippedFile}
        → read_tree a n l ≡ read_tree b m k
        → a ≡ b
    same_tree h = cc h

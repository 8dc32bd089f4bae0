-- ===== src/Backups/Retention.antt =====
-- What a backup keeps, and how many are kept (src/companion/backups.py).
use hactl_companion.Base.{
  ℕ, zero, suc, ◌-◌, ◌≤◌, ◌≡◌, ◌≢◌, ◌∙◌, subst, inl, inr, refl, sym, Bool, true, false, none, List,
  [], ◌∷◌, ◌++◌, ◌&&◌, ◌||◌, arith, Text, length, take, drop, any, take-append-drop, length-drop,
  if◌then◌else◌, Bool-cases,
}
use mathlib.Core.Bool.{false≢true}
use hactl_companion.PathGuard.{FilePath, name}
use hactl_companion.Files.{Disk, read, unlink, paths, eq_path, eq_path_iff, read-unlink}
use hactl_companion.Backups.{
  is_backup_of, lt_text, insert_path, sort_paths, filter_backups, backups, unlink_each,
  prune_backups,
}

abbrev pub mem_path : FilePath → List FilePath → Bool
mem_path p ps = any (eq_path p) ps

pub any-append {ℓ} :
    {A : Type ℓ} (p : A → Bool) (xs ys : List A) → any p (xs ++ ys) ≡ (any p xs || any p ys)
any-append p [] ys = refl
any-append p (x ∷ xs) ys = ground (arith, any-append p xs ys)

mem-insert_path :
    (p q : FilePath) (ps : List FilePath)
    → mem_path q (insert_path p ps) ≡ (eq_path q p || mem_path q ps)
unfolding insert_path
mem-insert_path p q [] = refl
mem-insert_path p q (r ∷ ps) = ground (arith, mem-insert_path p q ps)

pub mem-sort_paths :
    (q : FilePath) (ps : List FilePath) → mem_path q (sort_paths ps) ≡ mem_path q ps
unfolding sort_paths
mem-sort_paths q [] = refl
mem-sort_paths q (p ∷ ps) =
    mem-insert_path p q (sort_paths ps) ∙ ground (arith, mem-sort_paths q ps)

pub mem-filter_backups :
    (path q : FilePath) (ps : List FilePath)
    → mem_path q (filter_backups path ps) ≡ (is_backup_of path q && mem_path q ps)
unfolding filter_backups
mem-filter_backups path q [] = ground arith
mem-filter_backups path q (p ∷ ps) = ground (arith, mem-filter_backups path q ps, eq_path_iff q p)

pub mem-paths : (q : FilePath) (d : Disk) → read q d ≢ none → mem_path q (paths d) ≡ true
unfolding read paths
mem-paths q [] h = absurd (h refl)
mem-paths q ((p, t) ∷ d) h = ground (arith, eq_path_iff p q, eq_path_iff q p, mem-paths q d)

pub read-unlink_each :
    (q : FilePath) (ps : List FilePath) (d : Disk)
    → read q (unlink_each ps d) ≡ (if mem_path q ps then none else read q d)
unfolding unlink_each
read-unlink_each q [] d = refl
read-unlink_each q (p ∷ ps) d =
    ground (
      arith,
      read-unlink_each q ps (unlink p d),
      read-unlink p q d,
      eq_path_iff q p,
      eq_path_iff p q,
    )

-- The copies that survive a prune.
pub kept : FilePath → ℕ → Disk → List FilePath
kept path keep d = let found = backups path d in drop (length found - keep) found

pub kept_bounds : (path : FilePath) (keep : ℕ) (d : Disk) → length (kept path keep d) ≤ keep
unfolding kept
kept_bounds path keep d =
    omega (arith, length-drop (length (backups path d) - keep) (backups path d))

pub survivor-kept :
    (path q : FilePath) (k : ℕ) (d : Disk)
    → is_backup_of path q ≡ true
    → read q (prune_backups path (suc k) d) ≢ none
    → mem_path q (kept path (suc k) d) ≡ true
unfolding prune_backups kept backups
survivor-kept path q k d b h =
    let found = backups path d in
    let n = length found - suc k in
    let gone = read-unlink_each q (take n found) d in
    let here : read q d ≢ none = λ e. h (gone ∙ ground (arith, e)) in
    let listed : mem_path q found ≡ true =
      mem-sort_paths q (filter_backups path (paths d))
      ∙ (mem-filter_backups path q (paths d) ∙ ground (arith, mem-paths q d here)) in
    let parts : mem_path q (take n found ++ drop n found) ≡ true =
      rw (take-append-drop n found) listed in
    elim (Bool-cases (mem_path q (take n found))) [
      | inl stale ↦ absurd (h (gone ∙ rw stale))
      | inr fresh ↦ sym (any-append (eq_path q) (take n found) (drop n found) ∙ rw fresh) ∙ parts
    ]

-- A name that extends another is not below it, and the order is strict.
lt_text_asymm : (s t : Text) → lt_text s t ≡ true → lt_text t s ≡ false
unfolding lt_text
lt_text_asymm [] [] h = cc
lt_text_asymm [] (b ∷ t) h = refl
lt_text_asymm (a ∷ s) [] h = cc
lt_text_asymm (a ∷ s) (b ∷ t) h = ground (arith, lt_text_asymm s t)

lt_text_irrefl : (s : Text) → lt_text s s ≡ false
unfolding lt_text
lt_text_irrefl [] = refl
lt_text_irrefl (a ∷ s) = ground (arith, lt_text_irrefl s)

-- Every path of the list sorts before `p`.
abbrev pub AllOlder : FilePath → List FilePath → Type 0
AllOlder p [] = Unit
AllOlder p (q ∷ qs) = (lt_text (name q) (name p) ≡ true) × AllOlder p qs

insert_path-append :
    (p q : FilePath) (xs : List FilePath)
    → lt_text (name q) (name p) ≡ true
    → insert_path q (xs ++ p ∷ []) ≡ insert_path q xs ++ p ∷ []
unfolding insert_path
insert_path-append p q [] h = rw (lt_text_asymm (name q) (name p) h)
insert_path-append p q (x ∷ xs) h = ground (arith, insert_path-append p q xs h)

pub sort_paths-append :
    (p : FilePath) (xs : List FilePath)
    → AllOlder p xs
    → sort_paths (xs ++ p ∷ []) ≡ sort_paths xs ++ p ∷ []
unfolding sort_paths
sort_paths-append p [] h = refl
sort_paths-append p (x ∷ xs) h =
    rw (sort_paths-append p xs h.1) (insert_path-append p x (sort_paths xs) h.0)

insert_path-AllOlder :
    (p q : FilePath) (xs : List FilePath)
    → lt_text (name q) (name p) ≡ true
    → AllOlder p xs
    → AllOlder p (insert_path q xs)
unfolding insert_path
insert_path-AllOlder p q [] h hs = (h, tt)
insert_path-AllOlder p q (x ∷ xs) h hs = elim (Bool-cases (lt_text (name x) (name q))) [
  | inl lt ↦ rw lt (hs.0, insert_path-AllOlder p q xs h hs.1)
  | inr ge ↦ rw ge (h, hs)
]

pub sort_paths-AllOlder :
    (p : FilePath) (xs : List FilePath) → AllOlder p xs → AllOlder p (sort_paths xs)
unfolding sort_paths
sort_paths-AllOlder p [] h = tt
sort_paths-AllOlder p (x ∷ xs) h =
    insert_path-AllOlder p x (sort_paths xs) h.0 (sort_paths-AllOlder p xs h.1)

-- The newest copy is not among the stale ones.
pub newest-not-stale :
    (p : FilePath) (n : ℕ) (xs : List FilePath)
    → AllOlder p xs
    → n ≤ length xs
    → mem_path p (take n (xs ++ p ∷ [])) ≡ false
newest-not-stale p zero xs h le = refl
newest-not-stale p (suc n) [] h le = absurd (omega arith)
newest-not-stale p (suc n) (x ∷ xs) h le =
    let differ : eq_path p x ≡ false = elim (Bool-cases (eq_path p x)) [
      | inl same ↦ absurd (
          false≢true (
            sym (lt_text_irrefl (name p))
            ∙ subst (λ y. lt_text (name y) (name p) ≡ true) (sym ((eq_path_iff p x).0 same)) h.0))
      | inr differ ↦ differ
    ] in
    rw differ (newest-not-stale p n xs h.1 (omega arith))
